-- ===== src/Session/Receive.antt =====
-- The reading loop of a connection.
use taskmonitor.Common.{
  ◌≡◌, refl, ap, Bool, true, false, List, [], ◌∷◌, Bytes, Outcome, ok, throws, traps, M, arith,
}
use taskmonitor.Bswinfra.{AsyncQueue}
use taskmonitor.Session.{
  Kind, tcp, uds, RequestType, create_session, get_startup_data, get_proc_acct, get_proc_info,
  get_context_info, get_proc_event_stats, get_sys_proc_mem_info, get_sys_proc_disk_stats,
  get_sys_proc_stat, get_sys_proc_pressure, get_sys_proc_buddy_info, get_sys_proc_wireless,
  get_sys_proc_vm_stat, keep_alive, unknown_type, Read, again, read_error, end_of_file, message,
  Target, Action, Ask, App, Session, Moment, push_to, push_if, handle, resume, receive,
}
use taskmonitor.Session.LaneLists.{do_create_session_done}

module _ (Q : AsyncQueue Ask) (hash_of : Bytes → Bytes) (a : App) where
  open Q use {Queue}

  -- A call that returns.
  abbrev pub Returns : Session Queue × Outcome Bool → Type 0
  Returns x = (b : Bool) × (x.1 ≡ ok b)

  push_if-Returns :
      (b : Bool) (t : Target) (act : Action) (s : Session Queue) → Returns (push_if Q b t act s)
  unfolding push_if push_to
  push_if-Returns true t act s = (_, refl)
  push_if-Returns false t act s = (true, refl)

  handle-Returns :
      (kind : Kind) (r : RequestType) (m : Moment) (s : Session Queue)
      → Returns (handle Q kind hash_of a r m s)
  unfolding handle push_to
  handle-Returns kind create_session m s =
      (m.write_ok, ap (λ x. x.1) (do_create_session_done Q _ hash_of a m s))
  handle-Returns tcp get_startup_data m s = push_if-Returns _ _ _ s
  handle-Returns uds get_startup_data m s = (false, refl)
  handle-Returns kind get_proc_acct m s = push_if-Returns _ _ _ s
  handle-Returns kind get_proc_info m s = (_, refl)
  handle-Returns kind get_context_info m s = (_, refl)
  handle-Returns kind get_proc_event_stats m s = push_if-Returns _ _ _ s
  handle-Returns kind get_sys_proc_mem_info m s = push_if-Returns _ _ _ s
  handle-Returns kind get_sys_proc_disk_stats m s = push_if-Returns _ _ _ s
  handle-Returns kind get_sys_proc_stat m s = push_if-Returns _ _ _ s
  handle-Returns kind get_sys_proc_pressure m s = push_if-Returns _ _ _ s
  handle-Returns kind get_sys_proc_buddy_info m s = push_if-Returns _ _ _ s
  handle-Returns kind get_sys_proc_wireless m s = push_if-Returns _ _ _ s
  handle-Returns kind get_sys_proc_vm_stat m s = push_if-Returns _ _ _ s
  handle-Returns kind keep_alive m s = (true, refl)
  handle-Returns kind unknown_type m s = (false, refl)

  resume-Returns :
      (m : Moment) (f : M (Session Queue) Bool)
      → ((t : Session Queue) → Returns (f t))
      → (x : Session Queue × Outcome Bool) → Returns x
      → Returns (resume Q m f x)
  unfolding resume
  resume-Returns m f h (t, ok true) v = h (record t { last_update_time = m.now })
  resume-Returns m f h (t, ok false) v = (false, refl)
  resume-Returns m f h (t, throws e) v = absurd (ground arith)
  resume-Returns m f h (t, traps) v = absurd (ground arith)

  -- Whatever a collector sends, the reading loop of its connection ends, and without an exception:
  -- no configuration makes the conversion of the session's interval fail.
  pub receive-Returns :
      (kind : Kind) (rs : List Read) (s : Session Queue) → Returns (receive Q kind hash_of a rs s)
  unfolding receive
  receive-Returns kind [] s = (true, refl)
  receive-Returns kind (again ∷ rs) s = (true, refl)
  receive-Returns kind (read_error ∷ rs) s = (false, refl)
  receive-Returns kind (end_of_file ∷ rs) s = (false, refl)
  receive-Returns kind (message false r m ∷ rs) s = (false, refl)
  receive-Returns kind (message true r m ∷ rs) s =
      resume-Returns m (receive Q kind hash_of a rs) (receive-Returns kind rs)
        (handle Q kind hash_of a r m s) (handle-Returns kind r m s)
