-- ===== src/ProcEvent/Calls.antt =====
-- The events against the calls that they make of the registry.
use taskmonitor.Common.{
  ==_iff, ℕ, ◌+◌, ◌≡◌, refl, ◌∙◌, Bool, true, false, List, [], ◌∷◌, ◌++◌, ◌==◌, if◌then◌else◌,
  arith, ◌%◌, ◌<◌, u64, inl, inr, Bool-cases, none,
}
use taskmonitor.Bswinfra.{AsyncQueue, SafeList}
use taskmonitor.ProcEntry.{ProcFs}
use taskmonitor.ProcRegistry
use taskmonitor.ProcRegistry.{Registry, Blacklist, get_proc_entry}
use taskmonitor.ProcRegistry.Invariant.{Inv}
use taskmonitor.ProcRegistry.History.{Op, adds, updates, removes, run, run_keeps-Inv}
use taskmonitor.ProcRegistry.Removal.{rem_proc_entry-get_proc_entry}
use taskmonitor.StateManager
use taskmonitor.ProcEvent.{
  KernelEvent, started, other, uid, gid, fork, exec, exit, Received, nothing, failed,
  no_buffer_space, event, EventCounts, counted, call_registry, receive, receives, Service,
}

-- The events that are heard: those before an error of the socket.
abbrev pub heard : List (ProcFs × Received) → List (ProcFs × KernelEvent)
heard [] = []
heard ((fs, failed) ∷ rs) = []
heard ((fs, event e) ∷ rs) = (fs, e) ∷ heard rs
heard ((fs, nothing) ∷ rs) = heard rs
heard ((fs, no_buffer_space) ∷ rs) = heard rs

-- The calls of the registry for an event: a new process is added, one that runs a new program is
-- updated, and one that ends is removed at once. Threads make none.
abbrev pub calls_of : ProcFs → KernelEvent → List Op
calls_of fs (fork pid tgid) = if pid == tgid then adds fs tgid ∷ [] else []
calls_of fs (exec pid) = updates fs pid ∷ []
calls_of fs (exit pid tgid) = if pid == tgid then removes pid true ∷ [] else []
calls_of fs e = []

abbrev pub calls : List (ProcFs × KernelEvent) → List Op
calls [] = []
calls ((fs, e) ∷ es) = calls_of fs e ++ calls es

-- How many events pass a test.
abbrev pub count : (KernelEvent → Bool) → List (ProcFs × KernelEvent) → ℕ
count test [] = 0
count test ((fs, e) ∷ es) = (if test e then 1 else 0) + count test es

abbrev pub is_fork : KernelEvent → Bool
is_fork (fork pid tgid) = true
is_fork e = false

abbrev pub is_exec : KernelEvent → Bool
is_exec (exec pid) = true
is_exec e = false

abbrev pub is_exit : KernelEvent → Bool
is_exit (exit pid tgid) = true
is_exit e = false

abbrev pub is_uid : KernelEvent → Bool
is_uid uid = true
is_uid e = false

abbrev pub is_gid : KernelEvent → Bool
is_gid gid = true
is_gid e = false

-- The counters fit 64 bits.
pub record CountsFit (d : EventCounts) : Type 0 where
  pub fork_fits : d.fork_count < u64
  pub exec_fits : d.exec_count < u64
  pub uid_fits : d.uid_count < u64
  pub gid_fits : d.gid_count < u64
  pub exit_fits : d.exit_count < u64

-- The counters that a number of events leaves.
abbrev pub added : EventCounts → List (ProcFs × KernelEvent) → EventCounts
added d es = record {
  fork_count = (d.fork_count + count is_fork es) % u64;
  exec_count = (d.exec_count + count is_exec es) % u64;
  uid_count = (d.uid_count + count is_uid es) % u64;
  gid_count = (d.gid_count + count is_gid es) % u64;
  exit_count = (d.exit_count + count is_exit es) % u64;
}

counted-CountsFit : (e : KernelEvent) (d : EventCounts) → CountsFit d → CountsFit (counted e d)
unfolding counted
counted-CountsFit started d v = v
counted-CountsFit other d v = v
counted-CountsFit uid d v = record {
  fork_fits = v.fork_fits;
  exec_fits = v.exec_fits;
  uid_fits = omega arith;
  gid_fits = v.gid_fits;
  exit_fits = v.exit_fits;
}
counted-CountsFit gid d v = record {
  fork_fits = v.fork_fits;
  exec_fits = v.exec_fits;
  uid_fits = v.uid_fits;
  gid_fits = omega arith;
  exit_fits = v.exit_fits;
}
counted-CountsFit (fork pid tgid) d v = record {
  fork_fits = omega arith;
  exec_fits = v.exec_fits;
  uid_fits = v.uid_fits;
  gid_fits = v.gid_fits;
  exit_fits = v.exit_fits;
}
counted-CountsFit (exec pid) d v = record {
  fork_fits = v.fork_fits;
  exec_fits = omega arith;
  uid_fits = v.uid_fits;
  gid_fits = v.gid_fits;
  exit_fits = v.exit_fits;
}
counted-CountsFit (exit pid tgid) d v = record {
  fork_fits = v.fork_fits;
  exec_fits = v.exec_fits;
  uid_fits = v.uid_fits;
  gid_fits = v.gid_fits;
  exit_fits = omega arith;
}

added-nil : (d : EventCounts) → CountsFit d → d ≡ added d []
added-nil d v =
    rw
      (
        in_range d.fork_count v.fork_fits,
        in_range d.exec_count v.exec_fits,
        in_range d.uid_count v.uid_fits,
        in_range d.gid_count v.gid_fits,
        in_range d.exit_count v.exit_fits,
      )
      refl
  where
    in_range : (n : ℕ) → n < u64 → (n + 0) % u64 ≡ n
    in_range n h = omega arith

carry : (d n : ℕ) → ((d + 1) % u64 + n) % u64 ≡ (d + (1 + n)) % u64
carry d n = omega arith

added-counted :
    (fs : ProcFs) (e : KernelEvent) (d : EventCounts) (es : List (ProcFs × KernelEvent))
    → added (counted e d) es ≡ added d ((fs, e) ∷ es)
unfolding counted
added-counted fs started d es = ground arith
added-counted fs other d es = ground arith
added-counted fs uid d es = rw (carry d.uid_count (count is_uid es)) (ground arith)
added-counted fs gid d es = rw (carry d.gid_count (count is_gid es)) (ground arith)
added-counted fs (fork pid tgid) d es = rw (carry d.fork_count (count is_fork es)) (ground arith)
added-counted fs (exec pid) d es = rw (carry d.exec_count (count is_exec es)) (ground arith)
added-counted fs (exit pid tgid) d es = rw (carry d.exit_count (count is_exit es)) (ground arith)

module _ (L : SafeList) (Q : AsyncQueue ProcRegistry.Request) (K : AsyncQueue StateManager.Request)
    (blacklist : Blacklist) where
  open L use {Elements}
  open Q use {Queue}

  call_registry-run :
      (fs : ProcFs) (e : KernelEvent) (ops : List Op) (r : Registry Elements Queue)
      → run L Q blacklist ops (call_registry L Q K blacklist true fs e r)
        ≡ run L Q blacklist (calls_of fs e ++ ops) r
  unfolding call_registry run
  call_registry-run fs started ops r = refl
  call_registry-run fs other ops r = refl
  call_registry-run fs uid ops r = refl
  call_registry-run fs gid ops r = refl
  call_registry-run fs (exec pid) ops r = refl
  call_registry-run fs (fork pid tgid) ops r = elim (Bool-cases (pid == tgid)) [
    | inl process ↦ rw process refl
    | inr thread ↦ rw thread refl
  ]
  call_registry-run fs (exit pid tgid) ops r = elim (Bool-cases (pid == tgid)) [
    | inl process ↦ rw process refl
    | inr thread ↦ rw thread refl
  ]

  call_registry_off :
      (fs : ProcFs) (e : KernelEvent) (r : Registry Elements Queue)
      → call_registry L Q K blacklist false fs e r ≡ r
  unfolding call_registry
  call_registry_off fs started r = refl
  call_registry_off fs other r = refl
  call_registry_off fs uid r = refl
  call_registry_off fs gid r = refl
  call_registry_off fs (exec pid) r = refl
  call_registry_off fs (fork pid tgid) r = ground arith
  call_registry_off fs (exit pid tgid) r = ground arith

  -- With updates on events, the registry after the events is what the calls make of it.
  pub receives-run :
      (rs : List (ProcFs × Received)) (s : Service L Q K blacklist true)
      → (receives L Q K blacklist true rs s).registry
        ≡ run L Q blacklist (calls (heard rs)) s.registry
  unfolding receives receive run
  receives-run [] s = refl
  receives-run ((fs, failed) ∷ rs) s = refl
  receives-run ((fs, nothing) ∷ rs) s = receives-run rs s
  receives-run ((fs, no_buffer_space) ∷ rs) s = receives-run rs _
  receives-run ((fs, event e) ∷ rs) s =
      receives-run rs _ ∙ call_registry-run fs e (calls (heard rs)) s.registry

  -- From a registry that keeps its invariant, every sequence of events keeps it.
  pub receives-Inv :
      (rs : List (ProcFs × Received)) (s : Service L Q K blacklist true)
      → Inv L Q blacklist s.registry
      → Inv L Q blacklist (receives L Q K blacklist true rs s).registry
  receives-Inv rs s v =
      rw (receives-run rs s) (run_keeps-Inv L Q blacklist (calls (heard rs)) s.registry v)

  -- Without updates on events no event touches the registry.
  pub receives_off :
      (rs : List (ProcFs × Received)) (s : Service L Q K blacklist false)
      → (receives L Q K blacklist false rs s).registry ≡ s.registry
  unfolding receives receive
  receives_off [] s = refl
  receives_off ((fs, failed) ∷ rs) s = refl
  receives_off ((fs, nothing) ∷ rs) s = receives_off rs s
  receives_off ((fs, no_buffer_space) ∷ rs) s = receives_off rs _
  receives_off ((fs, event e) ∷ rs) s = receives_off rs _ ∙ call_registry_off fs e s.registry

  -- Where the counters fit 64 bits, each grows, modulo 2^64, by the number of its events that are heard
  -- before an error of the socket, whether or not the events update the registry; a loss of messages
  -- counts none and does not end the loop.
  pub receives-added :
      (on : Bool) (rs : List (ProcFs × Received)) (s : Service L Q K blacklist on)
      → CountsFit s.event_data
      → (receives L Q K blacklist on rs s).event_data ≡ added s.event_data (heard rs)
  unfolding receives receive
  receives-added on [] s v = added-nil s.event_data v
  receives-added on ((fs, failed) ∷ rs) s v = added-nil s.event_data v
  receives-added on ((fs, nothing) ∷ rs) s v = receives-added on rs s v
  receives-added on ((fs, no_buffer_space) ∷ rs) s v = receives-added on rs _ v
  receives-added on ((fs, event e) ∷ rs) s v =
      receives-added on rs _ (counted-CountsFit e s.event_data v)
      ∙ added-counted fs e s.event_data (heard rs)

  -- From a registry that keeps its invariant, through any events, the end of a process leaves no
  -- entry with its pid.
  pub receive_exit-get_proc_entry :
      (rs : List (ProcFs × Received)) (fs : ProcFs) (pid : ℕ) (s : Service L Q K blacklist true)
      → Inv L Q blacklist s.registry
      → let t = receives L Q K blacklist true rs s in
        get_proc_entry L Q pid (receive L Q K blacklist true fs (event (exit pid pid)) t).0.registry
        ≡ none
  unfolding receive call_registry
  receive_exit-get_proc_entry rs fs pid s v =
      rw ((==_iff pid pid).1 refl)
        (rem_proc_entry-get_proc_entry L Q blacklist pid _ (receives-Inv rs s v))
