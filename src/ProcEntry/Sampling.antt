-- ===== src/ProcEntry/Sampling.antt =====
-- What an update does to an entry.
use taskmonitor.Common.{
  ◌≡◌, refl, Bool, true, false, List, Option, none, some, if◌then◌else◌, Bytes, Outcome, ok, throws,
  traps, M,
}
use taskmonitor.ProcEntry.{ProcInfo, ProcEntry}
use taskmonitor.ProcEntry.Update.{
  in_info, FdDirectory, closed, unreadable, links, Reading, read_proc_stat, read_proc_smaps_rollup,
  count_file_descriptors, unless_false, update_info_data, pending_set, settled, update_proc_info,
}
use taskmonitor.ProcEntry.Lines.{
  SameProcess, SameProcess-refl, SameProcess-trans, read_proc_stat-SameProcess, Mild,
  read_mem_lines-Mild,
}

-- A step that keeps the process, and traps only where `T` holds.
pub record Step (T : Type 0) (e : ProcEntry) (x : ProcEntry × Outcome Bool) : Type 0 where
  pub kept : SameProcess e x.0
  pub trapped : x.1 ≡ traps → T

in_info-Step :
    (e : ProcEntry) (x : ProcInfo × Outcome Bool) → Mild e.info x → Step ⊥ e (in_info e x)
in_info-Step e (i, o) m = record {
  kept = record {
    same_pid = refl;
    same_comm = m.mild_comm;
    same_ctx_id = m.mild_ctx_id;
    same_interval = refl;
    same_waiting = refl;
  };
  trapped = λ h. m.mild_end h;
}

read_proc_smaps_rollup-Step :
    (file : Option (List Bytes)) (e : ProcEntry) → Step ⊥ e (read_proc_smaps_rollup file e)
unfolding read_proc_smaps_rollup
read_proc_smaps_rollup-Step none e = record { kept = SameProcess-refl e; trapped = λ h. cc }
read_proc_smaps_rollup-Step (some lines) e = in_info-Step e _ (read_mem_lines-Mild 2 lines e.info)

count_file_descriptors-Step :
    (d : FdDirectory) (e : ProcEntry) → Step ⊥ e (count_file_descriptors d e)
unfolding count_file_descriptors
count_file_descriptors-Step closed e = record { kept = SameProcess-refl e; trapped = λ h. cc }
count_file_descriptors-Step unreadable e = record { kept = SameProcess-refl e; trapped = λ h. cc }
count_file_descriptors-Step (links n) e = record {
  kept = record {
    same_pid = refl;
    same_comm = refl;
    same_ctx_id = refl;
    same_interval = refl;
    same_waiting = refl;
  };
  trapped = λ h. cc;
}

-- Two steps in turn, the second without a trap.
unless_false-Step :
    {T : Type 0} (e : ProcEntry) (x : ProcEntry × Outcome Bool) (rest : M ProcEntry Bool)
    → Step T e x
    → ((f : ProcEntry) → Step ⊥ f (rest f))
    → Step T e (unless_false x rest)
unless_false-Step e (f, ok true) rest s h = record {
  kept = SameProcess-trans s.kept (h f).kept;
  trapped = λ t. absurd ((h f).trapped t);
}
unless_false-Step e (f, ok false) rest s h = record { kept = s.kept; trapped = λ t. cc }
unless_false-Step e (f, throws x) rest s h = record { kept = s.kept; trapped = λ t. cc }
unless_false-Step e (f, traps) rest s h = record { kept = s.kept; trapped = s.trapped }

optional_count-Step :
    (collect_fd : Bool) (g : Reading) (e : ProcEntry)
    → Step ⊥ e (if collect_fd then count_file_descriptors g.fd_directory e else (e, ok true))
optional_count-Step true g e = count_file_descriptors-Step g.fd_directory e
optional_count-Step false g e = record { kept = SameProcess-refl e; trapped = λ h. cc }

pub update_info_data-Step :
    (collect_fd : Bool) (g : Reading) (e : ProcEntry)
    → Step ((read_proc_stat g e).1 ≡ traps) e (update_info_data collect_fd g e)
unfolding update_info_data
update_info_data-Step collect_fd g e =
    unless_false-Step e (read_proc_stat g e) _
      (record { kept = read_proc_stat-SameProcess g e; trapped = λ h. h })
      (λ f.
        unless_false-Step f (read_proc_smaps_rollup g.smaps_rollup f) _
          (read_proc_smaps_rollup-Step g.smaps_rollup f) (optional_count-Step collect_fd g))

-- The end of an update that was not pending: a trap, or a result with the flag cleared.
pub data Settled (x : ProcEntry × Outcome Bool) : Type 0 where
  ends_process : x.1 ≡ traps → Settled x
  returns : (b : Bool) → x.1 ≡ ok b → x.0.base.update_pending ≡ false → Settled x

settled-Settled : (x : ProcEntry × Outcome Bool) → Settled (settled x)
settled-Settled (e, ok b) = returns b refl refl
settled-Settled (e, throws x) = returns false refl refl
settled-Settled (e, traps) = ends_process refl

settled-SameProcess :
    (e : ProcEntry) (x : ProcEntry × Outcome Bool) → SameProcess e x.0 → SameProcess e (settled x).0
settled-SameProcess e (f, ok b) s = record {
  same_pid = s.same_pid;
  same_comm = s.same_comm;
  same_ctx_id = s.same_ctx_id;
  same_interval = s.same_interval;
  same_waiting = s.same_waiting;
}
settled-SameProcess e (f, throws x) s = record {
  same_pid = s.same_pid;
  same_comm = s.same_comm;
  same_ctx_id = s.same_ctx_id;
  same_interval = s.same_interval;
  same_waiting = s.same_waiting;
}
settled-SameProcess e (f, traps) s = s

pub settled_traps : (x : ProcEntry × Outcome Bool) → (settled x).1 ≡ traps → x.1 ≡ traps
settled_traps (e, ok b) h = cc
settled_traps (e, throws x) h = cc
settled_traps (e, traps) h = refl

either-SameProcess :
    (b : Bool) (e : ProcEntry) (x y : ProcEntry × Outcome Bool)
    → SameProcess e x.0
    → SameProcess e y.0
    → SameProcess e (if b then x else y).0
either-SameProcess true e x y s t = s
either-SameProcess false e x y s t = t

-- From an entry with its flag set.
unset-SameProcess : (e f : ProcEntry) → SameProcess (pending_set true e) f → SameProcess e f
unset-SameProcess e f s = record {
  same_pid = s.same_pid;
  same_comm = s.same_comm;
  same_ctx_id = s.same_ctx_id;
  same_interval = s.same_interval;
  same_waiting = s.same_waiting;
}

pub update_proc_info-SameProcess :
    (collect_fd : Bool) (g : Reading) (e : ProcEntry)
    → SameProcess e (update_proc_info collect_fd g e).0
unfolding update_proc_info
update_proc_info-SameProcess collect_fd g e =
    either-SameProcess e.base.update_pending e (e, ok true) _ (SameProcess-refl e)
      (settled-SameProcess e (update_info_data collect_fd g (pending_set true e))
        (unset-SameProcess e _ (update_info_data-Step collect_fd g (pending_set true e)).kept))

either-Settled :
    (b : Bool)
    → b ≡ false
    → (x y : ProcEntry × Outcome Bool) → Settled y
    → Settled (if b then x else y)
either-Settled true h x y s = cc
either-Settled false h x y s = s

-- The update of an entry that is not being updated either divides by zero, or returns, whatever was
-- thrown on the way, with the entry free for the next update. In both cases the entry is still the
-- one of its process: with its pid, its name, its context and its interval.
pub update_proc_info-Settled :
    (collect_fd : Bool) (g : Reading) (e : ProcEntry)
    → e.base.update_pending ≡ false
    → Settled (update_proc_info collect_fd g e) × SameProcess e (update_proc_info collect_fd g e).0
unfolding update_proc_info
update_proc_info-Settled collect_fd g e free = (
  either-Settled e.base.update_pending free (e, ok true) _
      (settled-Settled (update_info_data collect_fd g (pending_set true e))),
  update_proc_info-SameProcess collect_fd g e,
)
