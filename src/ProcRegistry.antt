-- ===== src/ProcRegistry.antt =====
-- source/ProcRegistry.cpp: the processes and their contexts. Entries are objects behind
-- `shared_ptr`s: the lists hold references, and the objects stand in a store. A pid is a
-- non-negative number.
pub mod Invariant
pub mod Additions
pub mod Upkeep
pub mod Lookup
pub mod Removal
pub mod Updates
pub mod Walk
mod WalkTests
pub mod Waiting
pub mod History
pub mod Unanswered
pub mod Contexts
pub mod Requests
pub mod Handling
pub mod Listing
pub mod Totals
pub mod ContextMessage
mod Tests
use taskmonitor.Common.{
  ℕ, ◌+◌, suc, Bool, true, false, not, List, [], ◌∷◌, ◌++◌, Option, none, some, any, ◌==◌,
  if◌then◌else◌, Bytes, equal, contains, Outcome, ok, throws, traps,
}
use taskmonitor.Bswinfra.{AsyncQueue, SafeList, Ref}
use taskmonitor.Messages.{Collector}
use taskmonitor.ProcEntry.{ProcInfo, ProcEntry, ProcFs, get_proc_name_for_pid, new_proc_entry}
use taskmonitor.Source.{DataSource, set_update_interval}

-- `ContextInfoEntry`, in a `ContextEntry` of source/ContextEntry.h.
pub record ContextEntry : Type 0 where
  pub ctx_id : ℕ
  pub ctx_name : Bytes
  pub total_cpu_time : ℕ
  pub total_cpu_percent : ℕ
  pub total_mem_rss : ℕ
  pub total_mem_pss : ℕ

unfoldable pub new_context_entry : ℕ → Bytes → ContextEntry
new_context_entry id name = record {
  ctx_id = id;
  ctx_name = name;
  total_cpu_time = 0;
  total_cpu_percent = 0;
  total_mem_rss = 0;
  total_mem_pss = 0;
}

unfoldable pub reset_data : ContextEntry → ContextEntry
reset_data c = record c {
  total_cpu_time = 0;
  total_cpu_percent = 0;
  total_mem_rss = 0;
  total_mem_pss = 0;
}

pub data Request : Type 0 where
  commit_proc_list commit_context_list : Request
  collect_and_send_proc_acct collect_and_send_proc_info collect_and_send_context_info :
      Collector → Request

pub record Registry (Elements Queue : Type 0) : Type 0 where
  pub base : DataSource
  pub proc_list : Elements
  pub context_list : Elements
  pub queue : Queue
  pub entries : Ref → ProcEntry
  pub contexts : Ref → ContextEntry
  pub fresh : Ref

-- A write through a pointer.
unfoldable pub write : {A : Type 0} → Ref → A → (Ref → A) → Ref → A
write r a f x = if x == r then a else f x

-- The keys of the section "blacklist", or no configuration file.
abbrev pub Blacklist : Type 0
Blacklist = Option (List Bytes)

unfoldable pub is_blacklisted : Blacklist → Bytes → Bool
is_blacklisted none name = false
is_blacklisted (some keys) name = any (λ key. contains key name) keys

-- `if (test(entry)) ret = entry;` for each entry: the last one that passes.
unfoldable pub last_with : (Ref → Bool) → Option Ref → List Ref → Option Ref
last_with test ret [] = ret
last_with test ret (r ∷ rs) = last_with test (if test r then some r else ret) rs

module _ (L : SafeList) (Q : AsyncQueue Request) where
  open L use {Elements, visited, append, remove, commit}
  open Q use {Queue, push}

  abbrev pub has_pid : Registry Elements Queue → ℕ → Ref → Bool
  has_pid s pid r = (s.entries r).pid == pid

  unfoldable pub get_proc_entry : ℕ → Registry Elements Queue → Option Ref
  get_proc_entry pid s = last_with (has_pid s pid) none (visited s.proc_list)

  pub get_proc_entry_named : Bytes → Registry Elements Queue → Option Ref
  get_proc_entry_named name s =
      last_with (λ r. equal (s.entries r).info.comm name) none (visited s.proc_list)

  -- The second half of `createProcessEntry`: the context of a new entry is listed once.
  pub add_context : ProcInfo → Registry Elements Queue → Registry Elements Queue
  add_context i s =
      if any (λ r. i.ctx_id == (s.contexts r).ctx_id) (visited s.context_list)
      then s
      else record s {
        contexts = write s.fresh (new_context_entry i.ctx_id i.ctx_name) s.contexts;
        context_list = append s.context_list s.fresh true;
        fresh = suc s.fresh;
      }

  -- The new entry, with the registry's interval, is committed at once.
  pub add_entry : ProcEntry → Registry Elements Queue → Registry Elements Queue
  add_entry e s = record s {
    entries =
        write s.fresh (record e { base = set_update_interval s.base.update_interval e.base })
          s.entries;
    proc_list = append s.proc_list s.fresh true;
    fresh = suc s.fresh;
  }

  pub create_process_entry : ProcFs → ℕ → Bytes → Registry Elements Queue → Registry Elements Queue
  unfolding add_context add_entry
  create_process_entry fs pid name s = elim (new_proc_entry fs pid name) [
    | ok e ↦ add_context e.info (add_entry e s)
    | throws x ↦ s
    | traps ↦ s
  ]

  unfoldable pub add_proc_entry :
      ProcFs → Blacklist → ℕ → Registry Elements Queue → Registry Elements Queue
  add_proc_entry fs blacklist pid s =
      let create = elim (get_proc_name_for_pid fs pid) as (λ _. Registry Elements Queue) [
        | throws x ↦ s
        | traps ↦ s
        | ok name ↦ if is_blacklisted blacklist name then s else create_process_entry fs pid name s
      ] in
      if any (has_pid s pid) (visited s.proc_list) then s else create

  -- The body of the loop of `updProcEntry`.
  pub upd_entry : ProcFs → Blacklist → ℕ → Registry Elements Queue → Ref → Registry Elements Queue
  upd_entry fs blacklist pid s r =
      let renamed = elim (get_proc_name_for_pid fs pid) as (λ _. Registry Elements Queue) [
        | throws x ↦ s
        | traps ↦ s
        | ok name ↦
            let e = s.entries r in
            if equal e.info.comm name
            then s
            else if is_blacklisted blacklist name
            then record s { proc_list = remove s.proc_list r false }
            else record s {
              entries = write r (record e { info = record e.info { comm = name } }) s.entries;
            }
      ] in
      if has_pid s pid r then renamed else s

  pub upd_entries :
      ProcFs → Blacklist → ℕ → List Ref → Registry Elements Queue → Registry Elements Queue
  upd_entries fs blacklist pid [] s = s
  upd_entries fs blacklist pid (r ∷ rs) s =
      upd_entries fs blacklist pid rs (upd_entry fs blacklist pid s r)

  pub commit_procs : Registry Elements Queue → Registry Elements Queue
  commit_procs s = record s { proc_list = commit s.proc_list }

  pub upd_proc_entry : ProcFs → Blacklist → ℕ → Registry Elements Queue → Registry Elements Queue
  upd_proc_entry fs blacklist pid s =
      commit_procs (upd_entries fs blacklist pid (visited s.proc_list) s)

  -- The loop of `remProcEntry`: what passes the test is staged for removal.
  pub stage_removals : (Ref → Bool) → List Ref → Elements → Elements
  stage_removals test [] l = l
  stage_removals test (r ∷ rs) l = stage_removals test rs (if test r then remove l r false else l)

  -- A synchronous commit, or a request for one.
  pub finish_removal : Bool → Registry Elements Queue → Registry Elements Queue
  unfolding commit_procs
  finish_removal sync s =
      if sync then commit_procs s else record s { queue = (push s.queue commit_proc_list).0 }

  pub rem_proc_entry : ℕ → Bool → Registry Elements Queue → Registry Elements Queue
  unfolding finish_removal
  rem_proc_entry pid sync s =
      finish_removal sync
        (record s { proc_list = stage_removals (has_pid s pid) (visited s.proc_list) s.proc_list })

  pub rem_proc_entry_named : Bytes → Bool → Registry Elements Queue → Registry Elements Queue
  unfolding finish_removal
  rem_proc_entry_named name sync s = finish_removal sync (record s {
    proc_list =
        stage_removals (λ r. equal (s.entries r).info.comm name) (visited s.proc_list) s.proc_list;
  })
