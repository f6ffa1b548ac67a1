-- ===== src/ProcRegistry/Handling.antt =====
-- The registry's requests keep its invariant.
use taskmonitor.Common.{◌≡◌, refl, Bool, List, [], ◌∷◌, Option, none, some}
use taskmonitor.Bswinfra.{AsyncQueue, SafeList, Ref}
use taskmonitor.Messages.{Clock}
use taskmonitor.ProcRegistry.{
  Registry, Request, commit_proc_list, commit_context_list, collect_and_send_proc_acct,
  collect_and_send_proc_info, collect_and_send_context_info, Blacklist,
}
use taskmonitor.ProcRegistry.Contexts.{Widths, tally, tally_all, collect_context_info}
use taskmonitor.ProcRegistry.Invariant.{Inv, commit_procs-Inv}
use taskmonitor.ProcRegistry.Requests.{request_handler, commit_contexts, dispatch, Message}

module _ (L : SafeList) (Q : AsyncQueue Request) (blacklist : Blacklist) where
  open L use {Elements, visited}
  open Q use {Queue}

  -- The parts that the invariant speaks of are the same.
  pub record Alike (s t : Registry Elements Queue) : Type 0 where
    pub same_entries : t.entries ≡ s.entries
    pub same_list : t.proc_list ≡ s.proc_list
    pub same_fresh : t.fresh ≡ s.fresh

  Alike-Inv :
      (s t : Registry Elements Queue) → Alike s t → Inv L Q blacklist s → Inv L Q blacklist t
  Alike-Inv s t a v = record {
    distinct = rw (a.same_entries, a.same_list) v.distinct;
    clean = rw (a.same_entries, a.same_list) v.clean;
    known = rw (a.same_fresh, a.same_list) v.known;
    waiting = rw a.same_list v.waiting;
  }

  pub tally_all-Alike :
      (w : Widths) (rs : List Ref) (s : Registry Elements Queue) → Alike s (tally_all L Q w rs s)
  unfolding tally_all tally
  tally_all-Alike w [] s = record { same_entries = refl; same_list = refl; same_fresh = refl }
  tally_all-Alike w (r ∷ rs) s =
      let a = tally_all-Alike w rs (tally L Q w s r) in
      record { same_entries = a.same_entries; same_list = a.same_list; same_fresh = a.same_fresh }

  request_handler-Inv :
      (w : Widths) (acct : Bool) (now : Clock) (r : Request) (s : Registry Elements Queue)
      → Inv L Q blacklist s
      → Inv L Q blacklist (request_handler L Q w acct now r s).0
  unfolding request_handler commit_contexts collect_context_info
  request_handler-Inv w acct now commit_proc_list s v = commit_procs-Inv L Q blacklist s v
  request_handler-Inv w acct now commit_context_list s v =
      Alike-Inv s _ (record { same_entries = refl; same_list = refl; same_fresh = refl }) v
  request_handler-Inv w acct now (collect_and_send_proc_acct c) s v = v
  request_handler-Inv w acct now (collect_and_send_proc_info c) s v = v
  request_handler-Inv w acct now (collect_and_send_context_info c) s v =
      let a = tally_all-Alike w (visited s.context_list) s in
      Alike-Inv s _
        (record {
          same_entries = a.same_entries;
          same_list = a.same_list;
          same_fresh = a.same_fresh;
        })
        v

  dispatched-Inv :
      (w : Widths) (acct : Bool) (now : Clock) (o : Option (Request × Queue))
      (s : Registry Elements Queue)
      → Inv L Q blacklist s
      → Inv L Q blacklist
          (elim o as (λ _. Registry Elements Queue × List Message) [
            | none ↦ (s, [])
            | some (r, q) ↦ request_handler L Q w acct now r (record s { queue = q })
          ]).0
  dispatched-Inv w acct now none s v = v
  dispatched-Inv w acct now (some (r, q)) s v =
      request_handler-Inv w acct now r (record s { queue = q })
        (Alike-Inv s _ (record { same_entries = refl; same_list = refl; same_fresh = refl }) v)

  pub dispatch-Inv :
      (w : Widths) (acct : Bool) (now : Clock) (s : Registry Elements Queue)
      → Inv L Q blacklist s
      → Inv L Q blacklist (dispatch L Q w acct now s).0
  unfolding dispatch
  dispatch-Inv w acct now s v = dispatched-Inv w acct now (Q.take s.queue) s v
