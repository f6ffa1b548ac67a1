-- ===== src/ProcAcct/Keeping.antt =====
-- The kernel's messages keep the registry's invariant.
use taskmonitor.Common.{refl, ◌^◌, List, [], ◌∷◌, Option, none, some, ltb, if◌then◌else◌}
use taskmonitor.Bswinfra.{AsyncQueue, SafeList, Ref}
use taskmonitor.ProcEntry.{ProcEntry}
use taskmonitor.ProcRegistry.{Registry, Request, Blacklist, get_proc_entry}
use taskmonitor.ProcRegistry.Invariant.{Inv}
use taskmonitor.ProcRegistry.Walk.{Kin, written-Inv}
use taskmonitor.ProcAcct.{
  TaskStats, Reply, unparsed, parsed, NlResult, accounted, write_accounted, process_delay_acct,
  callback_statistics_message, handed, receive,
}

accounted-Kin : (t : TaskStats) (e : ProcEntry) → Kin e (accounted t e)
accounted-Kin t e = record { kin_pid = refl; kin_comm = refl }

module _ (L : SafeList) (Q : AsyncQueue Request) (blacklist : Blacklist) where
  open L use {Elements}
  open Q use {Queue}

  write_accounted-Inv :
      (t : TaskStats) (o : Option Ref) (s : Registry Elements Queue)
      → Inv L Q blacklist s
      → Inv L Q blacklist (write_accounted L Q t o s)
  write_accounted-Inv t none s v = v
  write_accounted-Inv t (some r) s v =
      written-Inv L Q blacklist r (accounted t (s.entries r)) s (accounted-Kin t (s.entries r)) v

  process_delay_acct-Inv :
      (t : TaskStats) (s : Registry Elements Queue)
      → Inv L Q blacklist s
      → Inv L Q blacklist (process_delay_acct L Q t s)
  unfolding process_delay_acct
  process_delay_acct-Inv t s v =
      write_accounted-Inv t (if ltb t.ac_pid (2 ^ 31) then get_proc_entry L Q t.ac_pid s else none)
        s v

  callback-Inv :
      (m : Reply) (s : Registry Elements Queue)
      → Inv L Q blacklist s
      → Inv L Q blacklist (callback_statistics_message L Q m s).0
  unfolding callback_statistics_message
  callback-Inv unparsed s v = v
  callback-Inv (parsed (some t) tgid) s v = process_delay_acct-Inv t s v
  callback-Inv (parsed none (some t)) s v = process_delay_acct-Inv t s v
  callback-Inv (parsed none none) s v = v

  pub receive-Inv :
      (ms : List Reply) (result : NlResult) (s : Registry Elements Queue)
      → Inv L Q blacklist s
      → Inv L Q blacklist (receive L Q ms result s).0
  unfolding receive handed
  receive-Inv [] result s v = v
  receive-Inv (m ∷ ms) result s v =
      receive-Inv ms result (callback_statistics_message L Q m s).0 (callback-Inv m s v)
