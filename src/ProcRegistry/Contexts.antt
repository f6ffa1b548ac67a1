-- ===== src/ProcRegistry/Contexts.antt =====
-- `doCollectAndSendContextInfo` and `doCollectAndSendProcInfo` of source/ProcRegistry.cpp. The
-- totals stand in the fields of a libtkm message, whose widths are a parameter.
use taskmonitor.Common.{
  ℕ, ◌+◌, ◌%◌, ◌^◌, Bool, true, false, List, [], ◌∷◌, map, ◌==◌, if◌then◌else◌,
}
use taskmonitor.Bswinfra.{AsyncQueue, SafeList, Ref}
use taskmonitor.Messages.{Clock, Data, proc_info, context_info}
use taskmonitor.ProcEntry.{ProcInfo, ProcEntry}
use taskmonitor.ProcRegistry.{
  ContextEntry, reset_data, Request, commit_context_list, Registry, write,
}

-- The bits of the four totals.
pub record Widths : Type 0 where
  pub time_bits : ℕ
  pub percent_bits : ℕ
  pub rss_bits : ℕ
  pub pss_bits : ℕ

-- The four assignments for a process of the context.
unfoldable pub add_process : Widths → ProcInfo → ContextEntry → ContextEntry
add_process w i c = record c {
  total_cpu_time = (c.total_cpu_time + i.cpu_time) % 2 ^ w.time_bits;
  total_cpu_percent = (c.total_cpu_percent + i.cpu_percent) % 2 ^ w.percent_bits;
  total_mem_rss = (c.total_mem_rss + i.mem_rss) % 2 ^ w.rss_bits;
  total_mem_pss = (c.total_mem_pss + i.mem_pss) % 2 ^ w.pss_bits;
}

-- The inner loop, with `found`.
unfoldable pub add_processes :
    Widths → (Ref → ProcEntry) → List Ref → ContextEntry → Bool → ContextEntry × Bool
unfolding add_process
add_processes w entries [] c found = (c, found)
add_processes w entries (p ∷ ps) c found =
    if c.ctx_id == (entries p).info.ctx_id
    then add_processes w entries ps (add_process w (entries p).info c) true
    else add_processes w entries ps c found

module _ (L : SafeList) (Q : AsyncQueue Request) (w : Widths) where
  open L use {Elements, visited, remove}
  open Q use {Queue, push}

  -- The body of the outer loop: a context that no process belongs to is staged for removal.
  unfoldable pub tally : Registry Elements Queue → Ref → Registry Elements Queue
  tally s r =
      let (c, found) =
        add_processes w s.entries (visited s.proc_list) (reset_data (s.contexts r)) false in
      record s {
        contexts = write r c s.contexts;
        context_list = if found then s.context_list else remove s.context_list r false;
      }

  unfoldable pub tally_all : List Ref → Registry Elements Queue → Registry Elements Queue
  unfolding tally
  tally_all [] s = s
  tally_all (r ∷ rs) s = tally_all rs (tally s r)

  -- The message carries the contexts that the list still visits. The commit is asked for before.
  unfoldable pub collect_context_info :
      Clock → Registry Elements Queue → Registry Elements Queue × Data (List ContextEntry)
  unfolding tally_all
  collect_context_info now s =
      let t = tally_all (visited s.context_list) s in
      (
        record t { queue = (push t.queue commit_context_list).0 },
        record {
          what = context_info;
          system_time_sec = now.realtime;
          monotonic_time_sec = now.monotonic;
          payload = map t.contexts (visited t.context_list);
        },
      )

  unfoldable pub collect_proc_info : Clock → Registry Elements Queue → Data (List ProcInfo)
  collect_proc_info now s = record {
    what = proc_info;
    system_time_sec = now.realtime;
    monotonic_time_sec = now.monotonic;
    payload = map (λ r. (s.entries r).info) (visited s.proc_list);
  }
