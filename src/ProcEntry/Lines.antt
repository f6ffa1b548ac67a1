-- ===== src/ProcEntry/Lines.antt =====
-- What the lines of `stat` and `smaps_rollup` leave of an entry.
use taskmonitor.Common.{
  ℕ, ◌≡◌, ◌≢◌, ◌-◌, refl, Bool, false, List, [], ◌∷◌, Option, none, some, ltb, ◌==◌, if◌then◌else◌,
  length, inl, inr, Bool-cases, arith, Bytes, words, stoul, stoul-traps, Outcome, ok, throws, traps,
  M,
}
use taskmonitor.ProcEntry.{ProcInfo, ProcEntry, word_at}
use taskmonitor.ProcEntry.Update.{
  LineMemData, ign, rss, pss, line_mem_data, set_mem, after_mem, read_mem_line, Reading, measure,
  measured, new_cpu_time, read_stat_line, read_proc_stat, read_mem_lines,
}

-- What stays through an update: which process the entry is of, and the settings of its source.
pub record SameProcess (e f : ProcEntry) : Type 0 where
  pub same_pid : f.pid ≡ e.pid
  pub same_comm : f.info.comm ≡ e.info.comm
  pub same_ctx_id : f.info.ctx_id ≡ e.info.ctx_id
  pub same_interval : f.base.update_interval ≡ e.base.update_interval
  pub same_waiting : f.update_proc_acct_pending ≡ e.update_proc_acct_pending

measure-SameProcess : (now time : ℕ) (e : ProcEntry) → SameProcess e (measure now time e).0
unfolding measure
measure-SameProcess now time e = ground arith

-- From one state to the other through a step that may fail.
pub SameProcess-trans : {e f g : ProcEntry} → SameProcess e f → SameProcess f g → SameProcess e g
SameProcess-trans p q = ground arith

pub measured-SameProcess :
    (now : ℕ) (o : Outcome ℕ) (e : ProcEntry) → SameProcess e (measured now o e).0
measured-SameProcess now (ok time) e = measure-SameProcess now time e
measured-SameProcess now (throws x) e = ground arith
measured-SameProcess now traps e = ground arith

read_stat_line-SameProcess :
    (now : ℕ) (file : Option Bytes) (e : ProcEntry) → SameProcess e (read_stat_line now file e).0
read_stat_line-SameProcess now none e = ground arith
read_stat_line-SameProcess now (some line) e =
    ground (arith, measured-SameProcess now (new_cpu_time (words line)) e)

pub read_proc_stat-SameProcess :
    (g : Reading) (e : ProcEntry) → SameProcess e (read_proc_stat g e).0
unfolding read_proc_stat
read_proc_stat-SameProcess g e = read_stat_line-SameProcess g.steady_clock g.stat_line e

-- The lines of memory write two fields of the message only, and divide nothing.
pub record Mild (i : ProcInfo) (x : ProcInfo × Outcome Bool) : Type 0 where
  pub mild_comm : x.0.comm ≡ i.comm
  pub mild_ctx_id : x.0.ctx_id ≡ i.ctx_id
  pub mild_end : x.1 ≢ traps

set_mem-Mild :
    (d : LineMemData) (v : ℕ) (i : ProcInfo) {x : ProcInfo × Outcome Bool}
    → Mild (set_mem d v i) x
    → Mild i x
set_mem-Mild ign v i m = m
set_mem-Mild rss v i m = record {
  mild_comm = m.mild_comm;
  mild_ctx_id = m.mild_ctx_id;
  mild_end = m.mild_end;
}
set_mem-Mild pss v i m = record {
  mild_comm = m.mild_comm;
  mild_ctx_id = m.mild_ctx_id;
  mild_end = m.mild_end;
}

after_mem-Mild :
    (d : LineMemData) (complete : ℕ) (o : Outcome ℕ) (rest : M ProcInfo Bool) (i : ProcInfo)
    → o ≢ traps
    → ((j : ProcInfo) → Mild j (rest j))
    → Mild i (after_mem d complete o rest i)
after_mem-Mild d complete (ok v) rest i n h = elim (Bool-cases (complete == 1)) [
  | inl last ↦
      rw last
        (set_mem-Mild d v i (record { mild_comm = refl; mild_ctx_id = refl; mild_end = λ e. cc }))
  | inr more ↦ rw more (set_mem-Mild d v i (h (set_mem d v i)))
]
after_mem-Mild d complete (throws x) rest i n h = record {
  mild_comm = refl;
  mild_ctx_id = refl;
  mild_end = λ e. cc;
}
after_mem-Mild d complete traps rest i n h = absurd (n refl)

wanted-Mild :
    (d : LineMemData) (ws : List Bytes) (complete : ℕ) (rest : M ProcInfo Bool) (i : ProcInfo)
    → ((j : ProcInfo) → Mild j (rest j))
    → Mild i (
        if ltb (length ws) 3
        then (i, ok false)
        else after_mem d complete (stoul (word_at ws 1)) rest i)
wanted-Mild d ws complete rest i h = elim (Bool-cases (ltb (length ws) 3)) [
  | inl short ↦ rw short (record { mild_comm = refl; mild_ctx_id = refl; mild_end = λ e. cc })
  | inr enough ↦
      rw enough
        (after_mem-Mild d complete (stoul (word_at ws 1)) rest i (stoul-traps (word_at ws 1)) h)
]

read_mem_line-Mild :
    (d : LineMemData) (ws : List Bytes) (complete : ℕ) (ignored rest : M ProcInfo Bool)
    (i : ProcInfo)
    → ((j : ProcInfo) → Mild j (ignored j))
    → ((j : ProcInfo) → Mild j (rest j))
    → Mild i (read_mem_line d ws complete ignored rest i)
read_mem_line-Mild ign ws complete ignored rest i g h = g i
read_mem_line-Mild rss ws complete ignored rest i g h = wanted-Mild rss ws complete rest i h
read_mem_line-Mild pss ws complete ignored rest i g h = wanted-Mild pss ws complete rest i h

pub read_mem_lines-Mild :
    (complete : ℕ) (lines : List Bytes) (i : ProcInfo) → Mild i (read_mem_lines complete lines i)
unfolding read_mem_lines
read_mem_lines-Mild complete [] i = record {
  mild_comm = refl;
  mild_ctx_id = refl;
  mild_end = λ e. cc;
}
read_mem_lines-Mild complete (line ∷ lines) i =
    read_mem_line-Mild (line_mem_data line) (words line) complete _ _ i
      (read_mem_lines-Mild complete lines) (read_mem_lines-Mild (complete - 1) lines)

pub SameProcess-refl : (e : ProcEntry) → SameProcess e e
SameProcess-refl e = record {
  same_pid = refl;
  same_comm = refl;
  same_ctx_id = refl;
  same_interval = refl;
  same_waiting = refl;
}
