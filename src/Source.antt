-- ===== src/Source.antt =====
-- source/IDataSource.h, and the cycle of requests that each source under source/SysProc*.cpp has:
-- `update` asks for one reading at a time, the queue's handler reads and clears the pending flag,
-- and a collector's request is answered with what was read last.
pub mod Pending
pub mod History
mod Tests
use taskmonitor.Common.{
  ℕ, ◌≡◌, Bool, true, false, List, [], ◌∷◌, ◌++◌, Option, none, some, leb, if◌then◌else◌, Outcome,
  ok, throws, traps, M,
}
use taskmonitor.Bswinfra.{AsyncQueue}
use taskmonitor.Messages.{Clock, Data, Collector, Sent}

pub data UpdateLane : Type 0 where
  fast pace slow any_lane : UpdateLane

pub record DataSource : Type 0 where
  pub update_interval : ℕ
  pub update_pending : Bool
  pub update_lane : UpdateLane

unfoldable pub new_data_source : DataSource
new_data_source = record { update_interval = 1000000; update_pending = false; update_lane = fast }

-- Intervals below a second are refused.
unfoldable pub set_update_interval : ℕ → DataSource → DataSource
set_update_interval interval d =
    if leb 1000000 interval then record d { update_interval = interval } else d

-- `Action`, with the collector of the request.
pub data Request : Type 0 where
  update_stats : Request
  collect_and_send : Collector → Request

-- A source: its own statistics `S`, its queue, and the messages of type `P` that it has sent.
pub record Source (S P Queue : Type 0) : Type 0 where
  pub base : DataSource
  pub open base use *
  pub stats : S
  pub queue : Queue
  pub sent : List (Sent P)

-- Reading takes the files `E`; `do_collect` builds a message from the statistics.
module _ {S P E : Type 0} (Q : AsyncQueue Request) (do_update_stats : E → M S Bool)
    (do_collect : Clock → S → Data P) where
  open Q use {Queue}

  unfoldable pub push_request : Request → Source S P Queue → Source S P Queue × Bool
  push_request r s = let (q, status) = Q.push s.queue r in (record s { queue = q }, status)

  unfoldable pub update : Source S P Queue → Source S P Queue × Bool
  unfolding push_request
  update s = if s.update_pending then (s, true) else requested (push_request update_stats s)
    where
      requested : Source S P Queue × Bool → Source S P Queue × Bool
      requested (t, status) = (
        if status then record t { base = record s.base { update_pending = true } } else t,
        status,
      )

  -- After the reading: the flag is cleared, unless an exception leaves the handler first.
  after_update : Source S P Queue → S × Outcome Bool → Source S P Queue × Outcome Bool
  after_update s (stats, ok status) =
      (record s { stats = stats; base = record s.base { update_pending = false } }, ok status)
  after_update s (stats, throws e) = (record s { stats = stats }, throws e)
  after_update s (stats, traps) = (record s { stats = stats }, traps)

  unfoldable pub request_handler : E → Clock → Request → M (Source S P Queue) Bool
  unfolding after_update
  request_handler files now update_stats s = after_update s (do_update_stats files s.stats)
  request_handler files now (collect_and_send c) s = (
    record s { sent = s.sent ++ (record { collector = c; message = do_collect now s.stats } ∷ []) },
    ok true,
  )

  -- The event loop hands the oldest request to the handler; an idle queue changes nothing.
  unfoldable pub dispatch : E → Clock → M (Source S P Queue) Bool
  dispatch files now s = elim (Q.take s.queue) [
    | none ↦ (s, ok true)
    | some (r, q) ↦ request_handler files now r (record s { queue = q })
  ]
