-- ===== src/Servers/Counter.antt =====
-- The counter of the collectors that want accounting, through any history of connections.
use taskmonitor.Common.{
  ℕ, suc, ◌%◌, ◌^◌, ◌<◌, ◌≡◌, refl, sym, ap, ◌∙◌, Bool, true, false, List, [], ◌∷◌, ◌++◌, any, ◌==◌,
  arith, if◌then◌else◌, inl, inr, Bool-cases, ==_iff, ok, codes, equal,
}
use taskmonitor.Bswinfra.{AsyncQueue, Ref, erase_ref, apply}
use taskmonitor.Bswinfra.Changes.{Part, All, All-Part, All-append, apply-removals-Part}
use taskmonitor.Options.{Config, get_for, uds_monitor_collector_inactivity}
use taskmonitor.ProcEntry.{ProcEntry}
use taskmonitor.ProcEntry.Update.{update_proc_acct}
use taskmonitor.ProcRegistry.Invariant.{Distinct, Distinct-Part, Distinct-append, All-map}
use taskmonitor.Session.{Kind, tcp, uds}
use taskmonitor.StateManager.{Request, is_tcp}
use taskmonitor.Servers.{
  Connections, Accepted, ask_to_monitor, would_block, accept_error, client, with_kind,
  inc_proc_acct_collector_counter, dec_proc_acct_collector_counter, new_collector, tcp_accept,
  uds_accept, finalized, end_connection,
}

-- The number of references that pass a test.
unfoldable pub count : (Ref → Bool) → List Ref → ℕ
count p [] = 0
count p (x ∷ xs) = if p x then suc (count p xs) else count p xs

count-append :
    (p : Ref → Bool) (xs : List Ref) (r : Ref)
    → count p (xs ++ r ∷ []) ≡ (if p r then suc (count p xs) else count p xs)
unfolding count
count-append p [] r = refl
count-append p (x ∷ xs) r = ground (arith, count-append p xs r)

count-cong : (p q : Ref → Bool) (xs : List Ref) → All (λ r. p r ≡ q r) xs → count p xs ≡ count q xs
unfolding count
count-cong p q [] h = refl
count-cong p q (x ∷ xs) h = ground (arith, h.0, count-cong p q xs h.1)

count-erase_absent :
    (p : Ref → Bool) (c : Ref) (xs : List Ref)
    → any (λ r. r == c) xs ≡ false
    → count p (erase_ref c xs) ≡ count p xs
unfolding count erase_ref
count-erase_absent p c [] h = refl
count-erase_absent p c (x ∷ xs) h = ground (arith, count-erase_absent p c xs)

count-erase :
    (p : Ref → Bool) (c : Ref) (xs : List Ref)
    → Distinct (λ r. r) xs
    → any (λ r. r == c) xs ≡ true
    → count p xs ≡ (if p c then suc (count p (erase_ref c xs)) else count p (erase_ref c xs))
unfolding count erase_ref
count-erase p c [] d h = absurd (ground arith)
count-erase p c (x ∷ xs) d h = elim (Bool-cases (x == c)) [
  | inl hit ↦
      let e = (==_iff x c).0 hit in
      let gone : any (λ r. r == c) xs ≡ false = ap (λ k. any (λ r. r == k) xs) (sym e) ∙ d.0 in
      ground (arith, ap p e, count-erase_absent p c xs gone)
  | inr miss ↦ ground (arith, count-erase p c xs d.1)
]

module _ (Q : AsyncQueue Request) (config : Config) where
  open Q use {Queue}

  abbrev pub tcp_live : Connections Queue → ℕ
  tcp_live s = count (λ r. is_tcp (s.kind_of r)) s.live

  -- What can happen to the connections: a server's callback, the end of a live connection, and whatever
  -- the state manager does to its queue.
  pub data Step : Connections Queue → Connections Queue → Type 0 where
    by_tcp : (a : Accepted) {s : Connections Queue} → Step s (tcp_accept Q a s).0
    by_uds : (a : Accepted) {s : Connections Queue} → Step s (uds_accept Q config a s).0
    by_end :
        (c : Ref) {s : Connections Queue}
        → any (λ r. r == c) s.live ≡ true
        → Step s (end_connection Q c s)
    by_manager : (q : Queue) {s : Connections Queue} → Step s (record s { queue = q })

  pub data Reachable : Connections Queue → Type 0 where
    starts : (s : Connections Queue) → s.live ≡ [] → s.counter ≡ 0 → Reachable s
    steps : {s t : Connections Queue} → Reachable s → Step s t → Reachable t

  pub record Counted (s : Connections Queue) : Type 0 where
    pub distinct : Distinct (λ r. r) s.live
    pub known : All (λ r. r < s.fresh) s.live
    pub counted : s.counter ≡ tcp_live s % 2 ^ 16

  fresh-Absent : (n : ℕ) (xs : List Ref) → All (λ r. r < n) xs → any (λ r. r == n) xs ≡ false
  fresh-Absent n [] h = refl
  fresh-Absent n (x ∷ xs) h = ground (arith, h.0, fresh-Absent n xs h.1)

  same_kinds :
      (s : Connections Queue) (k : Kind) (xs : List Ref)
      → All (λ r. r < s.fresh) xs
      → count (λ r. is_tcp (with_kind s.fresh k s.kind_of r)) xs
        ≡ count (λ r. is_tcp (s.kind_of r)) xs
  same_kinds s k xs h = count-cong _ _ xs (All-map (λ r l. ground (arith, l)) xs h)

  new_collector-tcp_live :
      (k : Kind) (s : Connections Queue)
      → All (λ r. r < s.fresh) s.live
      → tcp_live (new_collector Q k s) ≡ (if is_tcp k then suc (tcp_live s) else tcp_live s)
  unfolding new_collector inc_proc_acct_collector_counter
  new_collector-tcp_live tcp s h =
      count-append _ s.live s.fresh ∙ ground (arith, same_kinds s tcp s.live h)
  new_collector-tcp_live uds s h =
      count-append _ s.live s.fresh ∙ ground (arith, same_kinds s uds s.live h)

  new_collector-Counted :
      (k : Kind) (s : Connections Queue) → Counted s → Counted (new_collector Q k s)
  unfolding new_collector inc_proc_acct_collector_counter
  new_collector-Counted tcp s v = record {
    distinct =
        Distinct-append (λ r. r) s.live s.fresh (fresh-Absent s.fresh s.live v.known) v.distinct;
    known =
        All-append (λ r. r < suc s.fresh) s.live (All-map (λ r h. omega arith) s.live v.known)
          (omega arith);
    counted = omega (arith, v.counted, new_collector-tcp_live tcp s v.known);
  }
  new_collector-Counted uds s v = record {
    distinct =
        Distinct-append (λ r. r) s.live s.fresh (fresh-Absent s.fresh s.live v.known) v.distinct;
    known =
        All-append (λ r. r < suc s.fresh) s.live (All-map (λ r h. omega arith) s.live v.known)
          (omega arith);
    counted = omega (arith, v.counted, new_collector-tcp_live uds s v.known);
  }

  erase-Part : (c : Ref) (xs : List Ref) → Part (erase_ref c xs) xs
  unfolding apply
  erase-Part c xs = apply-removals-Part (c ∷ []) xs

  finalized-Counted :
      (k : Kind) (c : Ref) (q : Queue) (s : Connections Queue)
      → s.kind_of c ≡ k
      → any (λ r. r == c) s.live ≡ true
      → Counted s
      → Counted (finalized Q k (record s { live = erase_ref c s.live; queue = q }))
  unfolding dec_proc_acct_collector_counter
  finalized-Counted tcp c q s e h v =
      let erased = count-erase (λ r. is_tcp (s.kind_of r)) c s.live v.distinct h in
      record {
        distinct = Distinct-Part (λ r. r) (erase-Part c s.live) v.distinct;
        known = All-Part (λ r. r < s.fresh) (erase-Part c s.live) v.known;
        counted = ground (arith, v.counted, erased, ap is_tcp e);
      }
  finalized-Counted uds c q s e h v =
      let erased = count-erase (λ r. is_tcp (s.kind_of r)) c s.live v.distinct h in
      record {
        distinct = Distinct-Part (λ r. r) (erase-Part c s.live) v.distinct;
        known = All-Part (λ r. r < s.fresh) (erase-Part c s.live) v.known;
        counted = ground (arith, v.counted, erased, ap is_tcp e);
      }

  -- What only the queue and the closed descriptors change does not matter.
  Counted-same :
      (s : Connections Queue) (q : Queue) (fds : List ℕ)
      → Counted s
      → Counted (record s { queue = q; closed = fds })
  Counted-same s q fds v = record { distinct = v.distinct; known = v.known; counted = v.counted }

  monitored-Counted :
      (b : Bool) (c : Ref) (s : Connections Queue)
      → Counted s
      → Counted (if b then ask_to_monitor Q c s else s)
  monitored-Counted true c s v = Counted-same s _ s.closed v
  monitored-Counted false c s v = v

  Step-Counted : {s t : Connections Queue} → Step s t → Counted s → Counted t
  unfolding tcp_accept uds_accept end_connection
  Step-Counted (by_tcp would_block) v = v
  Step-Counted (by_tcp accept_error) v = v
  Step-Counted (by_tcp (client fd false)) v = Counted-same _ _ _ v
  Step-Counted (by_tcp (client fd true) {s}) v =
      Counted-same (new_collector Q tcp s) _ _ (new_collector-Counted tcp s v)
  Step-Counted (by_uds would_block) v = v
  Step-Counted (by_uds accept_error) v = v
  Step-Counted (by_uds (client fd false)) v = Counted-same _ _ _ v
  Step-Counted (by_uds (client fd true) {s}) v =
      monitored-Counted (equal (get_for uds_monitor_collector_inactivity config) (codes "true"))
        s.fresh (new_collector Q uds s) (new_collector-Counted uds s v)
  Step-Counted (by_end c {s} h) v = finalized-Counted (s.kind_of c) c _ s refl h v
  Step-Counted (by_manager q {s}) v = Counted-same s q s.closed v

  Reachable-Counted : {s : Connections Queue} → Reachable s → Counted s
  unfolding count
  Reachable-Counted (starts s e f) = record {
    distinct = rw e tt;
    known = rw e tt;
    counted = rw (e, f) refl;
  }
  Reachable-Counted (steps r t) = Step-Counted t (Reachable-Counted r)

  -- Through any history of accepted, refused and ended connections over both kinds of socket, with fewer
  -- than 65536 live TCP connections, the counter is their number, and the update of a process asks the
  -- kernel for its accounting exactly while there is one and no earlier request waits.
  pub counter-update_proc_acct :
      {s : Connections Queue} (accepted : Bool) (e : ProcEntry)
      → Reachable s
      → tcp_live s < 2 ^ 16
      → (s.counter ≡ tcp_live s)
        × (update_proc_acct s.counter accepted e ≡ (
            if tcp_live s == 0
            then (e, ok true)
            else if e.update_proc_acct_pending
            then (e, ok true)
            else (record e { update_proc_acct_pending = true }, ok accepted)))
  unfolding update_proc_acct
  counter-update_proc_acct {s} accepted e r h =
      let same : s.counter ≡ tcp_live s = omega (arith, (Reachable-Counted r).counted) in
      (same, rw same refl)
