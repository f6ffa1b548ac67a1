-- ===== src/ProcRegistry/ContextMessage.antt =====
-- The message about the contexts.
use taskmonitor.Common.{
  ◌≡◌, refl, sym, ap, ◌∙◌, Bool, true, false, ◌||◌, List, [], ◌∷◌, map, any, arith, ◌==◌,
  if◌then◌else◌, inl, inr, Bool-cases, ==_iff,
}
use taskmonitor.Bswinfra.{AsyncQueue, SafeList, Ref}
use taskmonitor.Bswinfra.Changes.{All}
use taskmonitor.Messages.{Clock}
use taskmonitor.ProcEntry.{ProcEntry}
use taskmonitor.ProcRegistry.{ContextEntry, reset_data, Request, Registry, write}
use taskmonitor.ProcRegistry.Contexts.{
  Widths, add_process, add_processes, tally, tally_all, collect_context_info,
}
use taskmonitor.ProcRegistry.Invariant.{All-map}
use taskmonitor.ProcRegistry.Totals.{pow_pos, Adds, add_processes-Adds}

members : (xs : List Ref) → All (λ x. any (λ r. x == r) xs ≡ true) xs
members [] = tt
members (x ∷ xs) = (ground arith, All-map (λ y h. ground arith) xs (members xs))

pub map-cong :
    {A : Type 0} (f g : Ref → A) (xs : List Ref) → All (λ x. f x ≡ g x) xs → map f xs ≡ map g xs
map-cong f g [] h = refl
map-cong f g (x ∷ xs) h = rw (h.0, map-cong f g xs h.1)

add_processes-reset :
    (w : Widths) (entries : Ref → ProcEntry) (ps : List Ref) (c : ContextEntry) (found : Bool)
    → reset_data (add_processes w entries ps c found).0 ≡ reset_data c
unfolding add_processes add_process reset_data
add_processes-reset w entries [] c found = refl
add_processes-reset w entries (p ∷ ps) c found = ground (
  arith,
  add_processes-reset w entries ps c found,
  add_processes-reset w entries ps (add_process w (entries p).info c) true,
)

-- What the loop over the contexts does to each of them.
module _ (L : SafeList) (Q : AsyncQueue Request) (w : Widths) where
  open L use {Elements, visited, remove}
  open Q use {Queue, push}

  -- A context after its visit.
  abbrev pub tallied : Registry Elements Queue → ContextEntry → ContextEntry
  tallied s c = (add_processes w s.entries (visited s.proc_list) (reset_data c) false).0

  tallied-Adds :
      (s : Registry Elements Queue) (c : ContextEntry)
      → Adds w s.entries (visited s.proc_list) (reset_data c) (tallied s c)
  unfolding reset_data
  tallied-Adds s c =
      add_processes-Adds w s.entries (visited s.proc_list) (reset_data c) false (record {
        time_fits = pow_pos _;
        percent_fits = pow_pos _;
        rss_fits = pow_pos _;
        pss_fits = pow_pos _;
      })

  reset_twice : (c : ContextEntry) → reset_data (reset_data c) ≡ reset_data c
  unfolding reset_data
  reset_twice c = refl

  tallied-reset :
      (s : Registry Elements Queue) (c : ContextEntry) → tallied s (tallied s c) ≡ tallied s c
  tallied-reset s c =
      ap (λ d. (add_processes w s.entries (visited s.proc_list) d false).0)
        (add_processes-reset w s.entries (visited s.proc_list) (reset_data c) false ∙ reset_twice c)

  visited-tally_all :
      (rs : List Ref) (s : Registry Elements Queue)
      → visited (tally_all L Q w rs s).context_list ≡ visited s.context_list
  unfolding tally_all tally
  visited-tally_all [] s = refl
  visited-tally_all (r ∷ rs) s =
      visited-tally_all rs (tally L Q w s r) ∙ ground (arith, L.visited-remove s.context_list r)

  contexts-tally :
      (s : Registry Elements Queue) (r x : Ref)
      → (tally L Q w s r).contexts x ≡ (if x == r then tallied s (s.contexts r) else s.contexts x)
  unfolding tally write
  contexts-tally s r x = refl

  tally_once :
      (s : Registry Elements Queue) (r x : Ref) (later : Bool)
      → (if later then tallied s ((tally L Q w s r).contexts x) else (tally L Q w s r).contexts x)
        ≡ (if (x == r) || later then tallied s (s.contexts x) else s.contexts x)
  tally_once s r x later = elim (Bool-cases (x == r)) [
    | inl hit ↦ ground (
      arith,
      contexts-tally s r x,
      tallied-reset s (s.contexts r),
      ap s.contexts (sym ((==_iff x r).0 hit)),
    )
    | inr miss ↦ ground (arith, contexts-tally s r x)
  ]

  contexts-tally_all :
      (rs : List Ref) (s : Registry Elements Queue) (x : Ref)
      → (tally_all L Q w rs s).contexts x
        ≡ (if any (λ r. x == r) rs then tallied s (s.contexts x) else s.contexts x)
  unfolding tally_all tally
  contexts-tally_all [] s x = refl
  contexts-tally_all (r ∷ rs) s x =
      contexts-tally_all rs (tally L Q w s r) x ∙ tally_once s r x (any (λ t. x == t) rs)

  -- A collector's message lists every listed context, with its id and name, and with the four
  -- totals equal to the sums over the processes of this context alone, each reduced to its field's
  -- width; what the totals were before does not matter.
  pub collect_context_info-Adds :
      (now : Clock) (s : Registry Elements Queue)
      → ((collect_context_info L Q w now s).1.payload
          ≡ map (λ r. tallied s (s.contexts r)) (visited s.context_list))
        × ((r : Ref)
            → Adds w s.entries
                (visited s.proc_list)
                (reset_data (s.contexts r))
                (tallied s (s.contexts r)))
  unfolding collect_context_info
  collect_context_info-Adds now s = (
    rw (visited-tally_all (visited s.context_list) s) (
        map-cong _ _ (visited s.context_list) (
          All-map (λ r h. contexts-tally_all (visited s.context_list) s r ∙ rw h)
            (visited s.context_list) (members (visited s.context_list)))),
    λ r. tallied-Adds s (s.contexts r),
  )
