-- ===== src/Links/Queue.antt =====
-- The loop of `lookup_pending_queue` of assign3/odr_functions.c on the pointers.
use on_demand_routing.Base.{
  ℕ, zero, suc, ◌≤◌, ◌≡◌, refl, sym, subst, ap, ◌∙◌, inl, inr, Option, none, some, List, [], ◌∷◌,
  ◌++◌, map, CStr, str_eq, length, arith, Bool-cases, if◌then◌else◌,
}
use mathlib.Core.List.{append_assoc, map-append}
use on_demand_routing.Frame.{Frame}
use on_demand_routing.Odr.{Pending}
use on_demand_routing.Pending.{take_first}
use on_demand_routing.Links.{Links, take_out}
use on_demand_routing.Links.Chains.{Chain}
use on_demand_routing.Links.Removal.{Represents, take_out-Represents}

module _ (message : ℕ → Pending) (destip : CStr) where
  -- The rounds of the loop from `curr` on: the message that is taken, and the pointers then.
  unfoldable pub search_pending : ℕ → Option ℕ → Links → Option ℕ × Links
  search_pending zero curr l = (none, l)
  search_pending (suc fuel) none l = (none, l)
  search_pending (suc fuel) (some curr) l =
      let later = search_pending fuel (l.next curr) l in
      if str_eq (message curr).destip destip then (some curr, take_out curr l) else later

  abbrev pub frame_at : Option ℕ → Option Frame
  frame_at none = none
  frame_at (some p) = some (message p).odrframe

  abbrev Takes : List ℕ → Option ℕ × Links → Option Frame × List Pending → Type 0
  Takes before found wanted =
      (frame_at found.0 ≡ wanted.0)
      × ((qs : List ℕ) × Represents found.1 qs × (map message qs ≡ map message before ++ wanted.1))

  take_from :
      (fuel : ℕ) (l : Links) (curr : Option ℕ) (before ps : List ℕ)
      → length ps ≤ fuel
      → Chain l.next l.prev curr ps
      → Represents l (before ++ ps)
      → Takes before (search_pending fuel curr l) (take_first destip (map message ps))
  unfolding search_pending take_first
  take_from zero l curr before [] h c r = (refl, (before ++ [], r, map-append message before []))
  take_from (suc fuel) l curr before [] h c r =
      rw c (refl, (before ++ [], r, map-append message before []))
  take_from zero l curr before (p ∷ ps) h c r = absurd (omega (arith, h))
  take_from (suc fuel) l curr before (p ∷ ps) h (e, z, c) r =
      let later = search_pending fuel (l.next p) l in
      let wanted = take_first destip (map message ps) in
      let ih =
        take_from fuel l (l.next p) (before ++ (p ∷ [])) ps (omega (arith, h)) c
          (subst (Represents l) (sym (append_assoc before (p ∷ []) ps)) r) in
      rw e (elim (Bool-cases (str_eq (message p).destip destip)) [
        | inl same ↦ rw same (
          refl,
          (before ++ ps, take_out-Represents l p before ps r, map-append message before ps),
        )
        | inr other ↦ rw other (
          ih.0,
          (
            ih.1.0,
            ih.1.1,
            ih.1.2
                ∙ ap (λ z. z ++ wanted.1) (map-append message before (p ∷ []))
                ∙ append_assoc (map message before) (message p ∷ []) wanted.1,
          ),
        )
      ])

  -- If the pointers make a list, each node once, then the loop of `lookup_pending_queue` on the
  -- pointers, with at least as many rounds as nodes, takes the frame that `take_first` takes from
  -- the queue of messages at these nodes, and the pointers make a list whose messages are the
  -- queue that `take_first` leaves.
  pub search_pending-take_first :
      (l : Links) (ps : List ℕ) (fuel : ℕ)
      → Represents l ps
      → length ps ≤ fuel
      → let found = search_pending fuel l.head l in
        let wanted = take_first destip (map message ps) in
        (frame_at found.0 ≡ wanted.0)
        × ((qs : List ℕ) × Represents found.1 qs × (map message qs ≡ wanted.1))
  search_pending-take_first l ps fuel r h = take_from fuel l l.head [] ps h r.0 r
