-- ===== src/Links/Search.antt =====
-- The loop of `get_r_entry` of assign3/odr_functions.c on the pointers.
use on_demand_routing.Base.{
  ℕ, zero, suc, ◌≤◌, ◌≡◌, refl, sym, subst, inl, inr, Option, none, some, List, [], ◌∷◌, ◌++◌, CStr,
  str_eq, length, arith, Bool-cases, if◌then◌else◌,
}
use mathlib.Core.List.{append_assoc}
use on_demand_routing.Odr.{Route}
use on_demand_routing.Routes.{is_expired, scan}
use on_demand_routing.Links.{Links, unlink}
use on_demand_routing.Links.Chains.{Chain}
use on_demand_routing.Links.Removal.{Represents, StartsThere, unlink-Represents}

module _ (entry : ℕ → Route) (now stale : ℕ) (route_disc_flag : ℕ) (dest_ip : CStr) where
  -- The rounds of the loop from `curr` on: the entry that is found, and the pointers then.
  unfoldable pub search_links : ℕ → Option ℕ → Links → Option ℕ × Links
  search_links zero curr l = (none, l)
  search_links (suc fuel) none l = (none, l)
  search_links (suc fuel) (some curr) l =
      let later = search_links fuel (l.next curr) l in
      if str_eq (entry curr).destip dest_ip
      then (if is_expired entry now stale route_disc_flag dest_ip curr
          then (none, unlink curr l)
          else (some curr, l))
      else later

  abbrev Agrees : Links → List ℕ → Option ℕ × Links → Option ℕ × List ℕ → Type 0
  Agrees l before found wanted =
      (found.0 ≡ wanted.0)
      × Represents found.1 (before ++ wanted.1)
      × StartsThere found.1 (before ++ wanted.1)

  search_from :
      (fuel : ℕ) (l : Links) (curr : Option ℕ) (before ps : List ℕ)
      → length ps ≤ fuel
      → Chain l.next l.prev curr ps
      → Represents l (before ++ ps)
      → StartsThere l (before ++ ps)
      → Agrees l before (search_links fuel curr l) (scan entry now stale route_disc_flag dest_ip ps)
  unfolding search_links scan
  search_from zero l curr before [] h c r b = (refl, r, b)
  search_from (suc fuel) l curr before [] h c r b = rw c (refl, r, b)
  search_from zero l curr before (p ∷ ps) h c r b = absurd (omega (arith, h))
  search_from (suc fuel) l curr before (p ∷ ps) h (e, z, c) r b =
      let assoc = λ (qs : List ℕ). append_assoc before (p ∷ []) qs in
      let later = search_links fuel (l.next p) l in
      let wanted = scan entry now stale route_disc_flag dest_ip ps in
      let ih =
        search_from fuel l (l.next p) (before ++ (p ∷ [])) ps (omega (arith, h)) c
          (subst (Represents l) (sym (assoc ps)) r) (subst (StartsThere l) (sym (assoc ps)) b) in
      rw e (elim (Bool-cases (str_eq (entry p).destip dest_ip)) [
        | inl same ↦ elim (Bool-cases (is_expired entry now stale route_disc_flag dest_ip p)) [
          | inl old ↦
              rw (same, old) (let u = unlink-Represents l p before ps r b in (refl, u.0, u.1))
          | inr good ↦ rw (same, good) (refl, r, b)
        ]
        | inr other ↦ rw other (
          ih.0,
          subst (Represents later.1) (assoc wanted.1) ih.1,
          subst (StartsThere later.1) (assoc wanted.1) ih.2,
        )
      ])

  -- If the pointers make a list, each node once, and its head has no predecessor, then the loop of
  -- `get_r_entry` on the pointers, with at least as many rounds as nodes, finds what `scan` finds
  -- on the list, and the pointers make the list that `scan` leaves, whose head has no predecessor.
  pub search_links-scan :
      (l : Links) (ps : List ℕ) (fuel : ℕ)
      → Represents l ps
      → StartsThere l ps
      → length ps ≤ fuel
      → let found = search_links fuel l.head l in
        let wanted = scan entry now stale route_disc_flag dest_ip ps in
        (found.0 ≡ wanted.0) × Represents found.1 wanted.1 × StartsThere found.1 wanted.1
  search_links-scan l ps fuel r b h = search_from fuel l l.head [] ps h r.0 r b
