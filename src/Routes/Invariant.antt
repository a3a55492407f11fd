-- ===== src/Routes/Invariant.antt =====
-- The functions on the routing table keep one entry for each destination.
use on_demand_routing.Base.{
  ℕ, ◌≡◌, refl, ap, sym, subst, inl, inr, true, false, ◌∙◌, Option, none, some, List, [], ◌∷◌, CStr,
  Bool-cases, fits,
}
use on_demand_routing.Frame.{Frame, inet_addrstrlen}
use on_demand_routing.Odr.{Odr, World, Mac, Route, Table}
use on_demand_routing.Odr.Outcome.{monad}
use on_demand_routing.Odr.Ensures
use on_demand_routing.Odr.Ensures.{Ensures, returns, fails, crashes}
use on_demand_routing.System.{gettimeofday}
use on_demand_routing.System.Unmoved.{get_name_ip-same}
use on_demand_routing.Routes.{
  is_nil, get_r_entry, update_r_entry, insert_r_entry, check_r_entry, learned, store, link_first,
  is_better,
}
use on_demand_routing.Routes.Listed.{lists, IsTable, IsLookup, Knows}
use on_demand_routing.Routes.Scan
use on_demand_routing.Routes.Scan.{scan_lem, scan-IsDistinct}
use on_demand_routing.Routes.Writes.{store-IsTable, lists-store, insert-Knows}

pub not-lists-nil :
    (entry : ℕ → Route) (ip : CStr) (ps : List ℕ) → is_nil ps ≡ true → lists entry ip ps ≡ false
unfolding lists
not-lists-nil entry ip [] h = refl
not-lists-nil entry ip (p ∷ ps) h = cc

IsLookup-of_outcome :
    (t : Table) (now stale flag : ℕ) (ip : CStr) (ps : List ℕ) (r : Option ℕ) (rest : List ℕ)
    → Scan.Outcome t.entry now stale flag ip ps r rest
    → IsLookup (record t { order = rest }) ip r
IsLookup-of_outcome t now stale flag ip ps none rest h = h
IsLookup-of_outcome t now stale flag ip ps (some p) rest (same, _, e, listed) = (same, rw e listed)

-- The entry at `p` was overwritten by what the frame teaches.
abbrev pub IsStored : Frame → ℕ → Mac → ℕ → Table → Table → Type 0
IsStored f intf_n hop p t u = (now : ℕ) × (u ≡ store t p (learned f intf_n hop now))

store-Knows :
    (t : Table) (d : IsTable t) (f : Frame) (p intf_n : ℕ) (hop : Mac) (now : ℕ)
    → (t.entry p).destip ≡ f.src_ip
    → lists t.entry f.src_ip t.order ≡ true
    → Knows f.src_ip (store t p (learned f intf_n hop now))
unfolding learned store
store-Knows t d f p intf_n hop now e listed =
    (store-IsTable t d p _ e, lists-store t d p _ f.src_ip e ∙ listed)

module _ (w : World) where
  -- Where each destination has one entry, a lookup keeps it so and ends with an entry for the
  -- address, or with none for it left.
  pub get_r_entry-IsLookup :
      (ip : CStr) (flag : ℕ) (s : Odr)
      → Ensures
          (λ r t. IsTable s.routes → IsTable t.routes × IsLookup t.routes ip r)
          (λ _. ⊥)
          (get_r_entry w ip flag s)
  unfolding get_r_entry monad gettimeofday
  get_r_entry-IsLookup ip flag s =
      let t = s.routes in
      let now = w.clock s.clock_reads in
      elim (Bool-cases (is_nil t.order)) [
        | inl e ↦ rw e (returns λ d. (d, not-lists-nil t.entry ip t.order e))
        | inr e ↦ rw e (
            returns λ d. (
              scan-IsDistinct t.entry now s.stale_param flag ip t.fresh t.order d,
              IsLookup-of_outcome t now s.stale_param flag ip t.order _ _
                  (scan_lem t.entry now s.stale_param flag ip t.fresh t.order d),
            ))
      ]

  pub update_r_entry-IsStored :
      (f : Frame) (p intf_n : ℕ) (hop : Mac) (s : Odr)
      → Ensures
          (λ _ t. IsStored f intf_n hop p s.routes t.routes)
          (λ _. ⊥)
          (update_r_entry w f p intf_n hop s)
  unfolding update_r_entry monad gettimeofday
  update_r_entry-IsStored f p intf_n hop s = elim (Bool-cases (fits inet_addrstrlen f.src_ip)) [
    | inl e ↦ rw e (
        Ensures.bind (get_name_ip-same w f.src_ip _)
          λ _ t u. returns (w.clock s.clock_reads, ap (λ (x : Odr). x.routes) u))
    | inr e ↦ rw e crashes
  ]

  pub check_r_entry-Knows :
      (f : Frame) (p intf_n : ℕ) (hop : Mac) (s : Odr)
      → IsTable s.routes
      → IsLookup s.routes f.src_ip (some p)
      → Ensures (λ _ t. Knows f.src_ip t.routes) (λ _. ⊥) (check_r_entry w f p intf_n hop s)
  unfolding check_r_entry monad
  check_r_entry-Knows f p intf_n hop s d (e, listed) =
      elim (Bool-cases (is_better f (s.routes.entry p))) [
        | inl better ↦ rw better (
            Ensures.bind (update_r_entry-IsStored f p intf_n hop s) λ _ t (now, u).
              returns (
                subst (Knows f.src_ip) (sym u)
                  (store-Knows s.routes d f p intf_n hop now e listed)))
        | inr worse ↦ rw worse (returns (d, listed))
      ]

  pub insert_r_entry-Knows :
      (f : Frame) (intf_n : ℕ) (hop : Mac) (s : Odr)
      → IsTable s.routes
      → IsLookup s.routes f.src_ip none
      → Ensures (λ _ t. Knows f.src_ip t.routes) (λ _. ⊥) (insert_r_entry w f intf_n hop s)
  unfolding insert_r_entry monad learned
  insert_r_entry-Knows f intf_n hop s d absent =
      Ensures.bind (update_r_entry-IsStored f s.routes.fresh intf_n hop _) λ _ t (now, u). returns (
        subst (λ r. Knows f.src_ip (link_first s.routes.fresh r)) (sym u)
          (insert-Knows s.routes d _ absent))
