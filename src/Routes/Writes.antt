-- ===== src/Routes/Writes.antt =====
-- The writes to the routing table keep one entry for each destination.
use on_demand_routing.Base.{ℕ, CStr, str_eq_refl, ◌+◌, ◌<◌, ◌≡◌, false, arith}
use on_demand_routing.Odr.{Route, Table}
use on_demand_routing.Routes.{store, allocate, link_first}
use on_demand_routing.Routes.Listed.{
  lists, IsDistinct, IsTable, Knows, lists-congr, IsDistinct-congr,
}

module _ (t : Table) (d : IsTable t) where
  -- An entry is overwritten by one for the same address.
  pub store-IsTable : (p : ℕ) (r : Route) → (t.entry p).destip ≡ r.destip → IsTable (store t p r)
  unfolding store
  store-IsTable p r e =
      IsDistinct-congr t.entry _ t.fresh t.fresh t.order d (omega arith) λ q lt. ground arith

  -- The addresses that have entries are the same.
  pub lists-store :
      (p : ℕ) (r : Route) (ip : CStr)
      → (t.entry p).destip ≡ r.destip
      → lists (store t p r).entry ip t.order ≡ lists t.entry ip t.order
  unfolding store
  lists-store p r ip e = lists-congr t.entry _ t.fresh t.order ip d λ q lt. ground arith

  -- A new entry is linked whose address no entry has.
  pub insert-Knows :
      (r : Route)
      → lists t.entry r.destip t.order ≡ false
      → Knows r.destip (link_first t.fresh (store (allocate t) t.fresh r))
  unfolding store allocate link_first lists
  insert-Knows r absent =
      ((ground (arith, listed), omega arith, kept), ground (arith, str_eq_refl r.destip))
    where
      entry : ℕ → Route
      entry = (store (allocate t) t.fresh r).entry

      same : (q : ℕ) → q < t.fresh → (entry q).destip ≡ (t.entry q).destip
      same q lt = ground arith

      listed : lists entry r.destip t.order ≡ lists t.entry r.destip t.order
      listed = lists-congr t.entry entry t.fresh t.order r.destip d same

      kept : IsDistinct entry (t.fresh + 1) t.order
      kept = IsDistinct-congr t.entry entry t.fresh (t.fresh + 1) t.order d (omega arith) same
