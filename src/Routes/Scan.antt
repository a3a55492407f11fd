-- ===== src/Routes/Scan.antt =====
-- The loop of `get_r_entry`.
use on_demand_routing.Base.{
  ℕ, ◌≡◌, refl, true, false, Option, none, some, List, [], ◌∷◌, CStr, str_eq, str_eq→eq, arith, All,
  Holds, Bool-cases, inl, inr,
}
use on_demand_routing.Odr.{Route}
use on_demand_routing.Routes.{scan, is_expired}
use on_demand_routing.Routes.Listed.{lists, IsDistinct}

module _ (entry : ℕ → Route) (now stale flag : ℕ) (ip : CStr) where
  -- The entry found is for this address, is linked, and is neither stale nor asked to go; the list
  -- is left as it was. If none is found, then none is left for this address.
  abbrev pub Outcome : List ℕ → Option ℕ → List ℕ → Type 0
  Outcome ps (some p) rest =
      ((entry p).destip ≡ ip)
      × (is_expired entry now stale flag ip p ≡ false)
      × (rest ≡ ps)
      × (lists entry ip ps ≡ true)
  Outcome ps none rest = lists entry ip rest ≡ false

  abbrev scan_on : List ℕ → Option ℕ × List ℕ
  scan_on = scan entry now stale flag ip

  pub scan_lem :
      (fresh : ℕ) (ps : List ℕ)
      → IsDistinct entry fresh ps
      → Outcome ps (scan_on ps).0 (scan_on ps).1
  unfolding scan is_expired lists
  scan_lem fresh [] d = refl
  scan_lem fresh (p ∷ ps) d = ground (arith, scan_lem fresh ps d.2, str_eq→eq (entry p).destip ip)

  -- Entries for other addresses stay.
  pub lists-scan :
      (ps : List ℕ) (other : CStr)
      → str_eq ip other ≡ false
      → lists entry other (scan_on ps).1 ≡ lists entry other ps
  unfolding scan is_expired lists
  lists-scan [] other ne = refl
  lists-scan (p ∷ ps) other ne =
      ground (arith, lists-scan ps other ne, str_eq→eq (entry p).destip ip)

  -- An address that is not listed does not come in.
  not-lists-scan :
      (ps : List ℕ) (other : CStr)
      → lists entry other ps ≡ false
      → lists entry other (scan_on ps).1 ≡ false
  unfolding scan is_expired lists
  not-lists-scan [] other h = refl
  not-lists-scan (p ∷ ps) other h = ground (arith, not-lists-scan ps other)

  pub scan-IsDistinct :
      (fresh : ℕ) (ps : List ℕ) → IsDistinct entry fresh ps → IsDistinct entry fresh (scan_on ps).1
  unfolding scan is_expired lists
  scan-IsDistinct fresh [] d = tt
  scan-IsDistinct fresh (p ∷ ps) d =
      ground (arith, scan-IsDistinct fresh ps d.2, not-lists-scan ps (entry p).destip d.0)

  -- What holds of all linked entries holds of the one that is found and of those that are left.
  pub Holds-scan :
      (P : ℕ → Type 0) (ps : List ℕ) → All P ps → Holds P (scan_on ps).0 × All P (scan_on ps).1
  unfolding scan
  Holds-scan P [] h = (tt, tt)
  Holds-scan P (p ∷ ps) (h, hs) =
      let ih = Holds-scan P ps hs in
      elim (Bool-cases (str_eq (entry p).destip ip)) [
        | inl same ↦ elim (Bool-cases (is_expired entry now stale flag ip p)) [
          | inl old ↦ rw (same, old) (tt, hs)
          | inr good ↦ rw (same, good) (h, (h, hs))
        ]
        | inr other ↦ rw other (ih.0, (h, ih.1))
      ]
