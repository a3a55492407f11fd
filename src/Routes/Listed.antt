-- ===== src/Routes/Listed.antt =====
-- Which destinations a list of entries has, and that it has each once.
use on_demand_routing.Base.{
  ℕ, ◌≤◌, ◌<◌, ◌≡◌, refl, Bool, false, true, ◌||◌, Option, none, some, List, [], ◌∷◌, CStr, str_eq,
  arith,
}
use on_demand_routing.Odr.{Route, Table}

-- Some entry is for this address.
unfoldable pub lists : (ℕ → Route) → CStr → List ℕ → Bool
lists entry ip [] = false
lists entry ip (p ∷ ps) = str_eq (entry p).destip ip || lists entry ip ps

-- No two entries are for one address, and every entry was allocated.
abbrev pub IsDistinct : (ℕ → Route) → ℕ → List ℕ → Type 0
IsDistinct entry fresh [] = Unit {0}
IsDistinct entry fresh (p ∷ ps) =
    (lists entry (entry p).destip ps ≡ false) × (p < fresh) × IsDistinct entry fresh ps

abbrev pub IsTable : Table → Type 0
IsTable t = IsDistinct t.entry t.fresh t.order

-- Both look only at the destinations of the entries that are linked.
module _ (entry entry' : ℕ → Route) where
  pub lists-congr :
      (fresh : ℕ) (ps : List ℕ) (ip : CStr)
      → IsDistinct entry fresh ps
      → ((p : ℕ) → p < fresh → (entry' p).destip ≡ (entry p).destip)
      → lists entry' ip ps ≡ lists entry ip ps
  unfolding lists
  lists-congr fresh [] ip d same = refl
  lists-congr fresh (p ∷ ps) ip d same = ground (arith, same p, lists-congr fresh ps ip d.2 same)

  pub IsDistinct-congr :
      (fresh fresh' : ℕ) (ps : List ℕ)
      → IsDistinct entry fresh ps
      → fresh ≤ fresh'
      → ((p : ℕ) → p < fresh → (entry' p).destip ≡ (entry p).destip)
      → IsDistinct entry' fresh' ps
  unfolding lists
  IsDistinct-congr fresh fresh' [] d lt same = tt
  IsDistinct-congr fresh fresh' (p ∷ ps) d lt same = ground (
    arith,
    same p,
    lists-congr fresh ps (entry p).destip d.2 same,
    IsDistinct-congr fresh fresh' ps d.2 lt same,
  )

-- What a lookup for `ip` has established: the entry that it found is for `ip`, and is linked, and
-- if it found none then no entry for `ip` is linked.
abbrev pub IsLookup : Table → CStr → Option ℕ → Type 0
IsLookup t ip (some p) = ((t.entry p).destip ≡ ip) × (lists t.entry ip t.order ≡ true)
IsLookup t ip none = lists t.entry ip t.order ≡ false

-- One entry for each destination, and one for `ip`.
abbrev pub Knows : CStr → Table → Type 0
Knows ip t = IsTable t × (lists t.entry ip t.order ≡ true)
