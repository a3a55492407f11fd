-- ===== src/Routes/Found.antt =====
-- `get_r_entry` where it deletes nothing.
use on_demand_routing.Base.{
  ℕ, ◌≡◌, refl, ap, arith, inl, inr, true, false, Option, none, some, List, [], ◌∷◌, CStr, str_eq,
  str_eq→eq, str_eq_refl, ◌==◌, All, Holds, Bool-cases, if◌then◌else◌, ◌+◌,
}
use on_demand_routing.Odr.{Odr, World, Route}
use on_demand_routing.Odr.Outcome.{done, monad}
use on_demand_routing.System.{gettimeofday}
use on_demand_routing.Routes.{scan, is_expired, is_nil, get_r_entry}

-- The first linked entry for an address.
unfoldable pub find : (ℕ → Route) → CStr → List ℕ → Option ℕ
find entry ip [] = none
find entry ip (p ∷ ps) =
    let rest = find entry ip ps in if str_eq (entry p).destip ip then some p else rest

-- The clock is read if the table has an entry.
abbrev pub looked : Odr → Odr
looked s = record s { clock_reads = s.clock_reads + (if is_nil s.routes.order then 0 else 1) }

module _ (entry : ℕ → Route) (now stale flag : ℕ) (ip : CStr) where
  scan-find :
      (ps : List ℕ)
      → All
          (λ p. str_eq (entry p).destip ip ≡ true → is_expired entry now stale flag ip p ≡ false)
          ps
      → scan entry now stale flag ip ps ≡ (find entry ip ps, ps)
  unfolding scan find
  scan-find [] h = refl
  scan-find (p ∷ ps) (h, hs) = elim (Bool-cases (str_eq (entry p).destip ip)) [
    | inl same ↦ rw (same, h same) refl
    | inr other ↦ rw (other, scan-find ps hs) refl
  ]

find_nil :
    (entry : ℕ → Route) (ip : CStr) (ps : List ℕ) → is_nil ps ≡ true → find entry ip ps ≡ none
unfolding find
find_nil entry ip [] e = refl
find_nil entry ip (p ∷ ps) e = cc

-- If no entry for the address is to be deleted, a lookup finds the first and leaves the list.
pub get_r_entry-find :
    (w : World) (ip : CStr) (flag : ℕ) (s : Odr)
    → All
        (λ p.
          str_eq (s.routes.entry p).destip ip ≡ true
          → is_expired s.routes.entry (w.clock s.clock_reads) s.stale_param flag ip p ≡ false)
        s.routes.order
    → get_r_entry w ip flag s ≡ done (find s.routes.entry ip s.routes.order) (looked s)
unfolding get_r_entry gettimeofday monad
get_r_entry-find w ip flag s h =
    let t = s.routes in
    elim (Bool-cases (is_nil t.order)) [
      | inl e ↦
          rw (e, find_nil t.entry ip t.order e)
            (ap (λ n. done none (record s { clock_reads = n })) (omega arith))
      | inr e ↦
          rw (e, scan-find t.entry (w.clock s.clock_reads) s.stale_param flag ip t.order h) refl
    ]

-- An address that no entry has is not found.
pub find_absent :
    (entry : ℕ → Route) (ip : CStr) (ps : List ℕ)
    → All (λ p. str_eq (entry p).destip ip ≡ false) ps
    → find entry ip ps ≡ none
unfolding find
find_absent entry ip [] h = refl
find_absent entry ip (p ∷ ps) (h, hs) = rw (h, find_absent entry ip ps hs) refl

-- What is found is linked, and for the address.
pub find-Holds :
    (entry : ℕ → Route) (ip : CStr) (P : ℕ → Type 0) (ps : List ℕ)
    → All P ps
    → Holds (λ p. P p × (str_eq (entry p).destip ip ≡ true)) (find entry ip ps)
unfolding find
find-Holds entry ip P [] h = tt
find-Holds entry ip P (p ∷ ps) (h, hs) = elim (Bool-cases (str_eq (entry p).destip ip)) [
  | inl same ↦ rw same (h, same)
  | inr other ↦ rw other (find-Holds entry ip P ps hs)
]

-- The search reads the entries' addresses only.
pub find_same :
    (old new : ℕ → Route) (ip : CStr)
    → ((p : ℕ) → (new p).destip ≡ (old p).destip)
    → (ps : List ℕ) → find new ip ps ≡ find old ip ps
unfolding find
find_same old new ip h [] = refl
find_same old new ip h (p ∷ ps) = rw (h p, find_same old new ip h ps) refl

pub find-destip :
    (entry : ℕ → Route) (ip : CStr) (p : ℕ) (ps : List ℕ)
    → find entry ip ps ≡ some p
    → (entry p).destip ≡ ip
unfolding find
find-destip entry ip p [] e = cc
find-destip entry ip p (x ∷ ps) e = elim (Bool-cases (str_eq (entry x).destip ip)) [
  | inl same ↦
      let found : some x ≡ some p = rw same at e in
      let address = str_eq→eq (entry x).destip ip same in cc
  | inr other ↦ find-destip entry ip p ps (rw other at e)
]

apart_entries :
    (entry : ℕ → Route) (p q : ℕ) (src dest : CStr)
    → str_eq dest src ≡ false
    → (entry p).destip ≡ dest
    → (entry q).destip ≡ src
    → (p == q) ≡ false
apart_entries entry p q src dest differ at_p at_q = elim (Bool-cases (p == q)) [
  | inl same ↦ let equal : p ≡ q = ground (arith, same) in let reflexive = str_eq_refl dest in cc
  | inr other ↦ other
]

-- Entries for different addresses are different.
pub source_apart :
    (entry : ℕ → Route) (p : ℕ) (src dest : CStr) (ps : List ℕ)
    → str_eq dest src ≡ false
    → (entry p).destip ≡ dest
    → (found : Option ℕ) → find entry src ps ≡ found
    → Holds (λ q. (p == q) ≡ false) found
source_apart entry p src dest ps differ at_p none e = tt
source_apart entry p src dest ps differ at_p (some q) e =
    apart_entries entry p q src dest differ at_p (find-destip entry src q ps e)
