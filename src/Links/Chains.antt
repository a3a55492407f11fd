-- ===== src/Links/Chains.antt =====
-- The lists that the pointers make.
use on_demand_routing.Base.{
  ℕ, ◌≡◌, refl, sym, subst, ◌∙◌, false, Option, none, some, List, [], ◌∷◌, ◌++◌, ◌==◌, ==_refl, All,
}
use on_demand_routing.Links.{set, set_if}

-- `p` is the predecessor of the first of the list.
abbrev pub Precedes : (ℕ → Option ℕ) → ℕ → List ℕ → Type 0
Precedes prev p [] = Unit {0}
Precedes prev p (q ∷ qs) = prev q ≡ some p

-- Following `next` from a pointer gives the list, and `prev` leads back.
abbrev pub Chain : (next prev : ℕ → Option ℕ) → Option ℕ → List ℕ → Type 0
Chain next prev from [] = from ≡ none
Chain next prev from (p ∷ ps) = (from ≡ some p) × Precedes prev p ps × Chain next prev (next p) ps

abbrev pub Absent : ℕ → List ℕ → Type 0
Absent p ps = All (λ q. ((q == p) ≡ false) × ((p == q) ≡ false)) ps

abbrev pub Distinct : List ℕ → Type 0
Distinct [] = Unit {0}
Distinct (p ∷ ps) = Absent p ps × Distinct ps

-- A write of the fields of a node that is not in a list leaves the list.
pub set-Absent :
    (next prev : ℕ → Option ℕ) (a : ℕ) (v : Option ℕ) (from : Option ℕ) (ps : List ℕ)
    → Absent a ps
    → Chain next prev from ps
    → Chain (set next a v) prev from ps
set-Absent next prev a v from [] z c = c
set-Absent next prev a v from (p ∷ ps) ((e, _), zs) (h, b, c) =
    (h, b, rw e (set-Absent next prev a v (next p) ps zs c))

pub prev-Absent :
    (next prev : ℕ → Option ℕ) (y : ℕ) (v : Option ℕ) (from : Option ℕ) (ps : List ℕ)
    → Absent y ps
    → Chain next prev from ps
    → Chain next (set prev y v) from ps
prev-Absent next prev y v from [] z c = c
prev-Absent next prev y v from (p ∷ []) z c = c
prev-Absent next prev y v from (p ∷ q ∷ ps) (_, ((e, d), zs)) (h, b, c) =
    (h, rw e b, prev-Absent next prev y v (next p) (q ∷ ps) ((e, d), zs) c)

-- The same if only the first of the list is written.
pub prev_first :
    (next prev : ℕ → Option ℕ) (y : ℕ) (v : Option ℕ) (from : Option ℕ) (ps : List ℕ)
    → Distinct (y ∷ ps)
    → Chain next prev from (y ∷ ps)
    → Chain next (set prev y v) from (y ∷ ps)
prev_first next prev y v from [] d c = c
prev_first next prev y v from (q ∷ ps) (z, _) (h, b, c) =
    (h, rw (z.0.0) b, prev-Absent next prev y v (next y) (q ∷ ps) z c)

-- Past the end of a chain nothing is written.
pub set_if-Absent :
    (next prev : ℕ → Option ℕ) (p q : ℕ) (v : Option ℕ) (ys : List ℕ)
    → Absent q ys
    → Chain next prev (next p) ys
    → set_if prev (next p) v q ≡ prev q
set_if-Absent next prev p q v [] z c = rw c refl
set_if-Absent next prev p q v (y ∷ ys) (z, zs) (h, _, _) = rw (h, z.1) refl

pub Chain-end :
    (next prev : ℕ → Option ℕ) (a p : ℕ) (from : Option ℕ) (xs ys : List ℕ)
    → Chain next prev from (xs ++ (a ∷ p ∷ ys))
    → Chain next prev (next p) ys
Chain-end next prev a p from [] ys c = c.2.2
Chain-end next prev a p from (x ∷ xs) ys c = Chain-end next prev a p (next x) xs ys c.2

pub Absent-end : (q a p : ℕ) (xs ys : List ℕ) → Absent q (xs ++ (a ∷ p ∷ ys)) → Absent q ys
Absent-end q a p [] ys (_, (_, z)) = z
Absent-end q a p (x ∷ xs) ys (_, z) = Absent-end q a p xs ys z

pub Absent-mid : (q a : ℕ) (xs ys : List ℕ) → Absent q (xs ++ (a ∷ ys)) → (q == a) ≡ false
Absent-mid q a [] ys (z, _) = z.1
Absent-mid q a (x ∷ xs) ys (_, z) = Absent-mid q a xs ys z

-- The node after `a` is bypassed.
pub bypass_after :
    (next prev : ℕ → Option ℕ) (a p : ℕ) (from : Option ℕ) (xs ys : List ℕ)
    → Distinct (xs ++ (a ∷ p ∷ ys))
    → Chain next prev from (xs ++ (a ∷ p ∷ ys))
    → Chain (set next a (next p)) (set_if prev (next p) (prev p)) from (xs ++ (a ∷ ys))
bypass_after next prev a p from [] [] d (h, b, (n, _, c)) = rw c (h, tt, rw (==_refl a) refl)
bypass_after next prev a p from [] (y ∷ ys) (za, (zp, dy)) (h, b, (n, by, c)) =
    let rest =
      set-Absent next (set prev y (prev p)) a (some y) (next p) (y ∷ ys) za.1
        (prev_first next prev y (prev p) (next p) ys dy c) in
    subst (λ v. Chain (set next a v) (set_if prev v (prev p)) from (a ∷ y ∷ ys)) (sym c.0)
      (h, rw (==_refl y) b, (rw (==_refl a) refl, rest.1, rest.2))
bypass_after next prev a p from (x ∷ []) ys (zx, d) (h, b, c) =
    let same = set_if-Absent next prev p a (prev p) ys d.0.1 c.2.2 in
    (h, same ∙ b, rw (zx.0.1) (bypass_after next prev a p (next x) [] ys d c))
bypass_after next prev a p from (x ∷ q ∷ xs) ys (zx, d) (h, b, c) =
    let same =
      set_if-Absent next prev p q (prev p) ys (Absent-end q a p xs ys d.0)
        (Chain-end next prev a p (next x) (q ∷ xs) ys c) in
    let apart = Absent-mid x a (q ∷ xs) (p ∷ ys) zx in
    (h, same ∙ b, rw apart (bypass_after next prev a p (next x) (q ∷ xs) ys d c))
