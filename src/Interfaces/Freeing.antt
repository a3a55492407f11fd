-- ===== src/Interfaces/Freeing.antt =====
-- free_hwa_info of assign3/utils.c, on a heap that knows what has been freed.
use on_demand_routing.Base.{
  ℕ, zero, suc, ◌≤◌, ◌≡◌, refl, ◌∙◌, Bool, true, false, Option, none, some, List, [], ◌∷◌, length,
  All, All-mono, ◌==◌, ==_refl, if◌then◌else◌, arith,
}
use on_demand_routing.Message.{◌>>=◌, ◌>>◌, guard}

-- A `struct hwa_info`: the address of its IP address, and the next one.
pub record Block : Type 0 where
  pub ip_addr : ℕ
  pub hwa_next : Option ℕ

-- What stands at an address, and whether an address is allocated: `none` and `false` after `free`.
pub record Heap : Type 0 where
  pub hwa : ℕ → Option Block
  pub addr : ℕ → Bool

-- `free (hwa->ip_addr)` and `free (hwa)`.
abbrev pub freed : ℕ → Block → Heap → Heap
freed p b s = record {
  hwa = λ q. if q == p then none else s.hwa q;
  addr = λ a. if a == b.ip_addr then false else s.addr a;
}

-- The loop. `none` if a freed block is read or freed, or if the rounds are not enough.
unfoldable pub free_hwa_info : ℕ → Option ℕ → Heap → Option Heap
free_hwa_info zero none s = some s
free_hwa_info zero (some hwa) s = none
free_hwa_info (suc rounds) none s = some s
free_hwa_info (suc rounds) (some hwa) s =
    s.hwa hwa >>= λ b. (guard (s.addr b.ip_addr) >> free_hwa_info rounds b.hwa_next (freed hwa b s))

-- The allocated blocks that the list from a pointer has.
abbrev pub IsList : Heap → Option ℕ → List (ℕ × Block) → Type 0
IsList s from [] = from ≡ none
IsList s from (c ∷ cs) =
    (from ≡ some c.0)
    × (s.hwa c.0 ≡ some c.1)
    × (s.addr c.1.ip_addr ≡ true)
    × IsList s c.1.hwa_next cs

-- Two different blocks, with different addresses.
abbrev pub AreApart : ℕ × Block → ℕ × Block → Type 0
AreApart c d =
    ((d.0 == c.0) ≡ false)
    × ((c.0 == d.0) ≡ false)
    × ((d.1.ip_addr == c.1.ip_addr) ≡ false)
    × ((c.1.ip_addr == d.1.ip_addr) ≡ false)

abbrev pub AreDistinct : List (ℕ × Block) → Type 0
AreDistinct [] = Unit
AreDistinct (c ∷ cs) = All (AreApart c) cs × AreDistinct cs

IsList-freed :
    (s : Heap) (c : ℕ × Block) (from : Option ℕ) (cs : List (ℕ × Block))
    → All (AreApart c) cs
    → IsList s from cs
    → IsList (freed c.0 c.1 s) from cs
IsList-freed s c from [] z l = l
IsList-freed s c from (d ∷ cs) (z, zs) (e, at, taken, l) =
    (e, rw (z.0) at, rw (z.2) taken, IsList-freed s c d.1.hwa_next cs zs l)

-- All blocks are freed and the others left alone.
abbrev pub Frees : List (ℕ × Block) → Heap → Heap → Type 0
Frees cs s t =
    All (λ c. (t.hwa c.0 ≡ none) × (t.addr c.1.ip_addr ≡ false)) cs
    × ((q : ℕ) → All (λ c. (q == c.0) ≡ false) cs → t.hwa q ≡ s.hwa q)
    × ((a : ℕ) → All (λ c. (a == c.1.ip_addr) ≡ false) cs → t.addr a ≡ s.addr a)

-- If the pointers from the head make a list of allocated blocks, with pairwise different blocks
-- and addresses, then `free_hwa_info`, with at least as many rounds as blocks, reads no block
-- after it was freed, frees none twice, and returns; afterwards every block of the list and its
-- address are freed, and all others are as before.
pub free_hwa_info-Frees :
    (rounds : ℕ) (head : Option ℕ) (s : Heap) (cs : List (ℕ × Block))
    → IsList s head cs
    → AreDistinct cs
    → length cs ≤ rounds
    → (t : Heap) × (free_hwa_info rounds head s ≡ some t) × Frees cs s t
unfolding free_hwa_info
free_hwa_info-Frees zero head s [] l d h = (s, rw l refl, (tt, λ q z. refl, λ a z. refl))
free_hwa_info-Frees (suc rounds) head s [] l d h = (s, rw l refl, (tt, λ q z. refl, λ a z. refl))
free_hwa_info-Frees zero head s (c ∷ cs) l d h = absurd (omega (arith, h))
free_hwa_info-Frees (suc rounds) head s (c ∷ cs) (e, at, taken, l) (z, d) h =
    let (t, ran, (gone, hwas, addrs)) =
      free_hwa_info-Frees rounds c.1.hwa_next (freed c.0 c.1 s) cs
        (IsList-freed s c c.1.hwa_next cs z l) d (omega (arith, h)) in
    let here = hwas c.0 (All-mono cs (λ d apart. apart.1) z) in
    let here_addr = addrs c.1.ip_addr (All-mono cs (λ d apart. apart.3) z) in
    (
      t,
      rw (e, at, taken) ran,
      (
        ((here ∙ rw (==_refl c.0) refl, here_addr ∙ rw (==_refl c.1.ip_addr) refl), gone),
        λ q (other, others). hwas q others ∙ rw other refl,
        λ a (other, others). addrs a others ∙ rw other refl,
      ),
    )
