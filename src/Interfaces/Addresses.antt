-- ===== src/Interfaces/Addresses.antt =====
-- The text of an address.
use on_demand_routing.Base.{
  ℕ, ◌+◌, ◌<◌, ◌≤◌, ◌≡◌, ◌^◌, ◌≢◌, refl, ap, false, inl, inr, ◌⊎◌, List, [], ◌∷◌, length,
  length-append, All, All-mono, All-append, CStr, lt→ltb, ◌==◌, arith,
}
use on_demand_routing.Decimal.{print_int}
use on_demand_routing.Decimal.Numbers.{IsPlain, print_int-IsPlain, length-digits}
use on_demand_routing.Frame.{inet_addrstrlen}
use on_demand_routing.Message.{maxline, is_separator}
use on_demand_routing.Message.RoundTrip.{IsText}
use on_demand_routing.Interfaces.{inet_ntop}

-- Four bytes, with what follows them in memory.
abbrev pub IsAddress : List ℕ → Type 0
IsAddress (a ∷ b ∷ c ∷ d ∷ _) = (a < 256) × (b < 256) × (c < 256) × (d < 256)
IsAddress _ = ⊥

-- A byte of the text of an address.
abbrev IsDotted : ℕ → Type 0
IsDotted c = IsPlain c ⊎ (c ≡ b'.')

pub length-byte : (a : ℕ) → a < 256 → length (print_int a) ≤ 3
unfolding print_int
length-byte a h =
    let few = length-digits 10 2 a [] (omega (arith, h)) in
    rw (lt→ltb a (2 ^ 31) (omega (arith, h))) (omega (arith, few))

byte-IsDotted : (a : ℕ) → All IsDotted (print_int a)
byte-IsDotted a = All-mono (print_int a) (λ c h. inl h) (print_int-IsPlain a)

IsDotted-clean : (c : ℕ) → IsDotted c → (is_separator c ≡ false) × ((c == 0) ≡ false)
IsDotted-clean c (inl (inl e)) = ground (arith, e)
IsDotted-clean c (inl (inr h)) = ground (arith, h)
IsDotted-clean c (inr e) = ground (arith, e)

IsDotted-IsText :
    (size : ℕ) (s : CStr)
    → s ≢ []
    → All IsDotted s
    → length s < size
    → size ≤ maxline
    → IsText size s
IsDotted-IsText size [] ne h short within = absurd (ne refl)
IsDotted-IsText size (c ∷ s) ne h short within = (
  All-mono (c ∷ s) (λ x d. (IsDotted-clean x d).0) h,
  All-mono (c ∷ s) (λ x d. (IsDotted-clean x d).1) h,
  lt→ltb _ _ (omega (arith, short, within)),
  short,
)

module _ (a b c d : ℕ) (rest : List ℕ) where
  inet_ntop-length :
      length (inet_ntop (a ∷ b ∷ c ∷ d ∷ rest))
      ≡ length (print_int a)
        + length (print_int b)
        + length (print_int c)
        + length (print_int d)
        + 3
  unfolding inet_ntop
  inet_ntop-length = simp length-append (omega arith)

  inet_ntop-IsDotted : All IsDotted (inet_ntop (a ∷ b ∷ c ∷ d ∷ rest))
  unfolding inet_ntop
  inet_ntop-IsDotted =
      let onto = All-append IsDotted in
      onto (print_int a) _ (byte-IsDotted a) (
        inr refl,
        onto (print_int b) _ (byte-IsDotted b)
            (inr refl, onto (print_int c) _ (byte-IsDotted c) (inr refl, byte-IsDotted d)),
      )

-- An address as text has no separator and no NUL, and it fits into INET_ADDRSTRLEN.
pub inet_ntop-IsText :
    (addr : List ℕ) (size : ℕ)
    → IsAddress addr
    → inet_addrstrlen ≤ size
    → size ≤ maxline
    → IsText size (inet_ntop addr)
inet_ntop-IsText [] size h room within = absurd h
inet_ntop-IsText (a ∷ []) size h room within = absurd h
inet_ntop-IsText (a ∷ b ∷ []) size h room within = absurd h
inet_ntop-IsText (a ∷ b ∷ c ∷ []) size h room within = absurd h
inet_ntop-IsText (a ∷ b ∷ c ∷ d ∷ rest) size (ha, hb, hc, hd) room within =
    let long = inet_ntop-length a b c d rest in
    IsDotted-IsText size _ (λ e. absurd (omega (arith, long, ap length e)))
      (inet_ntop-IsDotted a b c d rest)
      (omega
        (arith, long, length-byte a ha, length-byte b hb, length-byte c hc, length-byte d hd, room))
      within
