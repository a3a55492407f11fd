-- ===== src/Interfaces/Growing.antt =====
-- The loop of get_hw_addrs on a system that lists its interfaces.
use native.Mathlib.Decide.{dec_le}
use on_demand_routing.Base.{
  ℕ, zero, suc, ◌+◌, ◌*◌, ◌/◌, ◌≤◌, ◌<◌, ◌^◌, ◌%◌, ◌≡◌, ◌∙◌, refl, Bool, true, false, List, [], ◌∷◌,
  length, take, ◌==◌, ==_refl, if◌then◌else◌, Bool-cases, inl, inr, arith,
}
use on_demand_routing.Word.{word_mod}
use on_demand_routing.Interfaces.{Ifreq, listed, refused, Ioctls, found, grow, bytes_of, ifreq_size}

-- A buffer that is large enough gets all interfaces. One that is too small gets as many as fit, or
-- the call is refused.
pub record IsListing (k : Ioctls) (all : List Ifreq) (truncates : Bool) : Type 0 where
  pub enough : (call len : ℕ) → length all * ifreq_size ≤ len → k.siocgifconf call len ≡ listed all
  pub short :
      (call len : ℕ)
      → len < length all * ifreq_size
      → k.siocgifconf call len
        ≡ (if truncates then listed (take (len / ifreq_size) all) else refused true)

length-take : (n : ℕ) (ifs : List Ifreq) → n ≤ length ifs → length (take n ifs) ≡ n
length-take zero ifs h = refl
length-take (suc n) [] h = omega (arith, h)
length-take (suc n) (x ∷ ifs) h = omega (arith, length-take n ifs (omega (arith, h)))

mul_div : (n : ℕ) → n * ifreq_size / ifreq_size ≡ n
mul_div n = omega arith

==_above : (a b : ℕ) → b < a → (a == b) ≡ false
==_above a b h = ground (arith, h)

-- The next length does not wrap.
longer_room :
    (all : List Ifreq) (room : ℕ)
    → length all < 2 ^ 24
    → room ≤ length all + 100
    → (room * ifreq_size + 10 * ifreq_size) % word_mod ≡ (room + 10) * ifreq_size
longer_room all room small up = omega (arith, up, small)

module _ (k : Ioctls) (all : List Ifreq) (truncates : Bool) (l : IsListing k all truncates)
    (small : length all < 2 ^ 24) where
  -- The list is the same as before.
  grow_again :
      (rounds call len : ℕ)
      → length all * ifreq_size ≤ len
      → grow k (suc rounds) call len (bytes_of all) ≡ found all
  unfolding grow
  grow_again rounds call len h = rw (l.enough call len h, ==_refl (bytes_of all)) refl

  grow_enough :
      (rounds call room lastlen : ℕ)
      → length all ≤ room
      → room ≤ length all + 100
      → grow k (suc (suc rounds)) call (room * ifreq_size) lastlen ≡ found all
  unfolding grow
  grow_enough rounds call room lastlen h up =
      let again = grow_again rounds (suc call) ((room + 10) * ifreq_size) (omega (arith, h)) in
      rw (l.enough call (room * ifreq_size) (omega (arith, h)), longer_room all room small up)
        (elim (Bool-cases (bytes_of all == lastlen)) [
          | inl same ↦ rw same refl
          | inr other ↦ rw other again
        ])

  -- What the loop has seen so far is no full buffer.
  grow_on :
      (rounds call room lastlen : ℕ)
      → 2 ≤ rounds
      → length all + 20 ≤ rounds * 10 + room
      → room ≤ length all + 100
      → lastlen < room * ifreq_size
      → (truncates ≡ false → lastlen ≡ 0)
      → grow k rounds call (room * ifreq_size) lastlen ≡ found all
  unfolding grow
  grow_on zero call room lastlen two fuel up below zeroed = absurd (omega (arith, two))
  grow_on (suc zero) call room lastlen two fuel up below zeroed = absurd (omega (arith, two))
  grow_on (suc (suc rounds)) call room lastlen two fuel up below zeroed =
      elim (dec_le (length all) room) [
        | yes enough ↦ grow_enough rounds call room lastlen enough up
        | no more ↦ elim (Bool-cases truncates) [
          | inl cut ↦
              let full : length (take (room * ifreq_size / ifreq_size) all) ≡ room =
                length-take _ all (omega (arith, more)) ∙ mul_div room in
              rw
                (
                  l.short call (room * ifreq_size) (omega (arith, more)),
                  cut,
                  full,
                  ==_above (room * ifreq_size) lastlen below,
                  longer_room all room small up,
                )
                (grow_on (suc rounds) (suc call) (room + 10) (room * ifreq_size)
                  (omega (arith, more, fuel)) (omega (arith, fuel)) (omega (arith, more))
                  (omega arith) (λ whole. absurd (ground (arith, cut, whole))))
          | inr refuses ↦
              rw
                (
                  l.short call (room * ifreq_size) (omega (arith, more)),
                  refuses,
                  zeroed refuses,
                  longer_room all room small up,
                )
                (grow_on (suc rounds) (suc call) (room + 10) 0 (omega (arith, more, fuel))
                  (omega (arith, fuel)) (omega (arith, more)) (omega arith) (λ _. refl))
        ]
      ]

  pub grow-found :
      (rounds : ℕ)
      → 2 ≤ rounds
      → length all ≤ rounds * 10 + 80
      → grow k rounds 0 (100 * ifreq_size) 0 ≡ found all
  grow-found rounds two fuel =
      grow_on rounds 0 100 0 two (omega (arith, fuel)) (omega arith) (omega arith) (λ _. refl)
