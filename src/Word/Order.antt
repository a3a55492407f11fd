-- ===== src/Word/Order.antt =====
-- The signed order of `int` patterns.
use on_demand_routing.Base.{ℕ, ◌+◌, ◌-◌, ◌<◌, ◌≡◌, refl, arith, true}
use on_demand_routing.Word.{IsWord, word_mod, minus_one, rank, slt, inc}

pub rank_injective : (a b : ℕ) → IsWord a → IsWord b → rank a ≡ rank b → a ≡ b
unfolding rank
rank_injective a b ha hb h = omega arith

-- Where no overflow happens, `a + 1` is the next int.
pub rank-inc : (a : ℕ) → IsWord a → rank a < word_mod - 1 → rank (inc a) ≡ rank a + 1
unfolding rank inc
rank-inc a ha h = omega arith

pub inc-IsWord : (a : ℕ) → IsWord (inc a)
unfolding inc
inc-IsWord a = omega arith

negative_below : slt minus_one 0 ≡ true
unfolding rank
negative_below = refl
