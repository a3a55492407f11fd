-- ===== src/Odr/Outcome.antt =====
-- How a call of one of the daemon's functions ends.
use on_demand_routing.Base.{Bool, true, false, Option, none, some}
use on_demand_routing.Odr.{Odr}

-- `done`: the function returned; `failed`: it returned -1; `crashed`: an assertion failed, or a
-- string was copied into an array that is too small for it.
pub data Outcome (A : Type 0) : Type 0 where
  done : A → Odr → Outcome A
  failed : Odr → Outcome A
  crashed : Outcome A

abbrev pub Act : Type 0 → Type 0
Act A = Odr → Outcome A

module _ {A : Type 0} where
  unfoldable pub pure : A → Act A
  pure = done

  unfoldable pub fail : Act A
  fail = failed

  unfoldable pub crash : Act A
  crash s = crashed

module _ {A B : Type 0} where
  abbrev pub and_then : Outcome A → (A → Act B) → Outcome B
  and_then (done a s) k = k a s
  and_then (failed s) k = failed s
  and_then crashed k = crashed

  infixl 5 ◌>>=◌ ◌>>◌
  unfoldable pub ◌>>=◌ : Act A → (A → Act B) → Act B
  m >>= k = λ s. and_then (m s) k

  unfoldable pub ◌>>◌ : Act A → Act B → Act B
  unfolding ◌>>=◌
  m >> n = m >>= λ _. n

unfoldable pub gets : {A : Type 0} → (Odr → A) → Act A
gets f s = done (f s) s

unfoldable pub modify : (Odr → Odr) → Act (Unit {0})
modify f s = done tt (f s)

-- `assert (b)`.
unfoldable pub assert : Bool → Act (Unit {0})
unfolding pure crash
assert true = pure tt
assert false = crash

-- A pointer that is dereferenced or asserted, and one whose absence is reported by -1.
unfoldable pub non_null : {A : Type 0} → Option A → Act A
unfolding pure crash
non_null none = crash
non_null (some a) = pure a

unfoldable pub or_fail : {A : Type 0} → Option A → Act A
unfolding pure fail
or_fail none = fail
or_fail (some a) = pure a

-- A call whose -1 is noted and otherwise ignored.
unfoldable pub ignore_failure : Outcome (Unit {0}) → Outcome (Unit {0})
ignore_failure (done _ s) = done tt s
ignore_failure (failed s) = done tt s
ignore_failure crashed = crashed

unfoldable pub attempt : Act (Unit {0}) → Act (Unit {0})
unfolding ignore_failure
attempt m s = ignore_failure (m s)

-- To compute with the actions, unfold this one name.
unfoldable pub monad : Unit {0}
unfolding pure fail crash ◌>>=◌ ◌>>◌ gets modify assert non_null or_fail attempt
monad = tt
