-- ===== src/Odr/Keeps.antt =====
-- Actions whose every end stands in a given relation to the state that they began in.
use on_demand_routing.Base.{Bool, true, false, Option, none, some, if◌then◌else◌}
use on_demand_routing.Odr.{Odr}
use on_demand_routing.Odr.Outcome.{
  Act, pure, fail, gets, modify, assert, non_null, or_fail, ◌>>=◌, ◌>>◌,
}
use on_demand_routing.Odr.Ensures
use on_demand_routing.Odr.Ensures.{Ensures, returns, fails, crashes}

pub record IsPreorder (R : Odr → Odr → Type 0) : Type 0 where
  pub reflexive : (s : Odr) → R s s
  pub transitive : (s t u : Odr) → R s t → R t u → R s u

pub record Keeps (R : Odr → Odr → Type 0) {A : Type 0} (m : Act A) : Type 0 where
  pub ends : (s : Odr) → Ensures (λ _ t. R s t) (R s) (m s)

module _ {R : Odr → Odr → Type 0} ⦃o : IsPreorder R⦄ where
  pub bind :
      {A B : Type 0} {m : Act A} {k : A → Act B}
      → Keeps R m
      → ((a : A) → Keeps R (k a))
      → Keeps R (m >>= k)
  unfolding ◌>>=◌
  bind p q = record {
    ends = λ s. Ensures.bind (p.ends s) λ a t r.
        Ensures.mono ((q a).ends t) (λ _ u r'. o.transitive s t u r r')
          (λ u r'. o.transitive s t u r r');
  }

  pub bind_skip : {A B : Type 0} {m : Act A} {n : Act B} → Keeps R m → Keeps R n → Keeps R (m >> n)
  unfolding ◌>>◌
  bind_skip p q = bind p λ _. q

  pub pure-Keeps : {A : Type 0} (a : A) → Keeps R (pure a)
  unfolding pure
  pure-Keeps a = record { ends = λ s. returns (o.reflexive s) }

  pub fail-Keeps : {A : Type 0} → Keeps R (fail {A = A})
  unfolding fail
  fail-Keeps = record { ends = λ s. fails (o.reflexive s) }

  pub gets-Keeps : {A : Type 0} (f : Odr → A) → Keeps R (gets f)
  unfolding gets
  gets-Keeps f = record { ends = λ s. returns (o.reflexive s) }

  pub assert-Keeps : (b : Bool) → Keeps R (assert b)
  unfolding assert
  assert-Keeps true = record { ends = λ s. returns (o.reflexive s) }
  assert-Keeps false = record { ends = λ s. crashes }

  pub non_null-Keeps : {A : Type 0} (a : Option A) → Keeps R (non_null a)
  unfolding non_null
  non_null-Keeps none = record { ends = λ s. crashes }
  non_null-Keeps (some b) = record { ends = λ s. returns (o.reflexive s) }

  pub or_fail-Keeps : {A : Type 0} (a : Option A) → Keeps R (or_fail a)
  unfolding or_fail
  or_fail-Keeps none = record { ends = λ s. fails (o.reflexive s) }
  or_fail-Keeps (some b) = record { ends = λ s. returns (o.reflexive s) }

module _ {R : Odr → Odr → Type 0} where
  pub if-Keeps :
      {A : Type 0} (b : Bool) {m n : Act A} → Keeps R m → Keeps R n → Keeps R (if b then m else n)
  if-Keeps true p q = p
  if-Keeps false p q = q

  pub modify-Keeps : (f : Odr → Odr) → ((s : Odr) → R s (f s)) → Keeps R (modify f)
  unfolding modify
  modify-Keeps f h = record { ends = λ s. returns (h s) }

-- What is kept in one sense is kept in any weaker one.
pub weaken :
    {R R' : Odr → Odr → Type 0} {A : Type 0} {m : Act A}
    → ((s t : Odr) → R s t → R' s t)
    → Keeps R m
    → Keeps R' m
weaken h p = record { ends = λ s. Ensures.mono (p.ends s) (λ _ t. h s t) (h s) }

-- For `search`: an action that is put together from these is kept if its parts are.
pub ruleset plain = (
  bind, bind_skip, if-Keeps, pure-Keeps, fail-Keeps, gets-Keeps, assert-Keeps, non_null-Keeps,
  or_fail-Keeps,
)
