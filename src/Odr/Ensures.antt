-- ===== src/Odr/Ensures.antt =====
-- What holds when an action ends: `P` of its value and state if it returned, `Q` of its state if
-- it returned -1.
use on_demand_routing.Odr.{Odr}
use on_demand_routing.Odr.Outcome.{Outcome, done, failed, crashed, Act, and_then}

pub data Ensures {A : Type 0} (P : A → Odr → Type 0) (Q : Odr → Type 0) : Outcome A → Type 0 where
  returns : {a : A} {s : Odr} → P a s → Ensures P Q (done a s)
  fails : {s : Odr} → Q s → Ensures P Q (failed s)
  crashes : Ensures P Q crashed

module _ {A : Type 0} {P : A → Odr → Type 0} {Q : Odr → Type 0} where
  pub bind :
      {B : Type 0} {R : B → Odr → Type 0} {o : Outcome A} {k : A → Act B}
      → Ensures P Q o
      → ((a : A) (s : Odr) → P a s → Ensures R Q (k a s))
      → Ensures R Q (and_then o k)
  bind (returns p) next = next _ _ p
  bind (fails q) next = fails q
  bind crashes next = crashes

  pub mono :
      {P' : A → Odr → Type 0} {Q' : Odr → Type 0} {o : Outcome A}
      → Ensures P Q o
      → ((a : A) (s : Odr) → P a s → P' a s)
      → ((s : Odr) → Q s → Q' s)
      → Ensures P' Q' o
  mono (returns p) f g = returns (f _ _ p)
  mono (fails q) f g = fails (g _ q)
  mono crashes f g = crashes

module _ {A : Type 0} {P : A → Odr → Type 0} {Q : Odr → Type 0} where
  pub returned : {a : A} {s : Odr} → Ensures P Q (done a s) → P a s
  returned (returns p) = p

  pub has_failed : {s : Odr} → Ensures P Q (failed s) → Q s
  has_failed (fails q) = q

  -- A hypothesis on the state before is moved into what holds afterwards.
  pub under :
      {H : Type 0} (o : Outcome A)
      → (H → Ensures P Q o)
      → Ensures (λ a s. H → P a s) (λ s. H → Q s) o
  under (done a s) f = returns λ h. returned (f h)
  under (failed s) f = fails λ h. has_failed (f h)
  under crashed f = crashes

-- Total correctness: the call returns, with `P` of its value and state.
abbrev pub Returns : {A : Type 0} → (A → Odr → Type 0) → Outcome A → Type 0
Returns P (done a s) = P a s
Returns P (failed s) = ⊥
Returns P crashed = ⊥

pub Returns-bind :
    {A B : Type 0} (P : A → Odr → Type 0) (R : B → Odr → Type 0) (o : Outcome A) (k : A → Act B)
    → Returns P o
    → ((a : A) (s : Odr) → P a s → Returns R (k a s))
    → Returns R (and_then o k)
Returns-bind P R (done a s) k h next = next a s h
Returns-bind P R (failed s) k h next = absurd h
Returns-bind P R crashed k h next = absurd h
