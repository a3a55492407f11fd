-- ===== src/Message/Fields.antt =====
-- What the conversions of `sscanf` read from a text that is put together from fields.
use on_demand_routing.Base.{
  ℕ, zero, suc, ◌==◌, le→leb, ◌≤◌, ◌<◌, ◌≡◌, ◌≢◌, refl, inl, inr, Bool, true, false, some, List, [],
  ◌∷◌, ◌++◌, length, drop, replicate, CStr, arith, All,
}
use on_demand_routing.Decimal.{is_space, skip_space, print_int}
use on_demand_routing.Decimal.Numbers.{IsPlain, print_int-IsPlain, print_int_not_nil}
use on_demand_routing.Message.{non_empty, is_separator, until, field, word, string_in, copied}

-- A text that a conversion reads whole: it is not empty, and no byte of it stops the conversion.
abbrev pub Unstopped : (ℕ → Bool) → CStr → Type 0
Unstopped stops [] = ⊥
Unstopped stops (c ∷ s) = All (λ x. stops x ≡ false) (c ∷ s)

abbrev pub IsField : CStr → Type 0
IsField s = Unstopped is_separator s

module _ (stops : ℕ → Bool) (d : ℕ) (stop : stops d ≡ true) (t : CStr) where
  until-append : (s : CStr) → All (λ x. stops x ≡ false) s → until stops (s ++ (d ∷ t)) ≡ (s, d ∷ t)
  unfolding until
  until-append [] h = rw stop refl
  until-append (c ∷ s) (h, hs) = rw (h, until-append s hs) refl

  pub non_empty-until :
      (s : CStr) → Unstopped stops s → non_empty (until stops (s ++ (d ∷ t))) ≡ some (s, d ∷ t)
  non_empty-until [] h = absurd h
  non_empty-until (c ∷ s) h = rw (until-append (c ∷ s) h) refl

pub field-append : (s t : CStr) → IsField s → field (s ++ (b',' ∷ t)) ≡ some (s, b',' ∷ t)
unfolding field
field-append s t h = non_empty-until is_separator b',' refl t s h

pub word-append :
    (s t : CStr) → Unstopped is_space s → word (s ++ (b'\n' ∷ t)) ≡ some (s, b'\n' ∷ t)
unfolding word skip_space
word-append [] t h = absurd h
word-append (c ∷ s) t h = rw (h.0) (non_empty-until is_space b'\n' refl t (c ∷ s) h)

-- A printed number is one field, and one word.
plain_clean : (c : ℕ) → IsPlain c → (is_separator c ≡ false) × (is_space c ≡ false)
plain_clean c (inl e) = ground (arith, e)
plain_clean c (inr h) = ground (arith, h)

All-plain :
    (s : CStr)
    → All IsPlain s
    → All (λ x. is_separator x ≡ false) s × All (λ x. is_space x ≡ false) s
All-plain [] h = (tt, tt)
All-plain (c ∷ s) (h, hs) =
    let a = plain_clean c h in let b = All-plain s hs in ((a.0, b.0), (a.1, b.1))

pub print_int-Unstopped : (a : ℕ) → IsField (print_int a) × Unstopped is_space (print_int a)
print_int-Unstopped a = go (print_int a) (print_int_not_nil a) (All-plain _ (print_int-IsPlain a))
  where
    go :
        (s : CStr)
        → s ≢ []
        → All (λ x. is_separator x ≡ false) s × All (λ x. is_space x ≡ false) s
        → IsField s × Unstopped is_space s
    go [] ne h = absurd (ne refl)
    go (c ∷ s) ne h = h

-- `strncpy` without the NUL: what is read back goes on with what stood in the array.
pub string_in-append :
    (s array : List ℕ) (g : CStr)
    → All (λ c. (c == 0) ≡ false) s
    → string_in array ≡ some g
    → string_in (s ++ array) ≡ some (s ++ g)
unfolding string_in
string_in-append [] array g h e = e
string_in-append (c ∷ s) array g (h, hs) e = rw (h, string_in-append s array g hs e) refl

pub copied-append :
    (s array : List ℕ) (g : CStr)
    → All (λ c. (c == 0) ≡ false) s
    → length s ≤ length array
    → string_in (drop (length s) array) ≡ some g
    → copied s array ≡ some (s ++ g)
unfolding copied
copied-append s array g h room e =
    rw (le→leb _ _ room) (string_in-append s (drop (length s) array) g h e)

pub string_in-zeros : (n m : ℕ) → n < m → string_in (drop n (replicate m 0)) ≡ some []
unfolding string_in
string_in-zeros n zero h = absurd (omega (arith, h))
string_in-zeros zero (suc m) h = refl
string_in-zeros (suc n) (suc m) h = string_in-zeros n m (omega (arith, h))
