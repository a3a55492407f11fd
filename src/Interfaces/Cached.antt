-- ===== src/Interfaces/Cached.antt =====
-- The static variables of assign3/utils.c: what is looked up once is the same at every call.
use on_demand_routing.Base.{
  ◌≡◌, ◌≢◌, refl, ap, ◌⊎◌, inl, inr, ℕ, Option, none, some, List, [], ◌∷◌, CStr, arith,
}
use on_demand_routing.Odr.{Hwa}
use on_demand_routing.System.{get_self_ip}
use on_demand_routing.Interfaces.{
  Ioctls, found, get_hw_addrs, Known, get_hw_struct_head, get_self_ip_once,
}

-- What is known is what the first lookup gives.
pub record IsKnown (hs : List Hwa) (g : Known) : Type 0 where
  pub head : (g.hwa_struct_head ≡ []) ⊎ (g.hwa_struct_head ≡ hs)
  pub own : (g.self_ip_addr ≡ none) ⊎ (g.self_ip_addr ≡ get_self_ip hs)

cons-nil : (x : Hwa) (xs : List Hwa) → (x ∷ xs) ≢ []
cons-nil x xs e = grind (arith, e)

some-none : (s : CStr) → some s ≢ none
some-none s e = grind (arith, e)

module _ (k : Ioctls) (rounds : ℕ) (h : Hwa) (hs : List Hwa)
    (gives : get_hw_addrs k rounds ≡ found (h ∷ hs)) where
  head-IsKnown :
      (head : List Hwa) (own : Option CStr)
      → let g : Known = record { hwa_struct_head = head; self_ip_addr = own } in
        IsKnown (h ∷ hs) g
        → (g' : Known) × (get_hw_struct_head k rounds g ≡ some (h ∷ hs, g'))
          × (g'.self_ip_addr ≡ own)
          × (g'.hwa_struct_head ≡ h ∷ hs)
  unfolding get_hw_struct_head
  head-IsKnown [] own known =
      (record { hwa_struct_head = h ∷ hs; self_ip_addr = own }, rw gives refl, refl, refl)
  head-IsKnown (x ∷ xs) own known = elim known.head [
    | inl null ↦ absurd (cons-nil x xs null)
    | inr set ↦ (
      record { hwa_struct_head = x ∷ xs; self_ip_addr = own },
      ap (λ l. some (l, record { hwa_struct_head = x ∷ xs; self_ip_addr = own })) set,
      refl,
      set,
    )
  ]

  own-IsKnown :
      (head : List Hwa) (own : Option CStr)
      → let g : Known = record { hwa_struct_head = head; self_ip_addr = own } in
        IsKnown (h ∷ hs) g
        → (g' : Known) × (get_self_ip_once k rounds g ≡ some (get_self_ip (h ∷ hs), g'))
          × IsKnown (h ∷ hs) g'
  unfolding get_self_ip_once
  own-IsKnown head none known =
      let (g', eq, _, set) = head-IsKnown head none known in
      (
        record g' { self_ip_addr = get_self_ip (h ∷ hs) },
        rw eq refl,
        record { head = inr set; own = inr refl },
      )
  own-IsKnown head (some self_ip) known = elim known.own [
    | inl null ↦ absurd (some-none self_ip null)
    | inr set ↦ (
      record { hwa_struct_head = head; self_ip_addr = some self_ip },
      ap (λ o. some (o, record { hwa_struct_head = head; self_ip_addr = some self_ip })) set,
      known,
    )
  ]

  -- If `get_hw_addrs` finds a list that is not empty, and the static variables hold NULL or what
  -- that list gives, then `get_self_ip` with its static variable returns what the search of that
  -- list returns, whether an address is found or none, and the variables hold NULL or what the
  -- list gives afterwards.
  pub get_self_ip_once-get_self_ip :
      (g : Known)
      → IsKnown (h ∷ hs) g
      → (g' : Known) × (get_self_ip_once k rounds g ≡ some (get_self_ip (h ∷ hs), g'))
        × IsKnown (h ∷ hs) g'
  get_self_ip_once-get_self_ip g known = own-IsKnown g.hwa_struct_head g.self_ip_addr known
