-- ===== src/Interfaces/Aliases.antt =====
-- Which interfaces get_hw_addrs marks as aliases.
use on_demand_routing.Base.{
  ℕ, ◌≤◌, ◌≡◌, refl, ap, sym, ◌∙◌, ◌↔◌, true, some, List, [], ◌∷◌, length, take, drop, CStr, str_eq,
  str_eq→eq, eq→str_eq, fits, ◌==◌, Bool-cases, inl, inr, arith,
}
use on_demand_routing.Frame.{hw_addr}
use on_demand_routing.Odr.{Hwa}
use on_demand_routing.System.{before_colon}
use on_demand_routing.Interfaces.{
  Ifreq, Ioctls, hwa_of, hwa_list, if_name_size, union_after, ifindex,
}
use on_demand_routing.Interfaces.Listed.{Named, take-fits, whole_name}

-- What holds of each two neighbours in a list.
abbrev pub Adjacent : {A : Type 0} → (A → A → Type 0) → List A → Type 0
Adjacent R [] = Unit
Adjacent R (x ∷ []) = Unit
Adjacent R (x ∷ y ∷ xs) = R x y × Adjacent R (y ∷ xs)

-- The calls for a name succeed, and what they give depends on the name only.
pub record IsByName (k : Ioctls) : Type 0 where
  pub haddr : (name : CStr) → (m : List ℕ) × ((u : List ℕ) → k.siocgifhwaddr name u ≡ some m)
  pub index : (name : CStr) → (m : List ℕ) × ((u : List ℕ) → k.siocgifindex name u ≡ some m)

-- The second is marked if and only if it has the name of the first, up to a colon, and then it
-- has its hardware address and its index.
abbrev pub IsMarked : Hwa → Hwa → Type 0
IsMarked g h =
    ((h.ip_alias ≡ 1) ↔ (before_colon h.if_name ≡ before_colon g.if_name))
    × (h.ip_alias ≡ 1 → (h.if_haddr ≡ g.if_haddr) × (h.if_index ≡ g.if_index))

length-before_colon : (s : CStr) → length (before_colon s) ≤ length s
unfolding before_colon
length-before_colon [] = omega arith
length-before_colon (c ∷ s) = elim (Bool-cases (c == b':')) [
  | inl colon ↦ rw colon (omega arith)
  | inr other ↦ rw other (omega (arith, length-before_colon s))
]

whole_base :
    (s : CStr) → fits if_name_size s ≡ true → take if_name_size (before_colon s) ≡ before_colon s
whole_base s h = take-fits 16 (before_colon s) (ground (arith, h, length-before_colon s))

module _ (k : Ioctls) (b : IsByName k) where
  abbrev haddr_union : CStr → List ℕ → List ℕ
  haddr_union name u = union_after (k.siocgifhwaddr name u) u

  abbrev index_union : CStr → List ℕ → List ℕ
  index_union name u = union_after (k.siocgifindex name u) u

  same_haddr : (name : CStr) (u v : List ℕ) → haddr_union name u ≡ haddr_union name v
  same_haddr name u v = rw ((b.haddr name).1 u, (b.haddr name).1 v) refl

  same_index : (name : CStr) (u v : List ℕ) → index_union name u ≡ index_union name v
  same_index name u v = rw ((b.index name).1 u, (b.index name).1 v) refl

  neighbours-IsMarked :
      (last : CStr) (first second : Ifreq)
      → fits if_name_size first.ifr_name ≡ true
      → fits if_name_size second.ifr_name ≡ true
      → IsMarked (hwa_of k last first) (hwa_of k (before_colon first.ifr_name) second)
  unfolding hwa_of
  neighbours-IsMarked last first second f s =
      let base_1 = before_colon first.ifr_name in
      let base_2 = before_colon second.ifr_name in
      let u_1 = first.ifr_ifru in
      let u_2 = second.ifr_ifru in
      rw
        (
          whole_name first.ifr_name f,
          whole_name second.ifr_name s,
          whole_base first.ifr_name f,
          whole_base second.ifr_name s,
        )
        (elim (Bool-cases (str_eq base_1 base_2)) [
          | inl same ↦
              let eq = str_eq→eq base_1 base_2 same in
              rw same (
                (λ _. sym eq, λ _. refl),
                λ _. (
                  ap (λ u. take hw_addr (drop 2 u))
                      (same_haddr base_2 u_2 u_1 ∙ ap (λ name. haddr_union name u_1) (sym eq)),
                  ap ifindex (
                      same_index base_2 (haddr_union base_2 u_2) (haddr_union base_1 u_1)
                      ∙ ap (λ name. index_union name (haddr_union base_1 u_1)) (sym eq)),
                ),
              )
          | inr other ↦ rw other (
            (
              λ e. absurd (omega (arith, e)),
              λ e. absurd (ground (arith, other, eq→str_eq base_1 base_2 (sym e))),
            ),
            λ e. absurd (omega (arith, e)),
          )
        ])

  -- If the calls for the hardware address and the index succeed and depend on the name only, and
  -- every name fits into its array, then in the list that `get_hw_addrs` makes an interface is
  -- marked as an alias if and only if it has the same name, up to a colon, as the one before it,
  -- and an alias has the hardware address and the index of the one before it. This holds of each
  -- two neighbours.
  pub hwa_list-Adjacent :
      (last : CStr) (ifs : List Ifreq) → Named ifs → Adjacent IsMarked (hwa_list k last ifs)
  unfolding hwa_list
  hwa_list-Adjacent last [] h = tt
  hwa_list-Adjacent last (item ∷ []) h = tt
  hwa_list-Adjacent last (item ∷ next ∷ ifs) (h, hs) = (
    neighbours-IsMarked last item next h hs.0,
    hwa_list-Adjacent (before_colon item.ifr_name) (next ∷ ifs) hs,
  )
