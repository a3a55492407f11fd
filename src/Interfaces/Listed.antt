-- ===== src/Interfaces/Listed.antt =====
-- The list that get_hw_addrs makes, against the interfaces that the system listed.
use on_demand_routing.Base.{
  ℕ, zero, suc, ◌+◌, ◌*◌, ◌≤◌, ◌<◌, ◌^◌, ◌≡◌, refl, ap, Bool, true, Option, none, some, List, [],
  ◌∷◌, map, length, take, drop, All, CStr, codes, str_eq, fits, if◌then◌else◌, arith,
}
use on_demand_routing.Odr.{Hwa}
use on_demand_routing.System.{before_colon, get_self_ip}
use on_demand_routing.Interfaces.{
  Ifreq, Ioctls, found, hwa_of, hwa_list, get_hw_addrs, inet_ntop, if_name_size,
}
use on_demand_routing.Interfaces.Growing.{IsListing, grow-found}

-- The address of the first interface with a name, less its alias.
abbrev pub address_of : CStr → List Ifreq → Option CStr
address_of name [] = none
address_of name (item ∷ items) =
    if str_eq (before_colon item.ifr_name) name
    then some (inet_ntop (drop 4 item.ifr_ifru))
    else address_of name items

-- Names that fit into their arrays.
abbrev pub Named : List Ifreq → Type 0
Named ifs = All (λ item. fits if_name_size item.ifr_name ≡ true) ifs

pub take-fits : (n : ℕ) (s : CStr) → length s ≤ n → take n s ≡ s
take-fits zero [] h = refl
take-fits zero (c ∷ s) h = absurd (omega (arith, h))
take-fits (suc n) [] h = refl
take-fits (suc n) (c ∷ s) h = ap (λ t. c ∷ t) (take-fits n s (omega (arith, h)))

pub whole_name : (s : CStr) → fits if_name_size s ≡ true → take 15 s ≡ s
whole_name s h = take-fits 15 s (ground (arith, h))

module _ (k : Ioctls) where
  hwa_list-names :
      (last : CStr) (ifs : List Ifreq)
      → Named ifs
      → map (λ h. h.if_name) (hwa_list k last ifs) ≡ map (λ item. item.ifr_name) ifs
  unfolding hwa_list hwa_of
  hwa_list-names last [] h = refl
  hwa_list-names last (item ∷ ifs) (h, hs) =
      rw (whole_name item.ifr_name h, hwa_list-names (before_colon item.ifr_name) ifs hs) refl

  hwa_list-address :
      (last : CStr) (ifs : List Ifreq)
      → Named ifs
      → get_self_ip (hwa_list k last ifs) ≡ address_of (codes "eth0") ifs
  unfolding hwa_list hwa_of get_self_ip
  hwa_list-address last [] h = refl
  hwa_list-address last (item ∷ ifs) (h, hs) =
      rw (whole_name item.ifr_name h, hwa_list-address (before_colon item.ifr_name) ifs hs) refl

  -- If the system lists all its interfaces, fewer than 2 ^ 24, into a buffer that is large enough,
  -- and either as many as fit into a smaller one or refuses it with EINVAL, and every name fits
  -- into its array, then the loop of `get_hw_addrs` ends within `rounds` rounds, two at least, if
  -- there are at most `rounds * 10 + 80` interfaces: it finds every interface, in order and by its
  -- name, and `get_self_ip` of the list is the address of the first one whose name up to a colon
  -- is eth0.
  pub get_hw_addrs-found :
      (all : List Ifreq) (truncates : Bool) (rounds : ℕ)
      → IsListing k all truncates
      → Named all
      → length all < 2 ^ 24
      → 2 ≤ rounds
      → length all ≤ rounds * 10 + 80
      → (hs : List Hwa) × (get_hw_addrs k rounds ≡ found hs)
        × (map (λ h. h.if_name) hs ≡ map (λ item. item.ifr_name) all)
        × (get_self_ip hs ≡ address_of (codes "eth0") all)
  unfolding get_hw_addrs
  get_hw_addrs-found all truncates rounds l named small two fuel = (
    hwa_list k [] all,
    rw (grow-found k all truncates l small rounds two fuel) refl,
    hwa_list-names [] all named,
    hwa_list-address [] all named,
  )
