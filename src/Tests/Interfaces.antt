-- ===== src/Tests/Interfaces.antt =====
-- A system with three interfaces, one of them an alias, and the theorems on it.
use on_demand_routing.Base.{
  ℕ, ◌==◌, ◌*◌, ◌/◌, ◌<◌, ◌≡◌, refl, true, false, none, some, List, [], ◌∷◌, map, take, leb, le→leb,
  CStr, codes, if◌then◌else◌, inl, arith,
}
use on_demand_routing.Odr.{Hwa}
use on_demand_routing.System.{get_self_ip}
use on_demand_routing.Machine.{machine}
use on_demand_routing.Interfaces.{
  Ifreq, listed, Ioctls, found, grow, get_hw_addrs, hwa_list, hwa_of, Known, get_self_ip_once,
  ifreq_size, inet_ntop, ifindex,
}
use on_demand_routing.Interfaces.Freeing.{Block, Heap, free_hwa_info, Frees, free_hwa_info-Frees}
use on_demand_routing.Interfaces.Growing.{IsListing}
use on_demand_routing.Interfaces.Listed.{address_of, get_hw_addrs-found}
use on_demand_routing.Interfaces.Aliases.{Adjacent, IsMarked, IsByName, hwa_list-Adjacent}
use on_demand_routing.Interfaces.Cached.{IsKnown, get_self_ip_once-get_self_ip}

-- A union that holds an address: family and port, four bytes, and zeros.
abbrev inet_union : ℕ → List ℕ
inet_union last = 2 ∷ 0 ∷ 0 ∷ 0 ∷ 10 ∷ 0 ∷ 0 ∷ last ∷ 0 ∷ 0 ∷ 0 ∷ 0 ∷ 0 ∷ 0 ∷ 0 ∷ 0 ∷ []

abbrev three : List Ifreq
three =
    record { ifr_name = codes "eth1"; ifr_ifru = inet_union 7 }
    ∷ record { ifr_name = codes "eth1:1"; ifr_ifru = inet_union 8 }
    ∷ record { ifr_name = codes "eth0"; ifr_ifru = inet_union 2 }
    ∷ []

-- The last letter of a name makes its address and its index.
abbrev letters : CStr → ℕ
letters [] = 0
letters (c ∷ []) = c
letters (c ∷ d ∷ s) = letters (d ∷ s)

abbrev linux : Ioctls
linux = record {
  siocgifconf = λ call len.
      if leb (3 * ifreq_size) len then listed three else listed (take (len / ifreq_size) three);
  siocgifhwaddr = λ name u. some (1 ∷ 0 ∷ 0 ∷ 12 ∷ 41 ∷ 0 ∷ 0 ∷ letters name ∷ []);
  siocgifindex = λ name u. some (letters name ∷ 0 ∷ 0 ∷ 0 ∷ []);
}

above-leb : (a b : ℕ) → b < a → leb a b ≡ false
above-leb a b h = ground (arith, h)

linux-IsListing : IsListing linux three true
linux-IsListing = record {
  enough = λ call len h. rw (le→leb 120 len h) refl;
  short = λ call len h. rw (above-leb 120 len h) refl;
}

linux-IsByName : IsByName linux
linux-IsByName = record {
  haddr = λ name. (1 ∷ 0 ∷ 0 ∷ 12 ∷ 41 ∷ 0 ∷ 0 ∷ letters name ∷ [], λ u. refl);
  index = λ name. (letters name ∷ 0 ∷ 0 ∷ 0 ∷ [], λ u. refl);
}

get_hw_addrs-found_example :
    (hs : List Hwa) × (get_hw_addrs linux 2 ≡ found hs)
    × (map (λ h. h.if_name) hs ≡ map (λ item. item.ifr_name) three)
    × (get_self_ip hs ≡ address_of (codes "eth0") three)
get_hw_addrs-found_example =
    get_hw_addrs-found linux three true 2 linux-IsListing (refl, (refl, (refl, tt))) (omega arith)
      (omega arith) (omega arith)

hwa_list-Adjacent_example : Adjacent IsMarked (hwa_list linux [] three)
hwa_list-Adjacent_example =
    hwa_list-Adjacent linux linux-IsByName [] three (refl, (refl, (refl, tt)))

-- The node's own address is that of eth0, though it is listed last.
own_of_three : get_self_ip (hwa_list linux [] three) ≡ some (codes "10.0.0.2")
unfolding machine hwa_list hwa_of inet_ntop ifindex
own_of_three = refl

abbrev first_hwa : Hwa
unfolding machine
first_hwa = record {
  if_name = codes "eth1";
  if_haddr = 0 ∷ 12 ∷ 41 ∷ 0 ∷ 0 ∷ 49 ∷ [];
  if_index = 49;
  ip_alias = 0;
  ip_addr = codes "10.0.0.7";
}

abbrev more_hwa : List Hwa
more_hwa =
    record {
      if_name = codes "eth1:1";
      if_haddr = 0 ∷ 12 ∷ 41 ∷ 0 ∷ 0 ∷ 49 ∷ [];
      if_index = 49;
      ip_alias = 1;
      ip_addr = codes "10.0.0.8";
    }
    ∷ record {
      if_name = codes "eth0";
      if_haddr = 0 ∷ 12 ∷ 41 ∷ 0 ∷ 0 ∷ 48 ∷ [];
      if_index = 48;
      ip_alias = 0;
      ip_addr = codes "10.0.0.2";
    }
    ∷ []

linux_gives : get_hw_addrs linux 2 ≡ found (first_hwa ∷ more_hwa)
unfolding machine get_hw_addrs grow hwa_list hwa_of inet_ntop ifindex
linux_gives = refl

abbrev nothing_known : Known
nothing_known = record { hwa_struct_head = []; self_ip_addr = none }

get_self_ip_once-get_self_ip_example :
    (g : Known) × (get_self_ip_once linux 2 nothing_known
      ≡ some (get_self_ip (first_hwa ∷ more_hwa), g))
    × IsKnown (first_hwa ∷ more_hwa) g
get_self_ip_once-get_self_ip_example =
    get_self_ip_once-get_self_ip linux 2 first_hwa more_hwa linux_gives nothing_known
      (record { head = inl refl; own = inl refl })

-- A list of two interfaces.
abbrev two_blocks : Heap
two_blocks = record {
  hwa = λ p.
      if p == 1
      then some (record { ip_addr = 7; hwa_next = some 2 })
      else if p == 2
      then some (record { ip_addr = 8; hwa_next = none })
      else none;
  addr = λ a. true;
}

abbrev both : List (ℕ × Block)
both =
    (1, record { ip_addr = 7; hwa_next = some 2 })
    ∷ (2, record { ip_addr = 8; hwa_next = none })
    ∷ []

free_hwa_info-Frees_example :
    (t : Heap) × (free_hwa_info 2 (some 1) two_blocks ≡ some t) × Frees both two_blocks t
free_hwa_info-Frees_example =
    free_hwa_info-Frees 2 (some 1) two_blocks both (refl, refl, refl, (refl, refl, refl, refl))
      (((refl, refl, refl, refl), tt), (tt, tt)) (omega arith)
