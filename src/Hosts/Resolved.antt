-- ===== src/Hosts/Resolved.antt =====
-- The addresses of hosts, with a resolver that answers with the bytes of addresses.
use on_demand_routing.Base.{
  ℕ, zero, suc, ◌+◌, ◌<◌, ◌≡◌, refl, Option, none, some, List, [], ◌∷◌, take, CStr, lt→ltb, arith,
  ap, ◌∙◌, ◌++◌, codes,
}
use on_demand_routing.Frame.{inet_addrstrlen}
use on_demand_routing.Decimal.{print_int, digits}
use on_demand_routing.Interfaces.{inet_ntop}
use on_demand_routing.Interfaces.Addresses.{IsAddress, inet_ntop-IsText, length-byte}
use on_demand_routing.Interfaces.Listed.{take-fits}
use on_demand_routing.Hosts.{
  get_canonical_ip, with_host, Host, vm_name, hosts_from, construct_name_to_ip_table,
}

-- A name is not found, or it has at least one address.
abbrev pub Answers : Option (List (List ℕ)) → Type 0
Answers none = Unit
Answers (some []) = ⊥
Answers (some (addr ∷ addrs)) = IsAddress addr

-- The entry of a name: the text of its first address, if it has one.
abbrev pub host_of : CStr → Option (List (List ℕ)) → List Host
host_of name (some (addr ∷ addrs)) = record { name = name; ip = inet_ntop addr } ∷ []
host_of name _ = []

-- The hosts among some names, in their order.
abbrev pub hosts_of : (CStr → Option (List (List ℕ))) → List CStr → List Host
hosts_of resolve [] = []
hosts_of resolve (name ∷ names) = host_of name (resolve name) ++ hosts_of resolve names

abbrev pub ten_names : List CStr
ten_names =
    codes "vm1"
    ∷ codes "vm2"
    ∷ codes "vm3"
    ∷ codes "vm4"
    ∷ codes "vm5"
    ∷ codes "vm6"
    ∷ codes "vm7"
    ∷ codes "vm8"
    ∷ codes "vm9"
    ∷ codes "vm10"
    ∷ []

abbrev names_from : (count i : ℕ) → List CStr
names_from zero i = []
names_from (suc count) i = vm_name i ∷ names_from count (suc i)

ten_names_lem : names_from 10 1 ≡ ten_names
unfolding print_int digits
ten_names_lem = refl

module _ (gethostbyname : CStr → Option (List (List ℕ)))
    (resolves : (name : CStr) → Answers (gethostbyname name)) where
  whole_ip :
      (addr : List ℕ) → IsAddress addr → take inet_addrstrlen (inet_ntop addr) ≡ inet_ntop addr
  whole_ip addr h =
      take-fits 16 (inet_ntop addr)
        (omega (arith, (inet_ntop-IsText addr inet_addrstrlen h (omega arith) (omega arith)).3))

  whole_vm : (i : ℕ) → i < 256 → take 10 (vm_name i) ≡ vm_name i
  whole_vm i h = take-fits 10 (vm_name i) (omega (arith, length-byte i h))

  with_host-host_of :
      (i : ℕ)
      → i < 256
      → (hosts : List Host) (o : Option (List (List ℕ))) → Answers o
      → (ip : Option CStr) × (get_canonical_ip inet_addrstrlen o ≡ some ip)
        × (with_host gethostbyname (vm_name i) ip hosts ≡ host_of (vm_name i) o ++ hosts)
  unfolding get_canonical_ip
  with_host-host_of i h hosts none answers = (none, refl, refl)
  with_host-host_of i h hosts (some []) answers = absurd answers
  with_host-host_of i h hosts (some (addr ∷ addrs)) answers = (
    some (inet_ntop addr),
    rw (lt→ltb _ _ (inet_ntop-IsText addr inet_addrstrlen answers (omega arith) (omega arith)).3)
        refl,
    rw (whole_vm i h, whole_ip addr answers) refl,
  )

  hosts_from-hosts_of :
      (count i : ℕ)
      → count + i < 256
      → hosts_from gethostbyname count i ≡ some (hosts_of gethostbyname (names_from count i))
  unfolding hosts_from
  hosts_from-hosts_of zero i h = refl
  hosts_from-hosts_of (suc count) i h =
      let hosts = hosts_of gethostbyname (names_from count (suc i)) in
      let (ip, one, same) =
        with_host-host_of i (omega (arith, h)) hosts (gethostbyname (vm_name i))
          (resolves (vm_name i)) in
      rw (one, hosts_from-hosts_of count (suc i) (omega (arith, h)), same) refl

  -- If `gethostbyname` answers each name with an error or with a list of addresses of four bytes,
  -- one at least, then `construct_name_to_ip_table` makes exactly this table: for each of the
  -- names vm1 to vm10, in this order, that `gethostbyname` has an answer for, one entry with the
  -- name and the text of the first address of the answer.
  pub construct_name_to_ip_table-hosts_of :
      construct_name_to_ip_table gethostbyname ≡ some (hosts_of gethostbyname ten_names)
  unfolding construct_name_to_ip_table
  construct_name_to_ip_table-hosts_of =
      hosts_from-hosts_of 10 1 (omega arith)
      ∙ ap (λ names. some (hosts_of gethostbyname names)) ten_names_lem
