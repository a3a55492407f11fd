-- ===== src/Hosts.antt =====
-- Host names and addresses: get_canonical_ip and construct_name_to_ip_table of assign3/utils.c.
-- What `gethostbyname` gives for a name, the list of its addresses, is a parameter. `none` around a
-- result is a failed assertion, or a string that overflows its array.
pub mod Resolved
use on_demand_routing.Base.{
  ℕ, zero, suc, ◌+◌, ◌-◌, Option, none, some, List, [], ◌∷◌, ◌++◌, CStr, codes, fits, take,
  if◌then◌else◌,
}
use on_demand_routing.Decimal.{print_int}
use on_demand_routing.Frame.{inet_addrstrlen}
use on_demand_routing.Message.{◌>>=◌, guard}
use on_demand_routing.Interfaces.{inet_ntop}

-- The address that is copied to an array of `size` bytes; `some none` is the code's -1.
unfoldable pub get_canonical_ip : ℕ → Option (List (List ℕ)) → Option (Option CStr)
get_canonical_ip size none = some none
get_canonical_ip size (some []) = none
get_canonical_ip size (some (addr ∷ addrs)) =
    if fits size (inet_ntop addr) then some (some (inet_ntop addr)) else none

-- `name_to_ip_t`.
pub record Host : Type 0 where
  pub name : CStr
  pub ip : CStr

abbrev pub vm_name : ℕ → CStr
vm_name i = codes "vm" ++ print_int i

module _ (gethostbyname : CStr → Option (List (List ℕ))) where
  abbrev pub with_host : CStr → Option CStr → List Host → List Host
  with_host buf none hosts = hosts
  with_host buf (some ip) hosts =
      record { name = take 10 buf; ip = take inet_addrstrlen ip } ∷ hosts

  -- The entries for the numbers from `i` on, so many of them, in order.
  unfoldable pub hosts_from : (count i : ℕ) → Option (List Host)
  hosts_from zero i = some []
  hosts_from (suc count) i = get_canonical_ip inet_addrstrlen (gethostbyname (vm_name i)) >>= λ ip.
      hosts_from count (suc i) >>= λ hosts. some (with_host (vm_name i) ip hosts)

  -- From an empty table.
  unfoldable pub construct_name_to_ip_table : Option (List Host)
  construct_name_to_ip_table = hosts_from 10 1
