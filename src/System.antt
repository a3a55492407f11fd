-- ===== src/System.antt =====
-- What the daemon asks of the system, and the interface functions of assign3/utils.c.
pub mod Unmoved
use on_demand_routing.Base.{
  ℕ, ◌+◌, Bool, true, false, Option, none, some, List, [], ◌∷◌, ◌%◌, map, CStr, codes, str_eq, fits,
  take, ◌==◌, if◌then◌else◌,
}
use on_demand_routing.Word.{inc}
use on_demand_routing.Frame.{inet_addrstrlen, hw_addr}
use on_demand_routing.Odr.{Odr, World, Hwa, Mac, Sent}
use on_demand_routing.Odr.Outcome.{
  Act, done, pure, fail, gets, modify, assert, non_null, ◌>>=◌, ◌>>◌,
}

-- `sscanf (name, "%[^:]", if_name)` into a zeroed buffer: what stands before the first colon.
unfoldable pub before_colon : CStr → CStr
before_colon [] = []
before_colon (c ∷ s) = if c == b':' then [] else c ∷ before_colon s

-- The address of the first interface whose name, less its alias, is "eth0".
unfoldable pub get_self_ip : List Hwa → Option CStr
get_self_ip [] = none
get_self_ip (curr ∷ hwa_next) =
    if str_eq (before_colon curr.if_name) (codes "eth0")
    then some curr.ip_addr
    else get_self_ip hwa_next

unfoldable pub get_hwaddr_from_int : List Hwa → ℕ → Option Mac
get_hwaddr_from_int [] interface_no = none
get_hwaddr_from_int (curr ∷ hwa_next) interface_no =
    if curr.if_index == interface_no
    then some curr.if_haddr
    else get_hwaddr_from_int hwa_next interface_no

-- The first six bytes of an address.
unfoldable pub convert_to_mac : Mac → Mac
convert_to_mac src_macaddr = map (λ b. b % 256) (take hw_addr src_macaddr)

-- `return ++broadcast_id`.
unfoldable pub get_broadcast_id : Act ℕ
get_broadcast_id = do
  modify λ s. record s { broadcast_id = inc s.broadcast_id }
  gets λ s. s.broadcast_id

module _ (w : World) where
  -- The seconds that `gettimeofday` stores.
  unfoldable pub gettimeofday : Act ℕ
  gettimeofday s = done (w.clock s.clock_reads) (record s { clock_reads = s.clock_reads + 1 })

  -- `strcpy (vmname, get_name_ip (ip))`, which asserts that the address has a name.
  unfoldable pub get_name_ip : CStr → Act CStr
  get_name_ip ip = do
    name ← non_null (w.host_name ip)
    assert (fits inet_addrstrlen name)
    pure name

  -- One `sendto`: what it sends leaves the host only if it succeeds.
  unfoldable pub sendto : Sent → Act (Unit {0})
  sendto message = do
    ok ← gets λ s. w.send_ok s.sends
    modify λ s. record s { sends = s.sends + 1 }
    if ok then (modify λ s. record s { sent = message ∷ s.sent }) else fail
