-- ===== src/Interfaces.antt =====
-- The list of the node's interfaces: get_hw_addrs, Get_hw_struct_head and get_self_ip of
-- assign3/utils.c, on what the `ioctl` calls of the system give.
pub mod Growing
pub mod Freeing
pub mod Addresses
pub mod Listed
pub mod Aliases
pub mod Cached
use on_demand_routing.Base.{
  ℕ, zero, suc, ◌+◌, ◌*◌, ◌^◌, ◌%◌, Bool, true, false, not, ◌||◌, Option, none, some, List, [], ◌∷◌,
  ◌++◌, length, take, drop, CStr, str_eq, ◌==◌, if◌then◌else◌,
}
use on_demand_routing.Word.{word_mod}
use on_demand_routing.Decimal.{print_int}
use on_demand_routing.Frame.{hw_addr}
use on_demand_routing.Odr.{Hwa}
use on_demand_routing.System.{before_colon, get_self_ip}

-- `IF_NAME`, and `sizeof (struct ifreq)` on a 64-bit host.
abbrev pub if_name_size : ℕ
if_name_size = 16

abbrev pub ifreq_size : ℕ
ifreq_size = 40

-- `struct ifreq`: the name, and the bytes of the union, which hold the address, then the hardware
-- address, then the index.
pub record Ifreq : Type 0 where
  pub ifr_name : CStr
  pub ifr_ifru : List ℕ

-- How `ioctl` ends on `SIOCGIFCONF`: with the interfaces that it wrote into the buffer, or with an
-- error, which is `EINVAL` or another one.
pub data Reply : Type 0 where
  listed : List Ifreq → Reply
  refused : Bool → Reply

-- The system's answers: the n-th call for the list with a buffer of so many bytes, and the union
-- after a call for a name that succeeds.
pub record Ioctls : Type 0 where
  pub siocgifconf : ℕ → ℕ → Reply
  pub siocgifhwaddr : CStr → List ℕ → Option (List ℕ)
  pub siocgifindex : CStr → List ℕ → Option (List ℕ)

-- The loop found a list, the process was stopped by `err_sys`, or the rounds were not enough.
pub data Growth (A : Type 0) : Type 0 where
  found : A → Growth A
  stopped : Growth A
  unfinished : Growth A

-- `inet_ntop` of the four bytes of an address, and the `int` at the start of the union.
unfoldable pub inet_ntop : List ℕ → CStr
inet_ntop (a ∷ b ∷ c ∷ d ∷ _) =
    print_int a ++ (b'.' ∷ (print_int b ++ (b'.' ∷ (print_int c ++ (b'.' ∷ print_int d)))))
inet_ntop _ = []

unfoldable pub ifindex : List ℕ → ℕ
ifindex (a ∷ b ∷ c ∷ d ∷ _) = a + b * 2 ^ 8 + c * 2 ^ 16 + d * 2 ^ 24
ifindex _ = 0

-- The union after a call: one that fails is reported and leaves it alone.
abbrev pub union_after : Option (List ℕ) → List ℕ → List ℕ
union_after none before = before
union_after (some after) before = after

-- `ifc_len`.
abbrev pub bytes_of : List Ifreq → ℕ
bytes_of ifs = length ifs * ifreq_size

-- One round of the loop: `longer` is the loop with a longer buffer, from the last length on.
abbrev pub round : Reply → ℕ → (ℕ → Growth (List Ifreq)) → Growth (List Ifreq)
round (listed ifs) lastlen longer =
    if bytes_of ifs == lastlen then found ifs else longer (bytes_of ifs)
round (refused einval) lastlen longer =
    if not einval || not (lastlen == 0) then stopped else longer lastlen

module _ (k : Ioctls) where
  -- The loop ends when two calls give lists of the same length.
  unfoldable pub grow : (rounds call len lastlen : ℕ) → Growth (List Ifreq)
  grow zero call len lastlen = unfinished
  grow (suc rounds) call len lastlen =
      round (k.siocgifconf call len) lastlen
        (grow rounds (suc call) ((len + 10 * ifreq_size) % word_mod))

  -- One round of the loop over the interfaces; `lastname` is the name of the one before.
  unfoldable pub hwa_of : CStr → Ifreq → Hwa
  hwa_of lastname item =
      let name = before_colon item.ifr_name in
      let with_haddr = union_after (k.siocgifhwaddr name item.ifr_ifru) item.ifr_ifru in
      let with_index = union_after (k.siocgifindex name with_haddr) with_haddr in
      record {
        if_name = take 15 item.ifr_name;
        if_haddr = take hw_addr (drop 2 with_haddr);
        if_index = ifindex with_index;
        ip_alias = if str_eq (take if_name_size lastname) (take if_name_size name) then 1 else 0;
        ip_addr = inet_ntop (drop 4 item.ifr_ifru);
      }

  unfoldable pub hwa_list : CStr → List Ifreq → List Hwa
  hwa_list lastname [] = []
  hwa_list lastname (item ∷ items) =
      hwa_of lastname item ∷ hwa_list (before_colon item.ifr_name) items

  abbrev pub described : Growth (List Ifreq) → Growth (List Hwa)
  described (found ifs) = found (hwa_list [] ifs)
  described stopped = stopped
  described unfinished = unfinished

  unfoldable pub get_hw_addrs : ℕ → Growth (List Hwa)
  get_hw_addrs rounds = described (grow rounds 0 (100 * ifreq_size) 0)

-- `hwa_struct_head` and `self_ip_addr`: what the process has found out. `[]` and `none` are NULL.
pub record Known : Type 0 where
  pub hwa_struct_head : List Hwa
  pub self_ip_addr : Option CStr

module _ (k : Ioctls) (rounds : ℕ) where
  -- `none` if the process was ended.
  abbrev pub head_from : Growth (List Hwa) → Known → Option (List Hwa × Known)
  head_from (found (h ∷ hs)) g = some (h ∷ hs, record g { hwa_struct_head = h ∷ hs })
  head_from _ g = none

  unfoldable pub get_hw_struct_head : Known → Option (List Hwa × Known)
  get_hw_struct_head g =
      let asked = head_from (get_hw_addrs k rounds) g in
      elim g.hwa_struct_head [ [] ↦ asked | h ∷ hs ↦ some (h ∷ hs, g) ]

  abbrev pub own_from : Option (List Hwa × Known) → Option (Option CStr × Known)
  own_from none = none
  own_from (some (curr, g)) = some (get_self_ip curr, record g { self_ip_addr = get_self_ip curr })

  -- `get_self_ip` with its static variable.
  unfoldable pub get_self_ip_once : Known → Option (Option CStr × Known)
  get_self_ip_once g =
      let looked_up = own_from (get_hw_struct_head g) in
      elim g.self_ip_addr [ none ↦ looked_up | some self_ip ↦ some (some self_ip, g) ]
