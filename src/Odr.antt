-- ===== src/Odr.antt =====
-- The state of the routing daemon (the globals of assign3/odr.h and the static counters of
-- assign3/utils.c and assign3/odr_and.c), and its functions as actions on that state.
pub mod Outcome
pub mod Ensures
pub mod Keeps
use on_demand_routing.Base.{ℕ, Bool, Option, List, CStr}
use on_demand_routing.Frame.{Frame}

-- An Ethernet address, as its bytes.
abbrev pub Mac : Type 0
Mac = List ℕ

-- `struct hwa_info`; the interface's IP address as the text that `inet_ntop` makes of it.
pub record Hwa : Type 0 where
  pub if_name : CStr
  pub if_haddr : Mac
  pub if_index : ℕ
  pub ip_alias : ℕ
  pub ip_addr : CStr

-- What the daemon asks of the system: the seconds at the n-th call of `gettimeofday`, whether
-- the n-th `sendto` succeeds, the name that `gethostbyaddr` gives an address, and the interfaces.
pub record World : Type 0 where
  pub clock : ℕ → ℕ
  pub send_ok : ℕ → Bool
  pub host_name : CStr → Option CStr
  pub interfaces : List Hwa

-- `map_port_sp_t`.
pub record MapEntry : Type 0 where
  pub ts : ℕ
  pub portno : ℕ
  pub sun_path : CStr

-- `r_entry_t`.
pub record Route : Type 0 where
  pub destip : CStr
  pub next_hop : Mac
  pub if_no : ℕ
  pub no_hops : ℕ
  pub broadcast_id : ℕ
  pub timestamp : ℕ

-- The routing table: the entry at each address that `calloc` has given out, the addresses that
-- are linked from `routing_table_head`, in order, and the next address to give out.
pub record Table : Type 0 where
  pub entry : ℕ → Route
  pub order : List ℕ
  pub fresh : ℕ

-- `pending_msgs_t`.
pub record Pending : Type 0 where
  pub destip : CStr
  pub odrframe : Frame

-- A frame on the wire, with its Ethernet header, or a datagram to a local process.
pub data Sent : Type 0 where
  raw : (src_mac dest_mac : Mac) (if_index : ℕ) → Frame → Sent
  local : (sun_path text : CStr) → Sent

pub record Odr : Type 0 where
  pub ports : List MapEntry
  pub routes : Table
  pub pending : List Pending
  pub broadcast_id : ℕ
  pub portno : ℕ
  pub stale_param : ℕ
  pub clock_reads : ℕ
  pub sends : ℕ
  pub sent : List Sent
