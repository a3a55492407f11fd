-- ===== src/Network/Messages.antt =====
-- The frames of an exchange between two neighbours are well-formed.
use on_demand_routing.Base.{ℕ, ◌<◌, ◌≡◌, true, some, List, [], ◌∷◌, All, CStr, fits, ltb→lt, arith}
use on_demand_routing.Word.{word_mod, IsWord, inc}
use on_demand_routing.Frame.{IsFrame, inet_addrstrlen, payload_size}
use on_demand_routing.Odr.{World, Mac}
use on_demand_routing.System.{get_hwaddr_from_int}
use on_demand_routing.Routes.{is_nil}
use on_demand_routing.Transmit.Delivery.{IsHealthy}
use on_demand_routing.Handler.Peer.{SendParams}
use on_demand_routing.Handler.Requests.{answer_to}
use on_demand_routing.Handler.Discovery.{request_for, parked_for}

-- A healthy node with an address that fits, and its interface to the other one.
pub record IsStation (w : World) (ip : CStr) (intf_n : ℕ) (mac : Mac) : Type 0 where
  pub healthy : IsHealthy w ip
  pub address_fits : fits inet_addrstrlen ip ≡ true
  pub linked : get_hwaddr_from_int w.interfaces intf_n ≡ some mac

-- A message that fits, with numbers that are ints.
pub record IsMessage (sp : SendParams) : Type 0 where
  pub msg : fits payload_size sp.msg ≡ true
  pub destport : IsWord sp.destport
  pub route_disc_flag : IsWord sp.route_disc_flag

pub nil-All : (P : ℕ → Type 0) (ps : List ℕ) → is_nil ps ≡ true → All P ps
nil-All P [] e = tt
nil-All P (p ∷ ps) e = cc

inc_word : (a : ℕ) → inc a < word_mod
unfolding inc
inc_word a = omega arith

pub request-IsFrame :
    (bid port : ℕ) (ip : CStr) (sp : SendParams)
    → IsWord port
    → IsWord sp.destport
    → IsWord sp.route_disc_flag
    → fits inet_addrstrlen ip ≡ true
    → fits inet_addrstrlen sp.destip ≡ true
    → IsFrame (request_for (inc bid) port ip sp)
request-IsFrame bid port ip sp p d r own to = record {
  frame_type = omega arith;
  broadcast_id = inc_word bid;
  hop_count = omega arith;
  payload_len = omega arith;
  route_disc_flag = r;
  src_port = p;
  dst_port = d;
  dest_ip = ltb→lt _ _ to;
  src_ip = ltb→lt _ _ own;
  payload = omega arith;
}

pub reply-IsFrame :
    (bid port : ℕ) (id : ℕ) (ip : CStr) (sp : SendParams)
    → IsWord port
    → IsWord sp.destport
    → fits inet_addrstrlen ip ≡ true
    → fits inet_addrstrlen sp.destip ≡ true
    → IsFrame (answer_to (request_for bid port ip sp) (inc id) 0)
reply-IsFrame bid port id ip sp p d own to = record {
  frame_type = omega arith;
  broadcast_id = inc_word id;
  hop_count = omega arith;
  payload_len = omega arith;
  route_disc_flag = omega arith;
  src_port = d;
  dst_port = p;
  dest_ip = ltb→lt _ _ own;
  src_ip = ltb→lt _ _ to;
  payload = omega arith;
}

pub parked-IsFrame :
    (bid port : ℕ) (ip : CStr) (sp : SendParams)
    → IsWord port
    → IsWord sp.destport
    → fits payload_size sp.msg ≡ true
    → fits inet_addrstrlen ip ≡ true
    → fits inet_addrstrlen sp.destip ≡ true
    → IsFrame (parked_for (inc bid) port ip sp)
parked-IsFrame bid port ip sp p d m own to = record {
  frame_type = omega arith;
  broadcast_id = omega arith;
  hop_count = inc_word bid;
  payload_len = omega arith;
  route_disc_flag = omega arith;
  src_port = p;
  dst_port = d;
  dest_ip = ltb→lt _ _ to;
  src_ip = ltb→lt _ _ own;
  payload = ltb→lt _ _ m;
}
