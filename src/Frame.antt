-- ===== src/Frame.antt =====
-- `odr_frame_t` of assign3/odr.h, and the byte-order conversions of assign3/odr_functions.c.
-- The three `char` arrays are C strings, which fit their arrays in a well-formed frame.
pub mod Conversion
use on_demand_routing.Base.{ℕ, ◌<◌, CStr, length}
use on_demand_routing.Word.{IsWord}
use on_demand_routing.Word.Swap.{htonl, ntohl}

-- `INET_ADDRSTRLEN`, `PAYLOAD_SIZE` and `HWADDR`.
abbrev pub inet_addrstrlen : ℕ
inet_addrstrlen = 16

abbrev pub payload_size : ℕ
payload_size = 1440

abbrev pub hw_addr : ℕ
hw_addr = 6

-- `__RREQ`, `__RREP`, `__DATA` and `__ASENT`.
abbrev pub type_rreq : ℕ
type_rreq = 1

abbrev pub type_rrep : ℕ
type_rrep = 2

abbrev pub type_data : ℕ
type_data = 3

abbrev pub type_asent : ℕ
type_asent = 4

pub record Frame : Type 0 where
  pub frame_type : ℕ
  pub broadcast_id : ℕ
  pub hop_count : ℕ
  pub payload_len : ℕ
  pub route_disc_flag : ℕ
  pub src_port : ℕ
  pub dst_port : ℕ
  pub dest_ip : CStr
  pub src_ip : CStr
  pub payload : CStr

-- Every `int` is a 32-bit pattern and every string fits its array.
pub record IsFrame (f : Frame) : Type 0 where
  pub frame_type : IsWord f.frame_type
  pub broadcast_id : IsWord f.broadcast_id
  pub hop_count : IsWord f.hop_count
  pub payload_len : IsWord f.payload_len
  pub route_disc_flag : IsWord f.route_disc_flag
  pub src_port : IsWord f.src_port
  pub dst_port : IsWord f.dst_port
  pub dest_ip : length f.dest_ip < inet_addrstrlen
  pub src_ip : length f.src_ip < inet_addrstrlen
  pub payload : length f.payload < payload_size

unfoldable pub convert_net_host_order : Frame → Frame
convert_net_host_order f = record f {
  frame_type = ntohl f.frame_type;
  broadcast_id = ntohl f.broadcast_id;
  hop_count = ntohl f.hop_count;
  payload_len = ntohl f.payload_len;
  route_disc_flag = ntohl f.route_disc_flag;
  src_port = ntohl f.src_port;
  dst_port = ntohl f.dst_port;
}

unfoldable pub convert_host_net_order : Frame → Frame
convert_host_net_order f = record f {
  frame_type = htonl f.frame_type;
  broadcast_id = htonl f.broadcast_id;
  hop_count = htonl f.hop_count;
  payload_len = htonl f.payload_len;
  route_disc_flag = htonl f.route_disc_flag;
  src_port = htonl f.src_port;
  dst_port = htonl f.dst_port;
}
