-- ===== src/Frame/Conversion.antt =====
-- The two byte-order conversions, one after the other.
use on_demand_routing.Base.{◌≡◌, arith}
use on_demand_routing.Word.Swap.{ntohl-htonl, htonl-IsWord}
use on_demand_routing.Frame.{Frame, IsFrame, convert_net_host_order, convert_host_net_order}

-- A frame whose numbers are below 2 ^ 32 is the same after it was put into network order and read
-- back.
pub convert_net_host_order-convert_host_net_order :
    (f : Frame) → IsFrame f → convert_net_host_order (convert_host_net_order f) ≡ f
unfolding convert_net_host_order convert_host_net_order
convert_net_host_order-convert_host_net_order f h = ground (
  arith,
  ntohl-htonl f.frame_type,
  ntohl-htonl f.broadcast_id,
  ntohl-htonl f.hop_count,
  ntohl-htonl f.payload_len,
  ntohl-htonl f.route_disc_flag,
  ntohl-htonl f.src_port,
  ntohl-htonl f.dst_port,
)

-- A converted frame is well formed again.
pub convert_host_net_order-IsFrame : (f : Frame) → IsFrame f → IsFrame (convert_host_net_order f)
unfolding convert_host_net_order
convert_host_net_order-IsFrame f h = record {
  frame_type = htonl-IsWord f.frame_type;
  broadcast_id = htonl-IsWord f.broadcast_id;
  hop_count = htonl-IsWord f.hop_count;
  payload_len = htonl-IsWord f.payload_len;
  route_disc_flag = htonl-IsWord f.route_disc_flag;
  src_port = htonl-IsWord f.src_port;
  dst_port = htonl-IsWord f.dst_port;
  dest_ip = h.dest_ip;
  src_ip = h.src_ip;
  payload = h.payload;
}
