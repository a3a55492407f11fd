-- ===== src/Transmit.antt =====
-- The functions of assign3/odr_functions.c that build frames and send them.
pub mod Quiet
pub mod Delivery
pub mod Replies
use on_demand_routing.Base.{
  ℕ, Bool, not, Option, some, List, [], ◌∷◌, ◌++◌, ◌&&◌, ◌||◌, CStr, codes, str_eq, fits, replicate,
  ◌==◌, if◌then◌else◌,
}
use on_demand_routing.Decimal.{print_int}
use on_demand_routing.Frame.{
  Frame, convert_host_net_order, inet_addrstrlen, payload_size, hw_addr, type_rreq, type_rrep,
  type_data, type_asent,
}
use on_demand_routing.Odr.{World, Hwa, Mac, Route, raw, local}
use on_demand_routing.Odr.Outcome.{Act, pure, gets, assert, non_null, or_fail, ◌>>=◌, ◌>>◌}
use on_demand_routing.System.{
  before_colon, get_self_ip, get_hwaddr_from_int, convert_to_mac, get_broadcast_id, get_name_ip,
  sendto,
}
use on_demand_routing.Ports.{fetch_entry_port}

-- `ETH_FRAME_LEN`.
abbrev pub eth_frame_len : ℕ
eth_frame_len = 1514

abbrev pub is_data : ℕ → Bool
is_data frame_type = frame_type == type_data

-- The frame, in network order. Only a data frame carries the payload.
unfoldable pub construct_odr :
    (frame_type bid hopcount len rdisc_flag srcport dstport : ℕ) (dstip srcip payload : CStr)
    → Act Frame
construct_odr frame_type bid hopcount len rdisc_flag srcport dstport dstip srcip payload = do
  assert (fits inet_addrstrlen dstip)
  assert (fits inet_addrstrlen srcip)
  assert (not (is_data frame_type) || fits payload_size payload)
  pure (
      convert_host_net_order (record {
        frame_type = frame_type;
        broadcast_id = bid;
        hop_count = hopcount;
        payload_len = len;
        route_disc_flag = rdisc_flag;
        src_port = srcport;
        dst_port = dstport;
        dest_ip = dstip;
        src_ip = srcip;
        payload = if is_data frame_type then payload else [];
      }))

-- The `type` that `send_req_broadcast` sends.
abbrev pub flood_type : ℕ → ℕ
flood_type asent_flag = if asent_flag == 1 then type_asent else type_rreq

-- The interfaces that a flood goes out on: not loopback, not eth0, not the one it came in on.
unfoldable pub is_flooded : ℕ → Hwa → Bool
is_flooded recvd_int_index curr =
    not (str_eq (before_colon curr.if_name) (codes "lo"))
    && not (str_eq (before_colon curr.if_name) (codes "eth0"))
    && not (curr.if_index == recvd_int_index)

abbrev pub broadcast_mac : Mac
broadcast_mac = replicate hw_addr 0xff

-- The datagram for a local process: "%s,%d,%s,%d\n", the last number a constant 0.
unfoldable pub peer_text : CStr → ℕ → CStr → CStr
peer_text src_ip src_port payload =
    src_ip ++ (codes "," ++ (print_int src_port ++ (codes "," ++ (payload ++ codes ",0\n"))))

module _ (w : World) where
  unfoldable pub send_raw_frame : Option Mac → Mac → ℕ → Frame → Act (Unit {0})
  send_raw_frame src_macaddr dest_macaddr int_index odrframe = do
    src_mac ← non_null src_macaddr
    src_ip ← or_fail (get_self_ip w.interfaces)
    get_name_ip w src_ip
    sendto w (raw (convert_to_mac src_mac) (convert_to_mac dest_macaddr) int_index odrframe)

  unfoldable pub send_to_peer_process : CStr → CStr → ℕ → CStr → Act (Unit {0})
  send_to_peer_process sun_path src_ip src_port payload = do
    let str_seq = peer_text src_ip src_port payload
    assert (fits eth_frame_len str_seq)
    sendto w (local sun_path str_seq)

  -- The received data is handed to the process that is bound to its port.
  unfoldable pub process_data_message : Frame → Act (Unit {0})
  process_data_message odrframe = do
    self_ip ← or_fail (get_self_ip w.interfaces)
    if str_eq odrframe.dest_ip self_ip
        then (do
          ports ← gets λ s. s.ports
          port_sp_entry ← or_fail (fetch_entry_port ports odrframe.dst_port)
          send_to_peer_process port_sp_entry.sun_path odrframe.src_ip odrframe.src_port
              odrframe.payload)
        else pure tt

  -- Of `send_params_t` the function reads the flag, the port, the address and the message.
  unfoldable pub send_data_message :
      (src_port : ℕ) (rdisc_flag destport : ℕ) (destip msg : CStr) → Route → Act (Unit {0})
  send_data_message src_port rdisc_flag destport destip msg entry = do
    src_ip ← or_fail (get_self_ip w.interfaces)
    get_name_ip w src_ip
    get_name_ip w destip
    odrframe ←
        construct_odr type_data entry.broadcast_id 0 payload_size rdisc_flag src_port destport
          destip src_ip msg
    src_mac ← or_fail (get_hwaddr_from_int w.interfaces entry.if_no)
    send_raw_frame (some src_mac) entry.next_hop entry.if_no odrframe

  -- With `swap` the reply runs from the destination back to the source, under a new broadcast id.
  unfoldable pub send_rrep_packet : Frame → Route → ℕ → Bool → Act (Unit {0})
  send_rrep_packet frame entry hop_count swap = do
    broadid ← if swap then get_broadcast_id else pure frame.broadcast_id
    rrep ←
        (if swap
          then construct_odr type_rrep broadid hop_count frame.payload_len 0 frame.dst_port
              frame.src_port frame.src_ip frame.dest_ip frame.payload
          else construct_odr type_rrep broadid hop_count frame.payload_len 0 frame.src_port
              frame.dst_port frame.dest_ip frame.src_ip frame.payload)
    self_ip ← non_null (get_self_ip w.interfaces)
    get_name_ip w self_ip
    send_raw_frame (get_hwaddr_from_int w.interfaces entry.if_no) entry.next_hop entry.if_no rrep

  -- One round of the loop of `send_req_broadcast`, and the rounds that follow it.
  unfoldable pub flood_one : ℕ → Act Frame → Hwa → Act (Unit {0}) → Act (Unit {0})
  flood_one recvd_int_index frame curr rest =
      if is_flooded recvd_int_index curr
      then (do
        odrframe ← frame
        send_raw_frame (some curr.if_haddr) broadcast_mac curr.if_index odrframe
        rest)
      else rest

  unfoldable pub flood : ℕ → Act Frame → List Hwa → Act (Unit {0})
  flood recvd_int_index frame [] = pure tt
  flood recvd_int_index frame (curr ∷ hwa_next) =
      flood_one recvd_int_index frame curr (flood recvd_int_index frame hwa_next)

  unfoldable pub send_req_broadcast :
      (recvd_int_index broad_id src_port dstport hopcount rdisc_flag : ℕ)
      (dstip srcip payload : CStr) (asent_flag : ℕ)
      → Act (Unit {0})
  send_req_broadcast recvd_int_index broad_id src_port dstport hopcount rdisc_flag dstip srcip
        payload asent_flag =
      do
        get_name_ip w srcip
        get_name_ip w dstip
        flood recvd_int_index
            (construct_odr (flood_type asent_flag) broad_id hopcount 0 rdisc_flag src_port dstport
              dstip srcip payload)
            w.interfaces
