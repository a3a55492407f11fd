-- ===== src/Transmit/Replies.antt =====
-- The replies and data frames of a healthy node.
use on_demand_routing.Base.{ℕ, ◌≡◌, refl, true, false, some, CStr, fits}
use on_demand_routing.Word.{inc}
use on_demand_routing.Frame.{
  Frame, convert_host_net_order, inet_addrstrlen, payload_size, type_rrep, type_data,
}
use on_demand_routing.Odr.{Odr, World, Mac, Route, raw}
use on_demand_routing.Odr.Outcome.{done, monad}
use on_demand_routing.System.{get_hwaddr_from_int, convert_to_mac, get_broadcast_id}
use on_demand_routing.Transmit.{send_rrep_packet, send_data_message}
use on_demand_routing.Transmit.Delivery.{
  IsHealthy, frame_of, transmitted, construct_odr-done, get_name_ip-done, send_raw_frame-done,
}

-- The next broadcast id has been taken.
abbrev pub counted : Odr → Odr
counted s = record s { broadcast_id = inc s.broadcast_id }

-- A frame that goes out from the interface of a route to its next hop.
abbrev pub along : Mac → Route → Frame → Odr → Odr
along mac r f =
    transmitted
      (raw (convert_to_mac mac) (convert_to_mac r.next_hop) r.if_no (convert_host_net_order f))

module _ (w : World) (self_ip : CStr) (h : IsHealthy w self_ip) (r : Route) (mac : Mac)
    (linked : get_hwaddr_from_int w.interfaces r.if_no ≡ some mac) where
  -- On a healthy node, the answer to a request between addresses that fit goes out once, to the
  -- next hop of the given route, whose interface the node has: with addresses and ports swapped,
  -- the given hop count, and the next broadcast id.
  pub send_rrep_packet-done :
      (f : Frame) (hops : ℕ) (s : Odr)
      → fits inet_addrstrlen f.src_ip ≡ true
      → fits inet_addrstrlen f.dest_ip ≡ true
      → send_rrep_packet w f r hops true s
        ≡ done tt (
            along mac r
              (frame_of type_rrep
                (inc s.broadcast_id)
                hops
                f.payload_len
                0
                f.dst_port
                f.src_port
                f.src_ip
                f.dest_ip
                f.payload)
              (counted s))
  unfolding send_rrep_packet get_broadcast_id monad
  send_rrep_packet-done f hops s hs hd =
      rw
        (
          construct_odr-done type_rrep (inc s.broadcast_id) hops f.payload_len 0 f.dst_port
              f.src_port f.src_ip f.dest_ip f.payload (counted s) hs hd refl,
          h.own,
          get_name_ip-done w self_ip h self_ip (counted s),
          linked,
          send_raw_frame-done w self_ip h mac r.next_hop r.if_no _ (counted s),
        )
        refl

  -- A reply that is forwarded keeps its addresses, ports and broadcast id.
  pub send_rrep_packet_forwards :
      (f : Frame) (hops : ℕ) (s : Odr)
      → fits inet_addrstrlen f.src_ip ≡ true
      → fits inet_addrstrlen f.dest_ip ≡ true
      → send_rrep_packet w f r hops false s
        ≡ done tt (
            along mac r
              (frame_of type_rrep f.broadcast_id hops f.payload_len 0 f.src_port f.dst_port
                f.dest_ip f.src_ip f.payload)
              s)
  unfolding send_rrep_packet monad
  send_rrep_packet_forwards f hops s hs hd =
      rw
        (
          construct_odr-done type_rrep f.broadcast_id hops f.payload_len 0 f.src_port f.dst_port
              f.dest_ip f.src_ip f.payload s hd hs refl,
          h.own,
          get_name_ip-done w self_ip h self_ip s,
          linked,
          send_raw_frame-done w self_ip h mac r.next_hop r.if_no _ s,
        )
        refl

  pub send_data_message-done :
      (port flag destport : ℕ) (destip msg : CStr) (s : Odr)
      → fits inet_addrstrlen self_ip ≡ true
      → fits inet_addrstrlen destip ≡ true
      → fits payload_size msg ≡ true
      → send_data_message w port flag destport destip msg r s
        ≡ done tt (
            along mac r
              (frame_of type_data r.broadcast_id 0 payload_size flag port destport destip self_ip
                msg)
              s)
  unfolding send_data_message monad
  send_data_message-done port flag destport destip msg s hs hd hm =
      rw
        (
          h.own,
          get_name_ip-done w self_ip h self_ip s,
          get_name_ip-done w self_ip h destip s,
          construct_odr-done type_data r.broadcast_id 0 payload_size flag port destport destip
              self_ip msg s hd hs hm,
          linked,
          send_raw_frame-done w self_ip h mac r.next_hop r.if_no _ s,
        )
        refl
