-- ===== src/Handler/Discovery.antt =====
-- What a healthy node does with a message from a local process, and with the reply to the request
-- that the message may have caused.
use on_demand_routing.Base.{ℕ, ◌≡◌, refl, true, some, ◌∷◌, CStr, fits}
use on_demand_routing.Word.{inc, minus_one}
use on_demand_routing.Frame.{
  Frame, convert_net_host_order, convert_host_net_order, inet_addrstrlen, payload_size, type_rreq,
  type_data,
}
use on_demand_routing.Odr.{Odr, World, Mac, MapEntry}
use on_demand_routing.Odr.Outcome.{done, monad}
use on_demand_routing.System.{get_hwaddr_from_int, get_broadcast_id}
use on_demand_routing.Pending.{insert_pending_queue}
use on_demand_routing.Transmit.Delivery.{
  IsHealthy, frame_of, transmitted_all, copies, construct_odr-done, get_name_ip-done,
  send_then_name-done, send_req_broadcast-copies,
}
use on_demand_routing.Transmit.Replies.{counted, along, send_data_message-done}
use on_demand_routing.Handler.Peer.{SendParams, discover, send_or_discover}
use on_demand_routing.Handler.Ether.Rrep.{release}

-- The request that a message without a route causes, and the frame that is parked for it.
abbrev pub request_for : ℕ → ℕ → CStr → SendParams → Frame
request_for bid port self_ip sp =
    frame_of type_rreq bid 0 0 sp.route_disc_flag port sp.destport sp.destip self_ip sp.msg

abbrev pub parked_for : ℕ → ℕ → CStr → SendParams → Frame
parked_for bid port self_ip sp =
    frame_of type_data 0 bid payload_size 0 port sp.destport sp.destip self_ip sp.msg

abbrev pub parked : CStr → Frame → Odr → Odr
parked ip f s = record s { pending = record { destip = ip; odrframe = f } ∷ s.pending }

-- The pending queue holds frames in host order.
abbrev pub stored : Frame → Frame
stored f = convert_net_host_order (convert_host_net_order f)

module _ (w : World) (self_ip : CStr) (h : IsHealthy w self_ip) where
  pub discover-parked :
      (e : MapEntry) (sp : SendParams) (s : Odr)
      → fits inet_addrstrlen self_ip ≡ true
      → fits inet_addrstrlen sp.destip ≡ true
      → fits payload_size sp.msg ≡ true
      → let request = request_for (inc s.broadcast_id) e.portno self_ip sp in
        let frame = parked_for (inc (inc s.broadcast_id)) e.portno self_ip sp in
        discover w self_ip e sp s
        ≡ done tt (
            parked sp.destip (stored frame) (
              counted (
                transmitted_all
                  (copies minus_one (convert_host_net_order request) w.interfaces)
                  (counted s))))
  unfolding discover get_broadcast_id insert_pending_queue monad
  discover-parked e sp s hs hd hm =
      rw
        (
          send_req_broadcast-copies w self_ip h minus_one (inc s.broadcast_id) e.portno sp.destport
              0 sp.route_disc_flag sp.destip self_ip sp.msg 0 (counted s) hd hs,
          construct_odr-done type_data 0 (inc (inc s.broadcast_id)) payload_size 0 e.portno
              sp.destport sp.destip self_ip sp.msg _ hd hs hm,
          hd,
          get_name_ip-done w self_ip h sp.destip _,
        )
        refl

  -- On a healthy node, a local message that fits and has a route over an interface of the node
  -- goes out as one data frame to the next hop, with the broadcast id of the route and hop count
  -- 0, and nothing else changes.
  pub send_or_discover-along :
      (e : MapEntry) (sp : SendParams) (p : ℕ) (mac : Mac) (s : Odr)
      → fits inet_addrstrlen self_ip ≡ true
      → fits inet_addrstrlen sp.destip ≡ true
      → fits payload_size sp.msg ≡ true
      → get_hwaddr_from_int w.interfaces (s.routes.entry p).if_no ≡ some mac
      → let r = s.routes.entry p in
        send_or_discover w self_ip e sp (some p) s
        ≡ done tt (
            along mac r
              (frame_of type_data r.broadcast_id 0 payload_size sp.route_disc_flag e.portno
                sp.destport sp.destip self_ip sp.msg)
              s)
  unfolding send_or_discover monad
  send_or_discover-along e sp p mac s hs hd hm linked =
      rw (get_name_ip-done w self_ip h sp.destip s) (
        send_data_message-done w self_ip h (s.routes.entry p) mac linked e.portno sp.route_disc_flag
          sp.destport sp.destip sp.msg s hs hd hm)

  -- On a healthy node, a data frame that waited for a route over an interface of the node goes out
  -- to the route's next hop unchanged but for the byte order, and nothing else changes.
  pub release_data :
      (f g : Frame) (intf_n p : ℕ) (mac : Mac) (s : Odr)
      → g.frame_type ≡ type_data
      → get_hwaddr_from_int w.interfaces (s.routes.entry p).if_no ≡ some mac
      → release w self_ip f intf_n p (some g) s ≡ done tt (along mac (s.routes.entry p) g s)
  unfolding release monad
  release_data f g intf_n p mac s kind linked =
      rw (kind, linked) (send_then_name-done w self_ip h mac _ _ _ _ s)
