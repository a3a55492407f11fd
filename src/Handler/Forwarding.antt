-- ===== src/Handler/Forwarding.antt =====
-- What a healthy node does with a reply or data for another node, and with the reply that a
-- waiting message needs.
use on_demand_routing.Base.{
  ℕ, ◌≡◌, subst, true, Option, none, some, CStr, fits, str_eq, str_eq_refl,
}
use on_demand_routing.Word.{inc, minus_one}
use on_demand_routing.Frame.{
  Frame, inet_addrstrlen, type_rreq, type_rrep, type_data, convert_host_net_order,
}
use on_demand_routing.Odr.{Odr, World, Mac, Table}
use on_demand_routing.Odr.Outcome.{done, monad}
use on_demand_routing.System.{get_hwaddr_from_int, get_broadcast_id}
use on_demand_routing.Routes.{learned}
use on_demand_routing.Routes.Learning.{inserted, learnt, insert_r_entry-done}
use on_demand_routing.Pending.{take_first, lookup_pending_queue, insert_pending_queue}
use on_demand_routing.Transmit.Delivery.{
  IsHealthy, frame_of, transmitted_all, copies, send_then_name-done, send_req_broadcast-copies,
}
use on_demand_routing.Transmit.Replies.{along, counted, send_rrep_packet_forwards}
use on_demand_routing.Handler.Learn.{learn_source, park}
use on_demand_routing.Handler.Ether.Rrep.{release, forward_rrep, on_rrep}
use on_demand_routing.Handler.Ether.Payload.{forward_data}
use on_demand_routing.Handler.Discovery.{parked, release_data}
use on_demand_routing.Handler.Requests.{entry-inserted}

module _ (w : World) (self_ip : CStr) (h : IsHealthy w self_ip) (f : Frame) (intf_n : ℕ) (hop : Mac)
    (hs : fits inet_addrstrlen f.src_ip ≡ true) (s : Odr) where
  abbrev route_back : Table
  route_back = inserted f intf_n hop (w.clock s.clock_reads) s.routes

  learns : route_back.entry s.routes.fresh ≡ learned f intf_n hop (w.clock s.clock_reads)
  learns = entry-inserted f intf_n hop (w.clock s.clock_reads) s.routes

  -- On a healthy node, if the newest frame of the pending queue is data that waits for the source
  -- of a reply for the node itself, and the reply comes from a source without an entry, whose
  -- address fits, and on an interface that the node has, then the reply adds the entry for the
  -- source, takes the frame off the queue, and sends it, unchanged but for the byte order, to the
  -- node that the reply came from. Nothing else changes.
  pub reply_releases :
      (g : Frame) (dest : Option ℕ) (mac : Mac)
      → str_eq f.dest_ip self_ip ≡ true
      → g.frame_type ≡ type_data
      → get_hwaddr_from_int w.interfaces intf_n ≡ some mac
      → on_rrep w self_ip f intf_n hop dest none (parked f.src_ip g s)
        ≡ done tt (along mac (learned f intf_n hop (w.clock s.clock_reads)) g (learnt route_back s))
  unfolding on_rrep learn_source lookup_pending_queue take_first learned monad
  reply_releases g dest mac mine kind linked =
      rw
        (
          insert_r_entry-done w self_ip h f intf_n hop hs (parked f.src_ip g s),
          mine,
          str_eq_refl f.src_ip,
        )
        (subst
          (λ r.
            release w self_ip f intf_n s.routes.fresh (some g) (learnt route_back s)
            ≡ done tt (along mac r g (learnt route_back s)))
          learns
          (release_data w self_ip h f g intf_n s.routes.fresh mac (learnt route_back s) kind
            (rw learns linked)))

module _ (w : World) (self_ip : CStr) (h : IsHealthy w self_ip) (f : Frame) (intf_n : ℕ)
    (hd : fits inet_addrstrlen f.dest_ip ≡ true) (s : Odr) where
  -- On a healthy node, a reply or data between addresses that fit, for another node whose route is
  -- over an interface of the node, goes on to the next hop of that route, with the hop count of
  -- the entry for its source. A reply is otherwise built anew with the same broadcast id,
  -- addresses and ports, and data is otherwise unchanged; the state is otherwise the same.
  pub forwards_along :
      (src dest : ℕ) (mac : Mac)
      → fits inet_addrstrlen f.src_ip ≡ true
      → get_hwaddr_from_int w.interfaces (s.routes.entry dest).if_no ≡ some mac
      → let hops = (s.routes.entry src).no_hops in
        let sent_on = λ (g : Frame). along mac (s.routes.entry dest) g s in
        (forward_rrep w self_ip f intf_n src (some dest) s
          ≡ done tt (
              sent_on (
                frame_of type_rrep f.broadcast_id hops f.payload_len 0 f.src_port f.dst_port
                  f.dest_ip f.src_ip f.payload)))
        × (forward_data w self_ip f intf_n src (some dest) s
            ≡ done tt (sent_on (record f { hop_count = hops })))
  unfolding forward_rrep forward_data monad
  forwards_along src dest mac hs linked = (
    send_rrep_packet_forwards w self_ip h (s.routes.entry dest) mac linked f
        (s.routes.entry src).no_hops s hs hd,
    rw linked (send_then_name-done w self_ip h mac _ _ _ _ s),
  )

  -- On a healthy node, a reply or data for another node to which there is no route, with addresses
  -- that fit, is parked for that node, and one request of this node for a route to it goes out,
  -- under a new broadcast id and from port -1, on every interface but loopback, eth0 and the one
  -- that the frame came in on.
  pub unroutable_waits :
      (src : ℕ)
      → fits inet_addrstrlen self_ip ≡ true
      → let request =
          frame_of type_rreq
            (inc s.broadcast_id)
            0
            0
            0
            minus_one
            f.dst_port
            f.dest_ip
            self_ip
            f.payload in
        let after =
          transmitted_all
            (copies intf_n (convert_host_net_order request) w.interfaces)
            (parked f.dest_ip f (counted s)) in
        (forward_rrep w self_ip f intf_n src none s ≡ done tt after)
        × (forward_data w self_ip f intf_n src none s ≡ done tt after)
  unfolding forward_rrep forward_data park get_broadcast_id insert_pending_queue monad
  unroutable_waits src own =
      let flooded =
        send_req_broadcast-copies w self_ip h intf_n (inc s.broadcast_id) minus_one f.dst_port 0 0
          f.dest_ip self_ip f.payload 0 (parked f.dest_ip f (counted s)) hd own in
      (rw hd flooded, rw hd flooded)
