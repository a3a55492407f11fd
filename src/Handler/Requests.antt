-- ===== src/Handler/Requests.antt =====
-- What a healthy node does with a route request.
use on_demand_routing.Base.{
  ℕ, ◌≡◌, refl, true, false, Option, none, some, CStr, fits, str_eq, arith, ==_refl,
}
use on_demand_routing.Word.{inc}
use on_demand_routing.Frame.{Frame, convert_host_net_order, inet_addrstrlen, type_rreq, type_rrep}
use on_demand_routing.Odr.{Odr, World, Mac, Table}
use on_demand_routing.Odr.Outcome.{done, monad}
use on_demand_routing.System.{get_hwaddr_from_int}
use on_demand_routing.Routes.{learned, is_better, store, allocate, link_first, check_r_entry}
use on_demand_routing.Routes.Learning.{inserted, learnt, insert_r_entry-done, check_r_entry_updates}
use on_demand_routing.Transmit.Delivery.{
  IsHealthy, frame_of, transmitted_all, copies, send_req_broadcast-copies,
}
use on_demand_routing.Transmit.Replies.{counted, along, send_rrep_packet-done}
use on_demand_routing.Handler.Learn.{learn_source, pass_on}
use on_demand_routing.Handler.Ether.Rreq.{reply, answer, on_rreq}
use on_demand_routing.Handler.Ether.Asent.{on_asent}

pub entry-inserted :
    (f : Frame) (intf_n : ℕ) (hop : Mac) (now : ℕ) (t : Table)
    → (inserted f intf_n hop now t).entry t.fresh ≡ learned f intf_n hop now
unfolding link_first store allocate
entry-inserted f intf_n hop now t = ground (arith, ==_refl t.fresh)

-- A request that is passed on: one hop further, otherwise as it came, and with no payload.
abbrev pub one_further : ℕ → Frame → Frame
one_further kind f =
    frame_of kind f.broadcast_id (inc f.hop_count) 0 f.route_disc_flag f.src_port f.dst_port
      f.dest_ip f.src_ip f.payload

-- The answer to a request.
abbrev pub answer_to : Frame → ℕ → ℕ → Frame
answer_to f bid hops =
    frame_of type_rrep bid hops f.payload_len 0 f.dst_port f.src_port f.src_ip f.dest_ip f.payload

module _ (w : World) (self_ip : CStr) (f : Frame) (intf_n : ℕ) (hop : Mac) where
  -- A request or a notice that is no better than the entry for its source, the destination being
  -- another node, and for a request one to which no route is known, is handled without any effect:
  -- the state does not change and nothing is sent.
  pub duplicates_stop :
      (p : ℕ) (s : Odr)
      → is_better f (s.routes.entry p) ≡ false
      → str_eq f.dest_ip self_ip ≡ false
      → (on_rreq w self_ip f intf_n hop none (some p) s ≡ done tt s)
        × (on_asent w f intf_n hop (some p) s ≡ done tt s)
  unfolding on_rreq on_asent learn_source check_r_entry answer monad
  duplicates_stop p s stale elsewhere = (rw (stale, elsewhere) refl, rw stale refl)

  module _ (h : IsHealthy w self_ip) (hs : fits inet_addrstrlen f.src_ip ≡ true)
      (hd : fits inet_addrstrlen f.dest_ip ≡ true) (s : Odr) where
    abbrev after_learning : Odr
    after_learning = learnt (inserted f intf_n hop (w.clock s.clock_reads) s.routes) s

    -- On a healthy node that is the destination of a request from a source without an entry, and
    -- has an interface with the request's index, the request adds the entry for the source and
    -- sends exactly one reply, to the node that the request came from: with addresses and ports
    -- swapped, hop count 0, and the next broadcast id.
    pub destination_replies :
        (mac : Mac) (dest : Option ℕ)
        → get_hwaddr_from_int w.interfaces intf_n ≡ some mac
        → str_eq f.dest_ip self_ip ≡ true
        → on_rreq w self_ip f intf_n hop dest none s
          ≡ done tt (
              along mac
                (learned f intf_n hop (w.clock s.clock_reads))
                (answer_to f (inc s.broadcast_id) 0)
                (counted after_learning))
    unfolding on_rreq learn_source reply learned monad
    destination_replies mac dest linked mine =
        rw
          (
            insert_r_entry-done w self_ip h f intf_n hop hs s,
            mine,
            entry-inserted f intf_n hop (w.clock s.clock_reads) s.routes,
          )
          (send_rrep_packet-done w self_ip h (learned f intf_n hop (w.clock s.clock_reads)) mac
            linked f 0 after_learning hs hd)

    -- On a healthy node that is not the destination of a request and has an entry for neither its
    -- source nor its destination, the request adds the entry for the source and goes on, one hop
    -- further and otherwise the same, on every interface but loopback, eth0 and the one that it
    -- came in on.
    pub unknown_request_floods :
        str_eq f.dest_ip self_ip ≡ false
        → on_rreq w self_ip f intf_n hop none none s
          ≡ done tt (
              transmitted_all
                (copies intf_n (convert_host_net_order (one_further type_rreq f)) w.interfaces)
                after_learning)
    unfolding on_rreq learn_source answer pass_on monad
    unknown_request_floods elsewhere =
        rw (insert_r_entry-done w self_ip h f intf_n hop hs s, elsewhere)
          (send_req_broadcast-copies w self_ip h intf_n f.broadcast_id f.src_port f.dst_port
            (inc f.hop_count) f.route_disc_flag f.dest_ip f.src_ip f.payload 0 after_learning hd hs)

    -- So does a node that knows a worse route to the source.
    pub better_request_floods :
        (p : ℕ)
        → str_eq f.dest_ip self_ip ≡ false
        → is_better f (s.routes.entry p) ≡ true
        → on_rreq w self_ip f intf_n hop none (some p) s
          ≡ done tt (
              transmitted_all
                (copies intf_n (convert_host_net_order (one_further type_rreq f)) w.interfaces)
                (learnt (store s.routes p (learned f intf_n hop (w.clock s.clock_reads))) s))
    unfolding on_rreq learn_source answer pass_on monad
    better_request_floods p elsewhere better =
        rw (check_r_entry_updates w self_ip h f intf_n hop hs s p better, elsewhere)
          (send_req_broadcast-copies w self_ip h intf_n f.broadcast_id f.src_port f.dst_port
            (inc f.hop_count) f.route_disc_flag f.dest_ip f.src_ip f.payload 0
            (learnt (store s.routes p (learned f intf_n hop (w.clock s.clock_reads))) s) hd hs)
