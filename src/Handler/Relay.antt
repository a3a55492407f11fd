-- ===== src/Handler/Relay.antt =====
-- A healthy node that passes a reply or data on, along a route that it has.
use on_demand_routing.Base.{
  ℕ, ◌+◌, ◌<◌, ◌≡◌, ◌⊎◌, refl, leb, Bool, true, false, inl, inr, Option, none, some, ◌∷◌, All,
  All-mono, Holds, if◌then◌else◌, Bool-cases, CStr, fits, str_eq, ◌==◌, ==_refl, arith,
}
use on_demand_routing.Word.{inc}
use on_demand_routing.Frame.{
  Frame, IsFrame, convert_host_net_order, inet_addrstrlen, type_rreq, type_rrep, type_data,
}
use on_demand_routing.Frame.Conversion.{convert_net_host_order-convert_host_net_order}
use on_demand_routing.Odr.{Odr, World, Mac, Route, Sent, raw}
use on_demand_routing.Odr.Outcome.{done, monad}
use on_demand_routing.System.{get_hwaddr_from_int, convert_to_mac}
use on_demand_routing.Routes.{is_better, is_expired, learned, store, allocate, link_first}
use on_demand_routing.Routes.Found.{source_apart, find, find-destip, looked, get_r_entry-find}
use on_demand_routing.Routes.Learning.{
  inserted, learnt, insert_r_entry-done, check_r_entry_updates, check_r_entry_keeps,
}
use on_demand_routing.Transmit.Delivery.{IsHealthy, frame_of, get_name_ip-done}
use on_demand_routing.Transmit.Replies.{along}
use on_demand_routing.Handler.Learn.{learn_source}
use on_demand_routing.Handler.Ether.{is_duplicate, dispatch, handle_frame, handle_ethernet_msg}
use on_demand_routing.Handler.Ether.Rrep.{on_rrep}
use on_demand_routing.Handler.Ether.Payload.{on_data}
use on_demand_routing.Handler.Forwarding.{forwards_along}

pub below-== : (a b : ℕ) → a < b → (a == b) ≡ false
below-== a b h = ground (arith, h)

-- The length of the route to the frame's source, which may have an entry already, once the frame is
-- handled.
abbrev pub known_hops : Frame → (ℕ → Route) → Option ℕ → ℕ
known_hops f entry none = inc f.hop_count
known_hops f entry (some q) = if is_better f (entry q) then inc f.hop_count else (entry q).no_hops

module _ (w : World) (self_ip : CStr) (h : IsHealthy w self_ip) (f : Frame) (intf_n : ℕ) (hop : Mac)
    (hs : fits inet_addrstrlen f.src_ip ≡ true) where
  -- What is learned leaves the other entries.
  learn_source-kept :
      (src : Option ℕ) (u : Odr) (p : ℕ)
      → p < u.routes.fresh
      → Holds (λ q. (p == q) ≡ false) src
      → (r : ℕ × Bool) × (v : Odr) × (learn_source w f intf_n hop src u ≡ done r v)
        × (v.sent ≡ u.sent)
        × (v.routes.entry p ≡ u.routes.entry p)
        × ((v.routes.entry r.0).no_hops ≡ known_hops f u.routes.entry src)
  unfolding learn_source learned store allocate link_first monad
  learn_source-kept none u p below apart = (
    (u.routes.fresh, true),
    learnt (inserted f intf_n hop (w.clock u.clock_reads) u.routes) u,
    rw (insert_r_entry-done w self_ip h f intf_n hop hs u) refl,
    refl,
    rw (below-== p u.routes.fresh below) refl,
    rw (==_refl u.routes.fresh) refl,
  )
  learn_source-kept (some q) u p below apart = elim (Bool-cases (is_better f (u.routes.entry q))) [
    | inl better ↦ (
      (q, true),
      learnt (store u.routes q (learned f intf_n hop (w.clock u.clock_reads))) u,
      rw (check_r_entry_updates w self_ip h f intf_n hop hs u q better) refl,
      refl,
      rw apart refl,
      rw (==_refl q, better) refl,
    )
    | inr worse ↦ (
      (q, false),
      u,
      rw (check_r_entry_keeps w f intf_n hop u q worse) refl,
      refl,
      refl,
      rw worse refl,
    )
  ]

-- A frame as it is passed on, with a hop count.
abbrev pub relayed : Frame → ℕ → Frame
relayed f hops =
    if f.frame_type == type_data
    then record f { hop_count = hops }
    else frame_of type_rrep f.broadcast_id hops f.payload_len 0 f.src_port f.dst_port f.dest_ip
        f.src_ip f.payload

-- One frame goes out along a route, with a hop count.
abbrev pub onward_frame : Mac → Route → Frame → ℕ → Sent
onward_frame mac route f hops =
    raw (convert_to_mac mac) (convert_to_mac route.next_hop) route.if_no
      (convert_host_net_order (relayed f hops))

module _ (w : World) (self_ip : CStr) (h : IsHealthy w self_ip) (f : Frame) (ok : IsFrame f)
    (intf_n : ℕ) (hop : Mac) (hs : fits inet_addrstrlen f.src_ip ≡ true)
    (hd : fits inet_addrstrlen f.dest_ip ≡ true) (s : Odr) (p : ℕ) (mac : Mac)
    (other : str_eq f.dest_ip self_ip ≡ false) where
  dispatched :
      (src : Option ℕ) (u : Odr)
      → (f.frame_type ≡ type_data) ⊎ (f.frame_type ≡ type_rrep)
      → p < u.routes.fresh
      → get_hwaddr_from_int w.interfaces (u.routes.entry p).if_no ≡ some mac
      → Holds (λ q. (p == q) ≡ false) src
      → (t : Odr) × (dispatch w self_ip f intf_n hop (some p) src u ≡ done tt t)
        × (t.sent
            ≡ onward_frame mac (u.routes.entry p) f (known_hops f u.routes.entry src) ∷ u.sent)
  unfolding dispatch on_data on_rrep monad
  dispatched src u (inl kind) below linked apart =
      let no_request : (f.frame_type == type_rreq) ≡ false = ground (arith, kind) in
      let no_reply : (f.frame_type == type_rrep) ≡ false = ground (arith, kind) in
      let is_payload : (f.frame_type == type_data) ≡ true = ground (arith, kind) in
      let (r, v, ran, same_sent, same_entry, hops) =
        learn_source-kept w self_ip h f intf_n hop hs src u p below apart in
      let forwarded =
        forwards_along w self_ip h f intf_n hd v r.0 p mac hs (rw same_entry linked) in
      (
        along mac (v.routes.entry p) (record f { hop_count = (v.routes.entry r.0).no_hops }) v,
        rw (no_request, no_reply, is_payload, ran, other) (forwarded.1),
        rw (is_payload, same_entry, same_sent, hops) refl,
      )
  dispatched src u (inr kind) below linked apart =
      let no_request : (f.frame_type == type_rreq) ≡ false = ground (arith, kind) in
      let is_reply : (f.frame_type == type_rrep) ≡ true = ground (arith, kind) in
      let no_payload : (f.frame_type == type_data) ≡ false = ground (arith, kind) in
      let (r, v, ran, same_sent, same_entry, hops) =
        learn_source-kept w self_ip h f intf_n hop hs src u p below apart in
      let forwarded =
        forwards_along w self_ip h f intf_n hd v r.0 p mac hs (rw same_entry linked) in
      (
        along mac (v.routes.entry p)
            (frame_of type_rrep f.broadcast_id (v.routes.entry r.0).no_hops f.payload_len 0
              f.src_port f.dst_port f.dest_ip f.src_ip f.payload)
            v,
        rw (no_request, is_reply, ran, other) (forwarded.0),
        rw (no_payload, same_entry, same_sent, hops) refl,
      )

  -- On a healthy node, data or a reply for another node to which the table has a route, over an
  -- interface of the node, between addresses that fit and differ, without the route discovery flag
  -- and while no entry for either address is stale, is handled without an error. One frame goes
  -- out, on that route, with the hop count of the route to the source that the node then knows,
  -- which is one more than the frame came with unless the node had a better one: the data
  -- otherwise unchanged, or a reply built anew with the same broadcast id, addresses and ports.
  pub frame_relayed :
      (f.frame_type ≡ type_data) ⊎ (f.frame_type ≡ type_rrep)
      → f.route_disc_flag ≡ 0
      → str_eq f.dest_ip f.src_ip ≡ false
      → find s.routes.entry f.dest_ip s.routes.order ≡ some p
      → p < s.routes.fresh
      → get_hwaddr_from_int w.interfaces (s.routes.entry p).if_no ≡ some mac
      → All
          (λ q.
            str_eq (s.routes.entry q).destip f.dest_ip ≡ true
            → leb ((s.routes.entry q).timestamp + s.stale_param) (w.clock s.clock_reads) ≡ false)
          s.routes.order
      → All
          (λ q.
            str_eq (s.routes.entry q).destip f.src_ip ≡ true
            → leb ((s.routes.entry q).timestamp + s.stale_param) (w.clock ((looked s).clock_reads))
              ≡ false)
          s.routes.order
      → (t : Odr) × (handle_ethernet_msg w (convert_host_net_order f) intf_n hop s ≡ done tt t)
        × (t.sent
            ≡ onward_frame mac
                (s.routes.entry p)
                f
                (known_hops f s.routes.entry (find s.routes.entry f.src_ip s.routes.order))
              ∷ s.sent)
  unfolding handle_ethernet_msg handle_frame is_expired monad
  frame_relayed kind no_flag differ found below linked first second =
      let at_p = find-destip s.routes.entry f.dest_ip p s.routes.order found in
      let (t, ran, sent) =
        dispatched (find s.routes.entry f.src_ip s.routes.order) (looked (looked s)) kind below
          linked
          (source_apart s.routes.entry p f.src_ip f.dest_ip s.routes.order differ at_p _ refl) in
      let unflagged : is_duplicate f s ≡ false = ground (arith, no_flag) in
      (
        t,
        rw
            (
              h.own,
              convert_net_host_order-convert_host_net_order f ok,
              unflagged,
              get_r_entry-find w f.dest_ip f.route_disc_flag s
                  (All-mono s.routes.order (λ x now same. ground (arith, now same, no_flag)) first),
              found,
              get_r_entry-find w f.src_ip 0 (looked s)
                  (All-mono s.routes.order (λ x now same. ground (arith, now same)) second),
              get_name_ip-done w self_ip h f.src_ip (looked (looked s)),
              get_name_ip-done w self_ip h f.dest_ip (looked (looked s)),
            )
            ran,
        sent,
      )
