-- ===== src/Network/Release.antt =====
-- The source of a request gets the reply, and sends the message that waited for it.
use on_demand_routing.Base.{
  ℕ, ◌≡◌, refl, sym, subst, true, false, some, [], ◌∷◌, All-mono, CStr, str_eq, fits, ◌==◌, arith,
}
use on_demand_routing.Frame.{
  Frame, convert_host_net_order, inet_addrstrlen, type_data, type_rrep, type_rreq,
}
use on_demand_routing.Frame.Conversion.{convert_net_host_order-convert_host_net_order}
use on_demand_routing.Odr.{Odr, World, Mac, raw}
use on_demand_routing.Odr.Outcome.{done, monad}
use on_demand_routing.System.{get_hwaddr_from_int, convert_to_mac}
use on_demand_routing.Routes.{learned, is_expired}
use on_demand_routing.Routes.Found.{find, find_absent, looked, get_r_entry-find}
use on_demand_routing.Transmit.Delivery.{IsHealthy, get_name_ip-done}
use on_demand_routing.Transmit.Replies.{along}
use on_demand_routing.Routes.Learning.{inserted, learnt}
use on_demand_routing.Handler.Ether.{is_duplicate, dispatch, handle_frame, handle_ethernet_msg}
use on_demand_routing.Handler.Discovery.{parked}
use on_demand_routing.Handler.Forwarding.{reply_releases}
use on_demand_routing.Network.Node.{Request, IsRequest, IsCalmNode}
use on_demand_routing.Network.Taught.{IsAnswer}

module _ (w : World) (self_ip : CStr) (h : IsHealthy w self_ip) (q : Request) (r : IsRequest q)
    (stale : ℕ) (at_source : str_eq q.src_ip self_ip ≡ true) (f : Frame) (a : IsAnswer q f)
    (reply : f.frame_type ≡ type_rrep) (k : ℕ) (hop : Mac) (s : Odr)
    (calm : IsCalmNode w q stale s) where
  room : fits inet_addrstrlen f.src_ip ≡ true
  room = subst (λ x. fits inet_addrstrlen x ≡ true) (sym a.from_dest) r.dest_fits

  mine : str_eq f.dest_ip self_ip ≡ true
  mine = subst (λ x. str_eq x self_ip ≡ true) (sym a.to_source) at_source

  -- If data is the newest frame that waits for the destination, the reply sends it on its way.
  pub sends_waiting :
      (g : Frame) (mac : Mac)
      → g.frame_type ≡ type_data
      → s.sent ≡ []
      → get_hwaddr_from_int w.interfaces k ≡ some mac
      → (z : Odr) × (handle_ethernet_msg w (convert_host_net_order f) k hop (parked q.dest_ip g s)
          ≡ done tt z)
        × (z.sent ≡ raw (convert_to_mac mac) (convert_to_mac hop) k (convert_host_net_order g) ∷ [])
  unfolding handle_ethernet_msg handle_frame dispatch is_expired learned monad
  sends_waiting g mac kind quiet linked =
      let t = s.routes in
      let s0 = parked f.src_ip g s in
      let unflagged : is_duplicate f s0 ≡ false = ground (arith, a.unflagged) in
      let no_request : (f.frame_type == type_rreq) ≡ false = ground (arith, reply) in
      let is_reply : (f.frame_type == type_rrep) ≡ true = ground (arith, reply) in
      let absent =
        All-mono t.order
          (λ x c. subst (λ z. str_eq (t.entry x).destip z ≡ false) (sym a.from_dest) c.1.0)
          calm.1 in
      let u = looked (looked s) in
      let now = w.clock u.clock_reads in
      let z = along mac (learned f k hop now) g (learnt (inserted f k hop now u.routes) u) in
      let ran =
        reply_releases w self_ip h f k hop room (looked (looked s)) g
          (find t.entry f.dest_ip t.order) mac mine kind linked in
      (
        z,
        subst
            (λ ip.
              handle_ethernet_msg w (convert_host_net_order f) k hop (parked ip g s) ≡ done tt z)
            a.from_dest
            (rw
              (
                h.own,
                convert_net_host_order-convert_host_net_order f a.well_formed,
                unflagged,
                get_r_entry-find w f.dest_ip f.route_disc_flag s0 (
                    All-mono t.order
                      (λ x c same.
                        let known =
                          c.1.1
                            (subst (λ z. str_eq (t.entry x).destip z ≡ true) a.to_source same) in
                        ground (arith, calm.0, a.unflagged, known.3 s.clock_reads))
                      calm.1),
                get_r_entry-find w f.src_ip 0 (looked s0)
                    (All-mono t.order (λ x far same. ground (arith, far, same)) absent),
                find_absent t.entry f.src_ip t.order absent,
                get_name_ip-done w self_ip h f.src_ip (looked (looked s0)),
                get_name_ip-done w self_ip h f.dest_ip (looked (looked s0)),
                no_request,
                is_reply,
              )
              ran),
        rw quiet refl,
      )
