-- ===== src/Handler/Onward.antt =====
-- A healthy node that passes on a reply or data from a source to which it has no route yet.
use on_demand_routing.Base.{
  ℕ, ◌+◌, ◌<◌, ◌≡◌, ◌⊎◌, refl, ◌∙◌, leb, true, false, inl, inr, none, some, All, All-mono, CStr,
  fits, str_eq, ◌==◌, ==_refl, arith,
}
use on_demand_routing.Word.{inc, IsWord}
use on_demand_routing.Frame.{
  Frame, IsFrame, convert_host_net_order, inet_addrstrlen, type_rreq, type_rrep, type_data,
}
use on_demand_routing.Frame.Conversion.{convert_net_host_order-convert_host_net_order}
use on_demand_routing.Odr.{Odr, World, Mac}
use on_demand_routing.Odr.Outcome.{done, monad}
use on_demand_routing.System.{get_hwaddr_from_int}
use on_demand_routing.Routes.{is_expired, learned, store, allocate, link_first}
use on_demand_routing.Routes.Found.{find, looked, get_r_entry-find, find_absent}
use on_demand_routing.Routes.Learning.{inserted, learnt, insert_r_entry-done}
use on_demand_routing.Transmit.Delivery.{IsHealthy, get_name_ip-done}
use on_demand_routing.Transmit.Replies.{along}
use on_demand_routing.Handler.Learn.{learn_source}
use on_demand_routing.Handler.Ether.{is_duplicate, dispatch, handle_frame, handle_ethernet_msg}
use on_demand_routing.Handler.Ether.Rrep.{on_rrep, forward_rrep}
use on_demand_routing.Handler.Ether.Payload.{on_data, forward_data}
use on_demand_routing.Handler.Forwarding.{forwards_along}
use on_demand_routing.Handler.Relay.{relayed, below-==}

module _ (w : World) (self_ip : CStr) (h : IsHealthy w self_ip) (f : Frame) (intf_n : ℕ) (hop : Mac)
    (hs : fits inet_addrstrlen f.src_ip ≡ true) (hd : fits inet_addrstrlen f.dest_ip ≡ true) (p : ℕ)
    (mac : Mac) (other : str_eq f.dest_ip self_ip ≡ false)
    (kind : (f.frame_type ≡ type_data) ⊎ (f.frame_type ≡ type_rrep)) where
  -- The node has a new entry for the source.
  abbrev taught : Odr → Odr
  taught u = learnt (inserted f intf_n hop (w.clock u.clock_reads) u.routes) u

  -- The frame has gone out along the route at `p`, one hop further.
  abbrev pub gone_on : Odr → Odr
  gone_on u = along mac (u.routes.entry p) (relayed f (inc f.hop_count)) (taught u)

  taught-entry : (u : Odr) → p < u.routes.fresh → (taught u).routes.entry p ≡ u.routes.entry p
  unfolding store allocate link_first
  taught-entry u below = rw (below-== p u.routes.fresh below) refl

  taught-no_hops : (u : Odr) → ((taught u).routes.entry u.routes.fresh).no_hops ≡ inc f.hop_count
  unfolding store allocate link_first learned
  taught-no_hops u = rw (==_refl u.routes.fresh) refl

  dispatched_on :
      (u : Odr)
      → p < u.routes.fresh
      → get_hwaddr_from_int w.interfaces (u.routes.entry p).if_no ≡ some mac
      → dispatch w self_ip f intf_n hop (some p) none u ≡ done tt (gone_on u)
  unfolding dispatch on_data on_rrep learn_source monad
  dispatched_on u below linked =
      let v = taught u in
      let same = taught-entry u below in
      let further = taught-no_hops u in
      let forwarded =
        forwards_along w self_ip h f intf_n hd v u.routes.fresh p mac hs (rw same linked) in
      let no_request : (f.frame_type == type_rreq) ≡ false = ground (arith, kind) in
      elim kind [
        | inl payload ↦
            let no_reply : (f.frame_type == type_rrep) ≡ false = ground (arith, payload) in
            let is_payload : (f.frame_type == type_data) ≡ true = ground (arith, payload) in
            let sent_on =
              along mac (u.routes.entry p) (record f { hop_count = inc f.hop_count }) v in
            let goes : forward_data w self_ip f intf_n u.routes.fresh (some p) v ≡ done tt sent_on =
              forwarded.1 ∙ (rw (same, further) refl) in
            rw
              (
                no_request,
                no_reply,
                is_payload,
                insert_r_entry-done w self_ip h f intf_n hop hs u,
                other,
              )
              goes
        | inr reply ↦
            let is_reply : (f.frame_type == type_rrep) ≡ true = ground (arith, reply) in
            let no_payload : (f.frame_type == type_data) ≡ false = ground (arith, reply) in
            let goes : forward_rrep w self_ip f intf_n u.routes.fresh (some p) v
                ≡ done tt (gone_on u) =
              forwarded.0 ∙ (rw (no_payload, same, further) refl) in
            rw (no_request, is_reply, insert_r_entry-done w self_ip h f intf_n hop hs u, other) goes
      ]

  -- A whole frame, if the route to its destination is not stale and there is none to its source.
  pub frame_goes_on :
      IsFrame f
      → f.route_disc_flag ≡ 0
      → (s : Odr) → find s.routes.entry f.dest_ip s.routes.order ≡ some p
      → p < s.routes.fresh
      → get_hwaddr_from_int w.interfaces (s.routes.entry p).if_no ≡ some mac
      → All (λ x. str_eq (s.routes.entry x).destip f.src_ip ≡ false) s.routes.order
      → All
          (λ x.
            str_eq (s.routes.entry x).destip f.dest_ip ≡ true
            → leb ((s.routes.entry x).timestamp + s.stale_param) (w.clock s.clock_reads) ≡ false)
          s.routes.order
      → handle_ethernet_msg w (convert_host_net_order f) intf_n hop s
        ≡ done tt (gone_on (looked (looked s)))
  unfolding handle_ethernet_msg handle_frame is_expired monad
  frame_goes_on ok no_flag s found below linked absent current =
      let unflagged : is_duplicate f s ≡ false = ground (arith, no_flag) in
      rw
        (
          h.own,
          convert_net_host_order-convert_host_net_order f ok,
          unflagged,
          get_r_entry-find w f.dest_ip f.route_disc_flag s
              (All-mono s.routes.order (λ x now same. ground (arith, now same, no_flag)) current),
          found,
          get_r_entry-find w f.src_ip 0 (looked s)
              (All-mono s.routes.order (λ x far same. ground (arith, far, same)) absent),
          find_absent s.routes.entry f.src_ip s.routes.order absent,
          get_name_ip-done w self_ip h f.src_ip (looked (looked s)),
          get_name_ip-done w self_ip h f.dest_ip (looked (looked s)),
        )
        (dispatched_on (looked (looked s)) below linked)

-- What is passed on is well-formed, and differs by the hop count only.
pub relayed-IsFrame :
    (f : Frame) (hops : ℕ)
    → IsFrame f
    → IsWord hops
    → (f.frame_type ≡ type_data) ⊎ (f.frame_type ≡ type_rrep)
    → IsFrame (relayed f hops)
relayed-IsFrame f hops ok small kind = ground (arith, ok, small, kind)

pub relayed-relayed :
    (f : Frame) (a b : ℕ)
    → (f.frame_type ≡ type_data) ⊎ (f.frame_type ≡ type_rrep)
    → relayed (relayed f a) b ≡ relayed f b
relayed-relayed f a b kind = ground (arith, kind)
