-- ===== src/Network/Destination.antt =====
-- The destination of a request, with an empty table: its reply, and what it does with the data
-- that comes then.
use on_demand_routing.Base.{
  ℕ, ◌+◌, ◌<◌, ◌≡◌, ◌∙◌, refl, sym, subst, inr, true, false, none, some, ◌∷◌, str_eq, str_eq_refl,
  fits, ltb→lt, ==_refl, arith,
}
use on_demand_routing.Word.{IsWord, inc}
use on_demand_routing.Frame.{Frame, convert_host_net_order, type_data, inet_addrstrlen}
use on_demand_routing.Odr.{Odr, World, Mac, MapEntry, local}
use on_demand_routing.Odr.Outcome.{done}
use on_demand_routing.Ports.{fetch_entry_port}
use on_demand_routing.Routes.{is_nil, learned, store, allocate, link_first}
use on_demand_routing.Routes.Learning.{inserted, learnt}
use on_demand_routing.Transmit.{peer_text}
use on_demand_routing.Transmit.Replies.{counted, along}
use on_demand_routing.Handler.Ether.{dispatch, handle_ethernet_msg}
use on_demand_routing.Handler.Requests.{answer_to, destination_replies}
use on_demand_routing.Handler.Relay.{relayed}
use on_demand_routing.Handler.Arrival.{empty_dispatches, data_arrives}
use on_demand_routing.Network.Node.{Request, IsRequest, after_hops}
use on_demand_routing.Network.Tables.{after_hops-IsFrame}
use on_demand_routing.Network.Messages.{IsStation, nil-All}
use on_demand_routing.Network.Taught.{IsAnswer, relayed-IsAnswer}
use on_demand_routing.Network.Outward.{back}

-- The destination, with an empty table, gets the request after some number of hops.
module _ (q : Request) (r : IsRequest q) (there : World) (intf_there : ℕ) (mac_there : Mac)
    (b : IsStation there q.dest_ip intf_there mac_there) (other : Odr)
    (none_there : is_nil other.routes.order ≡ true) (hops : ℕ) (word : IsWord hops)
    (hop : Mac) where
  abbrev pub reply_frame : Frame
  reply_frame = answer_to (after_hops q hops) (inc other.broadcast_id) 0

  -- It has learned the way back, and replied.
  abbrev pub replied : Odr
  replied =
      along mac_there (learned (after_hops q hops) intf_there hop (there.clock other.clock_reads))
        reply_frame
        (counted (
          learnt
            (inserted (after_hops q hops) intf_there hop (there.clock other.clock_reads)
              other.routes)
            other))

  pub replies :
      handle_ethernet_msg there (convert_host_net_order (after_hops q hops)) intf_there hop other
      ≡ done tt replied
  unfolding dispatch
  replies =
      empty_dispatches there q.dest_ip b.healthy (after_hops q hops)
        (after_hops-IsFrame q r hops word) intf_there hop other none_there
      ∙ destination_replies there q.dest_ip (after_hops q hops) intf_there hop b.healthy r.src_fits
          r.dest_fits other mac_there none b.linked (str_eq_refl q.dest_ip)

  pub reply_frame-IsAnswer : IsAnswer q reply_frame
  unfolding inc
  reply_frame-IsAnswer = record {
    well_formed = record {
      frame_type = omega arith;
      broadcast_id = omega arith;
      hop_count = omega arith;
      payload_len = omega arith;
      route_disc_flag = omega arith;
      src_port = r.dst_port;
      dst_port = r.src_port;
      dest_ip = ltb→lt _ _ r.src_fits;
      src_ip = ltb→lt _ _ r.dest_fits;
      payload = omega arith;
    };
    kind = inr refl;
    unflagged = refl;
    to_source = refl;
    from_dest = refl;
  }

  -- Data from the source goes to the process on its port.
  pub handed_over :
      (g : Frame) (n : ℕ) (server : MapEntry)
      → IsAnswer (back q) g
      → g.frame_type ≡ type_data
      → IsWord n
      → fetch_entry_port other.ports g.dst_port ≡ some server
      → ((m : ℕ) → there.clock m < there.clock other.clock_reads + other.stale_param)
      → (end : Odr) × (handle_ethernet_msg there
            (convert_host_net_order (relayed g n))
            intf_there
            hop
            replied
          ≡ done tt end)
        × (end.sent
            ≡ local server.sun_path (peer_text g.src_ip g.src_port g.payload) ∷ replied.sent)
  unfolding link_first store allocate learned
  handed_over g n server a is_data small bound steady =
      let f : Frame = record g { hop_count = n } in
      let same : relayed g n ≡ f = rw is_data refl in
      let af = subst (IsAnswer (back q)) same (relayed-IsAnswer (back q) g a n small) in
      let room = subst (λ x. fits inet_addrstrlen x ≡ true) (sym a.from_dest) r.src_fits in
      let mine = subst (λ x. str_eq x q.dest_ip ≡ true) (sym a.to_source) (str_eq_refl q.dest_ip) in
      let apart = subst (λ x. str_eq q.src_ip x ≡ false) (sym a.to_source) r.apart in
      let (end, ran, sent) =
        data_arrives there q.dest_ip b.healthy f af.well_formed intf_there hop replied mine server
          room is_data a.unflagged bound
          (rw (==_refl other.routes.fresh) apart, nil-All _ other.routes.order none_there)
          (
            rw (==_refl other.routes.fresh) (ground (arith, steady (other.clock_reads + 2))),
            nil-All _ other.routes.order none_there,
          ) in
      (
        end,
        subst
            (λ x.
              handle_ethernet_msg there (convert_host_net_order x) intf_there hop replied
              ≡ done tt end)
            (sym same) ran,
        sent,
      )
