-- ===== src/Handler/Arrival.antt =====
-- Whole frames that arrive at a healthy node: a request or a reply while its table is empty, and
-- data for one of its processes.
use on_demand_routing.Base.{
  ℕ, ◌+◌, ◌≡◌, refl, ap, leb, All-mono, Bool, true, false, inl, inr, Option, none, some, List, [],
  ◌∷◌, All, Bool-cases, CStr, fits, str_eq, ◌==◌, arith,
}
use on_demand_routing.Frame.{
  Frame, IsFrame, convert_host_net_order, inet_addrstrlen, type_rreq, type_rrep, type_data,
}
use on_demand_routing.Frame.Conversion.{convert_net_host_order-convert_host_net_order}
use on_demand_routing.Odr.{Odr, World, Mac, Route, MapEntry, Sent, local}
use on_demand_routing.Odr.Outcome.{done, monad}
use on_demand_routing.Ports.{fetch_entry_port}
use on_demand_routing.Routes.{
  is_nil, is_better, is_expired, is_broadid_greater, get_r_entry, learned, store,
}
use on_demand_routing.Routes.Found.{find, looked, get_r_entry-find, find_absent}
use on_demand_routing.Routes.Learning.{
  inserted, learnt, insert_r_entry-done, check_r_entry_updates, check_r_entry_keeps,
}
use on_demand_routing.Transmit.{peer_text, process_data_message, send_to_peer_process}
use on_demand_routing.Transmit.Delivery.{IsHealthy, get_name_ip-done, sendto-done, transmitted}
use on_demand_routing.Handler.Learn.{learn_source}
use on_demand_routing.Handler.Ether.{is_duplicate, dispatch, handle_frame, handle_ethernet_msg}
use on_demand_routing.Handler.Ether.Payload.{on_data}
use on_demand_routing.Handler.Progress.{peer_text-fits}

pub get_r_entry_empty :
    (w : World) (ip : CStr) (flag : ℕ) (s : Odr)
    → is_nil s.routes.order ≡ true
    → get_r_entry w ip flag s ≡ done none s
unfolding get_r_entry monad
get_r_entry_empty w ip flag s e = rw e refl

not_greater :
    (entry : ℕ → Route) (ip : CStr) (bid : ℕ) (ps : List ℕ)
    → is_nil ps ≡ true
    → is_broadid_greater entry ip bid ps ≡ true
unfolding is_broadid_greater
not_greater entry ip bid [] e = refl
not_greater entry ip bid (p ∷ ps) e = cc

not_duplicate : (f : Frame) (s : Odr) → is_nil s.routes.order ≡ true → is_duplicate f s ≡ false
not_duplicate f s e =
    ground (arith, not_greater s.routes.entry f.src_ip f.broadcast_id s.routes.order e)

module _ (w : World) (self_ip : CStr) (h : IsHealthy w self_ip) (f : Frame) (ok : IsFrame f)
    (intf_n : ℕ) (hop : Mac) (s : Odr) where
  -- With an empty table, the case for the frame's type runs without entries.
  pub empty_dispatches :
      is_nil s.routes.order ≡ true
      → handle_ethernet_msg w (convert_host_net_order f) intf_n hop s
        ≡ dispatch w self_ip f intf_n hop none none s
  unfolding handle_ethernet_msg handle_frame monad
  empty_dispatches e =
      rw
        (
          h.own,
          convert_net_host_order-convert_host_net_order f ok,
          not_duplicate f s e,
          get_r_entry_empty w f.dest_ip f.route_disc_flag s e,
          get_r_entry_empty w f.src_ip 0 s e,
          get_name_ip-done w self_ip h f.src_ip s,
          get_name_ip-done w self_ip h f.dest_ip s,
        )
        refl

  learns_source :
      (hs : fits inet_addrstrlen f.src_ip ≡ true) (src : Option ℕ) (u : Odr)
      → (r : ℕ × Bool) × (v : Odr) × (learn_source w f intf_n hop src u ≡ done r v)
        × (v.sent ≡ u.sent)
        × (v.ports ≡ u.ports)
  unfolding learn_source monad
  learns_source hs none u = (
    (u.routes.fresh, true),
    learnt (inserted f intf_n hop (w.clock u.clock_reads) u.routes) u,
    rw (insert_r_entry-done w self_ip h f intf_n hop hs u) refl,
    refl,
    refl,
  )
  learns_source hs (some p) u = elim (Bool-cases (is_better f (u.routes.entry p))) [
    | inl better ↦ (
      (p, true),
      learnt (store u.routes p (learned f intf_n hop (w.clock u.clock_reads))) u,
      rw (check_r_entry_updates w self_ip h f intf_n hop hs u p better) refl,
      refl,
      refl,
    )
    | inr worse ↦
        ((p, false), u, rw (check_r_entry_keeps w f intf_n hop u p worse) refl, refl, refl)
  ]

  module _ (mine : str_eq f.dest_ip self_ip ≡ true) (e : MapEntry)
      (hs : fits inet_addrstrlen f.src_ip ≡ true) where
    abbrev pub to_process : Sent
    to_process = local e.sun_path (peer_text f.src_ip f.src_port f.payload)

    processed :
        (v : Odr)
        → fetch_entry_port v.ports f.dst_port ≡ some e
        → process_data_message w f v ≡ done tt (transmitted to_process v)
    unfolding process_data_message send_to_peer_process monad
    processed v bound =
        rw
          (
            h.own,
            mine,
            bound,
            peer_text-fits f.src_ip f.src_port f.payload hs ok.src_port ok.payload,
            sendto-done w self_ip h to_process v,
          )
          refl

    data_handed_over :
        (src : Option ℕ) (u : Odr)
        → fetch_entry_port u.ports f.dst_port ≡ some e
        → (t : Odr) × (on_data w self_ip f intf_n hop none src u ≡ done tt t)
          × (t.sent ≡ to_process ∷ u.sent)
    unfolding on_data monad
    data_handed_over src u bound =
        let (r, v, ran, same_sent, same_ports) = learns_source hs src u in
        (
          transmitted to_process v,
          rw (ran, mine, processed v (rw same_ports bound)) refl,
          ap (λ l. to_process ∷ l) same_sent,
        )

    -- Data for this node, from a source whose entry is not stale, goes to the process on its port.
    pub data_arrives :
        f.frame_type ≡ type_data
        → f.route_disc_flag ≡ 0
        → fetch_entry_port s.ports f.dst_port ≡ some e
        → All (λ p. str_eq (s.routes.entry p).destip f.dest_ip ≡ false) s.routes.order
        → All
            (λ p.
              leb ((s.routes.entry p).timestamp + s.stale_param) (w.clock ((looked s).clock_reads))
              ≡ false)
            s.routes.order
        → (t : Odr) × (handle_ethernet_msg w (convert_host_net_order f) intf_n hop s ≡ done tt t)
          × (t.sent ≡ to_process ∷ s.sent)
    unfolding handle_ethernet_msg handle_frame dispatch is_expired monad
    data_arrives kind no_flag bound absent current =
        let (t, ran, sent) =
          data_handed_over (find s.routes.entry f.src_ip s.routes.order) (looked (looked s))
            bound in
        let unflagged : is_duplicate f s ≡ false = ground (arith, no_flag) in
        let no_request : (f.frame_type == type_rreq) ≡ false = ground (arith, kind) in
        let no_reply : (f.frame_type == type_rrep) ≡ false = ground (arith, kind) in
        let is_payload : (f.frame_type == type_data) ≡ true = ground (arith, kind) in
        (
          t,
          rw
              (
                h.own,
                convert_net_host_order-convert_host_net_order f ok,
                unflagged,
                get_r_entry-find w f.dest_ip f.route_disc_flag s
                    (All-mono s.routes.order (λ p far same. ground (arith, far, same)) absent),
                find_absent s.routes.entry f.dest_ip s.routes.order absent,
                get_r_entry-find w f.src_ip 0 (looked s)
                    (All-mono s.routes.order (λ p now _. ground (arith, now)) current),
                get_name_ip-done w self_ip h f.src_ip (looked (looked s)),
                get_name_ip-done w self_ip h f.dest_ip (looked (looked s)),
                no_request,
                no_reply,
                is_payload,
              )
              ran,
          sent,
        )
