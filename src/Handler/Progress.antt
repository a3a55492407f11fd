-- ===== src/Handler/Progress.antt =====
-- The cases of `handle_ethernet_msg` on a healthy node.
use on_demand_routing.Base.{
  ℕ, ◌<◌, ◌≡◌, inl, inr, true, false, Bool, Option, none, some, List, [], ◌∷◌, length,
  length-append, CStr, fits, str_eq, ◌==◌, arith, All, Holds, Bool-cases, Option-cases, lt→ltb,
  ltb→lt, if◌then◌else◌,
}
use on_demand_routing.Word.{inc, word_mod}
use on_demand_routing.Decimal.Numbers.{length-print_int}
use on_demand_routing.Frame.{Frame, inet_addrstrlen, payload_size, type_rrep, type_data}
use on_demand_routing.Odr.{Odr, World, Pending}
use on_demand_routing.Odr.Outcome.{Act, attempt, pure, ◌>>=◌, monad}
use on_demand_routing.Odr.Ensures.{Returns}
use on_demand_routing.Ports.{fetch_entry_port}
use on_demand_routing.Pending.{take_first, lookup_pending_queue}
use on_demand_routing.Transmit.{
  eth_frame_len, peer_text, process_data_message, send_to_peer_process,
}
use on_demand_routing.Transmit.Delivery.{
  IsHealthy, sendto-done, send_then_name-done, send_req_broadcast-copies,
}
use on_demand_routing.Transmit.Replies.{send_rrep_packet-done, send_rrep_packet_forwards}
use on_demand_routing.Handler.Learn.{pass_on}
use on_demand_routing.Handler.Ether.Rreq.{reply, answer}
use on_demand_routing.Handler.Ether.Rrep.{release, forward_rrep}
use on_demand_routing.Handler.Ether.Payload.{forward_data}
use on_demand_routing.Handler.Forwarding.{forwards_along, unroutable_waits}
use on_demand_routing.Handler.Serving.{FitsFrame, IsServing, Given}

take_first-FitsFrame :
    (w : World) (ip : CStr) (q : List Pending)
    → All (λ x. FitsFrame w x.odrframe) q
    → Holds (FitsFrame w) (take_first ip q).0
      × All (λ x. FitsFrame w x.odrframe) (take_first ip q).1
unfolding take_first
take_first-FitsFrame w ip [] h = (tt, tt)
take_first-FitsFrame w ip (x ∷ q) (h, hs) =
    let ih = take_first-FitsFrame w ip q hs in
    elim (Bool-cases (str_eq x.destip ip)) [
      | inl same ↦ rw same (h, hs)
      | inr other ↦ rw other (ih.0, (h, ih.1))
    ]

-- The text for a local process fits, since its parts do.
pub peer_text-fits :
    (ip : CStr) (port : ℕ) (payload : CStr)
    → fits inet_addrstrlen ip ≡ true
    → port < word_mod
    → length payload < payload_size
    → fits eth_frame_len (peer_text ip port payload) ≡ true
unfolding peer_text
peer_text-fits ip port payload short word room = lt→ltb _ _ (
    grind (
      arith,
      length-append {A = ℕ},
      length-print_int port word,
      ltb→lt (length ip) inet_addrstrlen short,
    ))

module _ (w : World) (self_ip : CStr) (h : IsHealthy w self_ip)
    (own : fits inet_addrstrlen self_ip ≡ true) (f : Frame) (intf_n : ℕ) (fit : FitsFrame w f) where
  -- The action returns, and the next message can be served.
  abbrev pub Serves : Act (Unit {0}) → Odr → Type 0
  Serves m s = Returns (λ _ t. IsServing w t) (m s)

  pub pass_on-Serves : (asent : ℕ) (s : Odr) → IsServing w s → Serves (pass_on w f intf_n asent) s
  unfolding pass_on
  pass_on-Serves asent s v =
      rw
        (send_req_broadcast-copies w self_ip h intf_n f.broadcast_id f.src_port f.dst_port
          (inc f.hop_count) f.route_disc_flag f.dest_ip f.src_ip f.payload asent s fit.1 fit.0)
        v

  pub reply-Serves :
      (p : ℕ) (s : Odr) → p < s.routes.fresh → IsServing w s → Serves (reply w self_ip f intf_n p) s
  unfolding reply monad
  reply-Serves p s lt v =
      let (mac, linked) = v.1 p lt in
      rw (send_rrep_packet-done w self_ip h (s.routes.entry p) mac linked f 0 s fit.0 fit.1) v

  pub answer-Serves :
      (p : ℕ) (b : Bool) (dest : Option ℕ) (s : Odr)
      → p < s.routes.fresh
      → IsServing w s
      → Serves (answer w self_ip f intf_n p b dest) s
  unfolding answer monad
  answer-Serves p true none s lt v = pass_on-Serves 0 s v
  answer-Serves p false none s lt v = v
  answer-Serves p b (some d) s lt v =
      let (mac, linked) = v.1 p lt in
      rw
        (send_rrep_packet-done w self_ip h (s.routes.entry p) mac linked f
          (s.routes.entry d).no_hops s fit.0 fit.1)
        (then_pass_on b _ v)
    where
      then_pass_on :
          (b : Bool) (t : Odr)
          → IsServing w t
          → Serves (if b then pass_on w f intf_n 1 else pure tt) t
      then_pass_on true t v = pass_on-Serves 1 t v
      then_pass_on false t v = v

  pub release-Serves :
      (p : ℕ) (parked : Option Frame) (s : Odr)
      → p < s.routes.fresh
      → Holds (FitsFrame w) parked
      → IsServing w s
      → Serves (release w self_ip f intf_n p parked) s
  unfolding release monad
  release-Serves p none s lt g v = v
  release-Serves p (some x) s lt g v =
      let (mac, linked) = v.1 p lt in
      elim (Bool-cases (x.frame_type == type_rrep)) [
        | inl is_rrep ↦
            rw
              (
                is_rrep,
                send_rrep_packet_forwards w self_ip h (s.routes.entry p) mac linked x x.hop_count s
                    g.0 g.1,
              )
              v
        | inr not_rrep ↦ elim (Bool-cases (x.frame_type == type_data)) [
          | inl is_data ↦
              rw (not_rrep, is_data, linked)
                (rw
                  (send_then_name-done w self_ip h mac (s.routes.entry p).next_hop
                    (s.routes.entry p).if_no _ (s.routes.entry p).destip s)
                  v)
          | inr neither ↦ rw (not_rrep, neither) v
        ]
      ]

  pub forward_rrep-Serves :
      (p : ℕ) (dest : Option ℕ) (s : Odr)
      → Given w s dest
      → IsServing w s
      → Serves (forward_rrep w self_ip f intf_n p dest) s
  forward_rrep-Serves p none s g v =
      rw ((unroutable_waits w self_ip h f intf_n fit.1 s p own).0) (v.0, v.1, (fit, v.2), v.3)
  forward_rrep-Serves p (some d) s lt v =
      let (mac, linked) = v.1 d lt in
      rw ((forwards_along w self_ip h f intf_n fit.1 s p d mac fit.0 linked).0) v

  pub forward_data-Serves :
      (p : ℕ) (dest : Option ℕ) (s : Odr)
      → Given w s dest
      → IsServing w s
      → Serves (forward_data w self_ip f intf_n p dest) s
  forward_data-Serves p none s g v =
      rw ((unroutable_waits w self_ip h f intf_n fit.1 s p own).1) (v.0, v.1, (fit, v.2), v.3)
  forward_data-Serves p (some d) s lt v =
      let (mac, linked) = v.1 d lt in
      rw ((forwards_along w self_ip h f intf_n fit.1 s p d mac fit.0 linked).1) v

  pub lookup-Serves :
      (p : ℕ) (s : Odr)
      → p < s.routes.fresh
      → IsServing w s
      → Serves (lookup_pending_queue f.src_ip >>= release w self_ip f intf_n p) s
  unfolding lookup_pending_queue monad
  lookup-Serves p s lt v =
      let k = take_first-FitsFrame w f.src_ip s.pending v.2 in
      release-Serves p (take_first f.src_ip s.pending).0 _ lt k.0 (v.0, v.1, k.1, v.3)

  pub process_data_message-Serves :
      (s : Odr)
      → f.src_port < word_mod
      → length f.payload < payload_size
      → IsServing w s
      → Serves (attempt (process_data_message w f)) s
  unfolding process_data_message send_to_peer_process monad
  process_data_message-Serves s word room v = elim (Bool-cases (str_eq f.dest_ip self_ip)) [
    | inl mine ↦ elim (Option-cases (fetch_entry_port s.ports f.dst_port)) [
      | inl absent ↦ rw (h.own, mine, absent) v
      | inr (e, found) ↦
          rw
            (
              h.own,
              mine,
              found,
              peer_text-fits f.src_ip f.src_port f.payload fit.0 word room,
              sendto-done w self_ip h _ s,
            )
            v
    ]
    | inr other ↦ rw (h.own, other) v
  ]
