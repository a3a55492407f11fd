-- ===== src/Network/Reaction.antt =====
-- What a node does with the request.
use on_demand_routing.Base.{
  ℕ, ◌+◌, ◌≤◌, ◌<◌, ◌≡◌, refl, subst, inl, inr, true, false, none, some, CStr, str_eq, All-mono,
  Holds, Bool-cases, Option-cases, arith,
}
use on_demand_routing.Word.{rank, IsWord}
use on_demand_routing.Frame.{Frame, convert_host_net_order}
use on_demand_routing.Frame.Conversion.{convert_net_host_order-convert_host_net_order}
use on_demand_routing.Odr.{Odr, World, Mac}
use on_demand_routing.Odr.Outcome.{monad}
use on_demand_routing.Odr.Ensures.{Returns}
use on_demand_routing.Routes.{is_better, is_expired}
use on_demand_routing.Routes.Found.{find, looked, get_r_entry-find, find_absent, find-Holds}
use on_demand_routing.Transmit.Delivery.{IsHealthy, get_name_ip-done}
use on_demand_routing.Handler.Ether.{is_duplicate, dispatch, handle_frame, handle_ethernet_msg}
use on_demand_routing.Handler.Ether.Rreq.{on_rreq}
use on_demand_routing.Handler.Requests.{
  duplicates_stop, unknown_request_floods, better_request_floods,
}
use on_demand_routing.Network.Tables.{
  after_hops-IsFrame, is_better-distance, worse-distance, inc_small, inserted-IsCalm, stored-IsCalm,
  distance-inserted, distance-stored, way-inserted, way-stored,
}
use on_demand_routing.Network.Node.{
  Reaction, ignored, flooded, Request, IsRequest, after_hops, far, IsCalm, IsCalmTable, IsCalmNode,
  distance, way,
}

module _ (w : World) (self_ip : CStr) (h : IsHealthy w self_ip) (q : Request) (r : IsRequest q)
    (elsewhere : str_eq q.dest_ip self_ip ≡ false) (stale : ℕ)
    (steady : (m n : ℕ) → w.clock n < w.clock m + stale) (hops : ℕ) (small : hops + 1 < far)
    (intf_n : ℕ) (hop : Mac) where
  abbrev incoming : Frame
  incoming = after_hops q hops

  -- Both lookups.
  pub calm_lookups :
      (s : Odr)
      → IsCalmNode w q stale s
      → handle_frame w self_ip incoming intf_n hop s
        ≡ on_rreq w self_ip incoming intf_n hop none
            (find s.routes.entry q.src_ip s.routes.order)
            (looked (looked s))
  unfolding handle_frame dispatch is_expired monad
  calm_lookups s (st, calm) =
      let t = s.routes in
      rw
        (
          get_r_entry-find w q.dest_ip q.route_disc_flag s
              (All-mono t.order (λ p c same. ground (arith, same, c.1.0)) calm),
          find_absent t.entry q.dest_ip t.order (All-mono t.order (λ p c. c.1.0) calm),
          get_r_entry-find w q.src_ip 0 (looked s) (
              All-mono t.order
                (λ p c same. ground (arith, st, (c.1.1 same).3 ((looked s).clock_reads))) calm),
          get_name_ip-done w self_ip h q.src_ip (looked (looked s)),
          get_name_ip-done w self_ip h q.dest_ip (looked (looked s)),
        )
        refl

  abbrev Reacts : Odr → Odr → Type 0
  Reacts s t = IsCalmNode w q stale t × Reaction w q hops intf_n hop s t

  Reacts-unknown :
      (s : Odr)
      → IsCalmNode w q stale s
      → find s.routes.entry q.src_ip s.routes.order ≡ none
      → Returns
          (λ _ t. Reacts s t)
          (on_rreq w self_ip incoming intf_n hop none none (looked (looked s)))
  unfolding distance way
  Reacts-unknown s (st, calm) absent =
      let u = looked (looked s) in
      rw
        (
          unknown_request_floods w self_ip incoming intf_n hop h r.src_fits r.dest_fits u elsewhere,
          inc_small hops small,
        )
        (
          (
            st,
            inserted-IsCalm w q r stale steady hops small intf_n hop u.clock_reads s.routes calm,
          ),
          flooded (rw absent (omega (arith, small)))
              (distance-inserted w q r stale steady hops small intf_n hop u.clock_reads s.routes)
              (way-inserted w q r stale steady hops small intf_n hop u.clock_reads s.routes) refl,
        )

  known_route :
      (s : Odr) (p : ℕ)
      → IsCalmTable w q stale s.routes
      → find s.routes.entry q.src_ip s.routes.order ≡ some p
      → let e = s.routes.entry p in
        IsWord e.broadcast_id × (rank e.broadcast_id ≤ rank q.broadcast_id) × (e.no_hops < far)
  known_route s p calm found =
      let t = s.routes in
      let (c, same) =
        subst
          (Holds (λ p.
            ((p < t.fresh) × IsCalm w q stale (t.entry p))
            × (str_eq (t.entry p).destip q.src_ip ≡ true)))
          found
          (find-Holds t.entry q.src_ip (λ p. (p < t.fresh) × IsCalm w q stale (t.entry p)) t.order
            calm) in
      let known = c.1.1 same in (known.0, known.1, known.2)

  nearer :
      (s : Odr) (p : ℕ)
      → IsCalmTable w q stale s.routes
      → find s.routes.entry q.src_ip s.routes.order ≡ some p
      → is_better incoming (s.routes.entry p) ≡ true
      → hops + 1 ≤ distance q s
  unfolding distance way
  nearer s p calm found better =
      let known = known_route s p calm found in
      rw found
        (is_better-distance q hops (s.routes.entry p) r.broadcast_id small known.0 known.2 better)

  -- A node that has no use for the request has been reached by it.
  reached :
      (s : Odr) (p : ℕ)
      → IsCalmTable w q stale s.routes
      → find s.routes.entry q.src_ip s.routes.order ≡ some p
      → is_better incoming (s.routes.entry p) ≡ false
      → distance q s < far
  unfolding distance way
  reached s p calm found worse =
      let known = known_route s p calm found in
      rw found
        (worse-distance q hops (s.routes.entry p) r.broadcast_id known.0 known.1 known.2 worse)

  Reacts-known :
      (s : Odr) (p : ℕ)
      → IsCalmNode w q stale s
      → find s.routes.entry q.src_ip s.routes.order ≡ some p
      → Returns
          (λ _ t. Reacts s t)
          (on_rreq w self_ip incoming intf_n hop none (some p) (looked (looked s)))
  unfolding distance way
  Reacts-known s p (st, calm) found =
      let u = looked (looked s) in
      elim (Bool-cases (is_better incoming (s.routes.entry p))) [
        | inl better ↦
            rw
              (
                better_request_floods w self_ip incoming intf_n hop h r.src_fits r.dest_fits u p
                    elsewhere better,
                inc_small hops small,
              )
              (
                (
                  st,
                  stored-IsCalm w q r stale steady hops small intf_n hop u.clock_reads s.routes p
                      calm,
                ),
                flooded (nearer s p calm found better)
                    (distance-stored w q r stale steady hops small intf_n hop u.clock_reads s.routes
                      p found)
                    (way-stored w q r stale steady hops small intf_n hop u.clock_reads s.routes p
                      found)
                    refl,
              )
        | inr worse ↦
            rw (duplicates_stop w self_ip incoming intf_n hop p u worse elsewhere).0
              ((st, calm), ignored refl refl refl (λ _. reached s p calm found worse))
      ]

  -- Reaction.
  pub handle_ethernet_msg-Reacts :
      (s : Odr)
      → IsCalmNode w q stale s
      → Returns
          (λ _ t. Reacts s t)
          (handle_ethernet_msg w (convert_host_net_order incoming) intf_n hop s)
  unfolding handle_ethernet_msg monad
  handle_ethernet_msg-Reacts s c =
      rw
        (
          h.own,
          convert_net_host_order-convert_host_net_order incoming
              (after_hops-IsFrame q r hops (omega (arith, small))),
        )
        (elim (Bool-cases (is_duplicate incoming s)) [
          | inl known ↦
              rw known (c, ignored refl refl refl (λ plain. absurd (ground (arith, known, plain))))
          | inr new ↦
              rw (new, calm_lookups s c)
                (elim (Option-cases (find s.routes.entry q.src_ip s.routes.order)) [
                  | inl e ↦ rw e (Reacts-unknown s c e)
                  | inr (p, e) ↦ rw e (Reacts-known s p c e)
                ])
        ])
