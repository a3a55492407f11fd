-- ===== src/Network/Waiting.antt =====
-- The messages that wait at the nodes while a request is flooded.
use on_demand_routing.Base.{
  ℕ, ◌+◌, ◌<◌, ◌≡◌, ◌∙◌, refl, sym, ap, subst, inl, inr, false, none, some, List, ◌∷◌, CStr, str_eq,
  All, Bool-cases, Option-cases, ◌==◌, ==_iff, arith,
}
use on_demand_routing.Frame.{Frame, convert_host_net_order}
use on_demand_routing.Frame.Conversion.{convert_net_host_order-convert_host_net_order}
use on_demand_routing.Odr.{Odr, World, Mac, Pending}
use on_demand_routing.Odr.Outcome.{monad}
use on_demand_routing.Odr.Ensures.{Returns}
use on_demand_routing.Routes.{is_better}
use on_demand_routing.Routes.Found.{find, looked}
use on_demand_routing.Transmit.Delivery.{IsHealthy}
use on_demand_routing.Handler.Ether.{is_duplicate, handle_ethernet_msg}
use on_demand_routing.Handler.Ether.Rreq.{on_rreq}
use on_demand_routing.Handler.Requests.{
  duplicates_stop, unknown_request_floods, better_request_floods,
}
use on_demand_routing.Handler.Discovery.{parked}
use on_demand_routing.Network.{Net, Wiring, Run, here, stepped, deliver, lose}
use on_demand_routing.Network.Tables.{after_hops-IsFrame}
use on_demand_routing.Network.Reaction.{calm_lookups}
use on_demand_routing.Network.Node.{Request, IsRequest, after_hops, far, IsCalmNode}
use on_demand_routing.Network.Spread.{All-middle}
use on_demand_routing.Network.Flood.{IsNetwork, IsFlying, IsFlood, hops_of, flying-small}
use on_demand_routing.Network.Ending.{flood_terminates}

module _ (w : World) (self_ip : CStr) (h : IsHealthy w self_ip) (q : Request) (r : IsRequest q)
    (elsewhere : str_eq q.dest_ip self_ip ≡ false) (stale : ℕ)
    (steady : (m n : ℕ) → w.clock n < w.clock m + stale) (hops : ℕ) (small : hops + 1 < far)
    (intf_n : ℕ) (hop : Mac) where
  abbrev incoming : Frame
  incoming = after_hops q hops

  abbrev Keeps : Odr → Odr → Type 0
  Keeps s t = t.pending ≡ s.pending

  known-Keeps :
      (u : Odr) (p : ℕ)
      → Returns (λ _ t. Keeps u t) (on_rreq w self_ip incoming intf_n hop none (some p) u)
  known-Keeps u p = elim (Bool-cases (is_better incoming (u.routes.entry p))) [
    | inl better ↦
        rw
          (better_request_floods w self_ip incoming intf_n hop h r.src_fits r.dest_fits u p
            elsewhere better)
          refl
    | inr worse ↦ rw (duplicates_stop w self_ip incoming intf_n hop p u worse elsewhere).0 refl
  ]

  unknown-Keeps :
      (u : Odr) → Returns (λ _ t. Keeps u t) (on_rreq w self_ip incoming intf_n hop none none u)
  unknown-Keeps u =
      rw (unknown_request_floods w self_ip incoming intf_n hop h r.src_fits r.dest_fits u elsewhere)
        refl

  -- The request changes nothing in the pending queue.
  handle_ethernet_msg-Keeps :
      (s : Odr)
      → IsCalmNode w q stale s
      → Returns
          (λ _ t. Keeps s t)
          (handle_ethernet_msg w (convert_host_net_order incoming) intf_n hop s)
  unfolding handle_ethernet_msg monad
  handle_ethernet_msg-Keeps s c =
      rw
        (
          h.own,
          convert_net_host_order-convert_host_net_order incoming
              (after_hops-IsFrame q r hops (omega (arith, small))),
        )
        (elim (Bool-cases (is_duplicate incoming s)) [
          | inl known ↦ rw known refl
          | inr new ↦
              rw
                (new, calm_lookups w self_ip h q r elsewhere stale steady hops small intf_n hop s c)
                (elim (Option-cases (find s.routes.entry q.src_ip s.routes.order)) [
                  | inl e ↦ rw e (unknown-Keeps (looked (looked s)))
                  | inr (p, e) ↦ rw e (known-Keeps (looked (looked s)) p)
                ])
        ])

module _ (nodes links degree stale : ℕ) (world : ℕ → World) (heard : Wiring) (self : ℕ → CStr)
    (q : Request) (r : IsRequest q)
    (net : IsNetwork nodes links degree stale world heard self q) where
  -- The pending queues are the same after the flood.
  run-Keeps :
      (s t : Net) (k : ℕ)
      → IsFlood nodes stale world q s
      → Run nodes world heard s k t
      → (i : ℕ) → (t.node i).pending ≡ (s.node i).pending
  run-Keeps s _ _ fl here i = refl
  run-Keeps s _ _ fl (stepped {t = u} run (lose before p after eq)) i = run-Keeps s u _ fl run i
  run-Keeps s _ _ fl (stepped {t = u} run (deliver before p after t eq to ran)) i =
      let mid = run-Keeps s u _ fl run i in
      let now =
        (flood_terminates nodes links degree stale world heard self q r net s u _ fl run).0 in
      let Flies = IsFlying nodes stale world q u.node in
      let fly = (All-middle Flies before p after (subst (All Flies) eq now.flying)).1 in
      let small = flying-small nodes links degree stale world heard self q r net u.node p fly in
      let Kept = λ (x : Odr). x.pending ≡ (u.node p.to).pending in
      let kept =
        handle_ethernet_msg-Keeps (world p.to) (self p.to) (net.healthy p.to to) q r
          (net.elsewhere p.to to) stale (net.steady p.to to) (hops_of p) small p.if_index p.hop
          (u.node p.to) (now.calm p.to to) in
      let kept_now : Kept t = subst (Returns (λ _ x. Kept x)) ran (
        subst
          (λ f.
            Returns (λ _ x. Kept x)
              (handle_ethernet_msg (world p.to) f p.if_index p.hop (u.node p.to)))
          (sym fly.1) kept) in
      elim (Bool-cases (i == p.to)) [
        | inl at ↦
            rw at (kept_now ∙ ap (λ x. (u.node x).pending) (sym ((==_iff i p.to).0 at)) ∙ mid)
        | inr other ↦ rw other mid
      ]

  -- A frame that waits goes on waiting.
  pub still_parked :
      (s t : Net) (k : ℕ)
      → IsFlood nodes stale world q s
      → Run nodes world heard s k t
      → (i : ℕ) (ip : CStr) (g : Frame) (rest : List Pending)
      → (s.node i).pending ≡ record { destip = ip; odrframe = g } ∷ rest
      → t.node i ≡ parked ip g (record (t.node i) { pending = rest })
  still_parked s t k fl run i ip g rest waits =
      ap (λ l. record (t.node i) { pending = l }) (run-Keeps s t k fl run i ∙ waits)
