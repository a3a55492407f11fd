-- ===== src/Network/Relays.antt =====
-- One relay of a flooded network, which passes on what the destination sends to the source.
use on_demand_routing.Base.{
  ℕ, ◌+◌, ◌<◌, ◌≡◌, refl, sym, subst, inl, inr, true, false, Option, none, some, List, [], ◌∷◌,
  All-mono, Holds, Option-cases, CStr, str_eq, fits, arith,
}
use on_demand_routing.Frame.{Frame, convert_host_net_order, inet_addrstrlen}
use on_demand_routing.Odr.{Odr, World, Mac, raw}
use on_demand_routing.Odr.Outcome.{done}
use on_demand_routing.System.{get_hwaddr_from_int, convert_to_mac}
use on_demand_routing.Routes.Found.{find, find-Holds, looked}
use on_demand_routing.Transmit.Delivery.{IsHealthy}
use on_demand_routing.Handler.Ether.{handle_ethernet_msg}
use on_demand_routing.Handler.Relay.{relayed}
use on_demand_routing.Handler.Onward.{gone_on, frame_goes_on}
use on_demand_routing.Network.{Packet}
use on_demand_routing.Network.Node.{Request, IsRequest, far, IsCalm, IsCalmNode, way}
use on_demand_routing.Network.Tables.{inc_small}
use on_demand_routing.Network.Taught.{IsAnswer, IsTaught, after-IsTaught}

-- The only packet in the air: for a node, with the frame.
abbrev pub AloneFor : ℕ → Frame → List Packet → Type 0
AloneFor j f ps =
    (k : ℕ) × (m : Mac) × (ps
      ≡ record { to = j; if_index = k; hop = m; frame = convert_host_net_order f } ∷ [])

module _ (w : World) (self_ip : CStr) (h : IsHealthy w self_ip) (q : Request) (r : IsRequest q)
    (stale : ℕ) (steady : (m n : ℕ) → w.clock n < w.clock m + stale)
    (between : str_eq q.src_ip self_ip ≡ false) (f : Frame) (a : IsAnswer q f)
    (small : f.hop_count + 1 < far) (intf_n : ℕ) (hop : Mac) (s : Odr)
    (calm : IsCalmNode w q stale s) where
  -- What is known of the entry on the way to the source.
  on_way :
      (p : ℕ)
      → find s.routes.entry q.src_ip s.routes.order ≡ some p
      → (p < s.routes.fresh) × IsCalm w q stale (s.routes.entry p)
  on_way p found =
      let t = s.routes in
      (subst
        (Holds (λ p.
          ((p < t.fresh) × IsCalm w q stale (t.entry p))
          × (str_eq (t.entry p).destip q.src_ip ≡ true)))
        found
        (find-Holds t.entry q.src_ip (λ p. (p < t.fresh) × IsCalm w q stale (t.entry p)) t.order
          calm.1)).0

  src_room : fits inet_addrstrlen f.src_ip ≡ true
  src_room = subst (λ x. fits inet_addrstrlen x ≡ true) (sym a.from_dest) r.dest_fits

  dest_room : fits inet_addrstrlen f.dest_ip ≡ true
  dest_room = subst (λ x. fits inet_addrstrlen x ≡ true) (sym a.to_source) r.src_fits

  not_here : str_eq f.dest_ip self_ip ≡ false
  not_here = subst (λ x. str_eq x self_ip ≡ false) (sym a.to_source) between

  goes_on :
      (p : ℕ) (mac : Mac)
      → find s.routes.entry q.src_ip s.routes.order ≡ some p
      → get_hwaddr_from_int w.interfaces (s.routes.entry p).if_no ≡ some mac
      → handle_ethernet_msg w (convert_host_net_order f) intf_n hop s
        ≡ done tt (
            gone_on w self_ip h f intf_n hop src_room dest_room p mac not_here a.kind
              (looked (looked s)))
  goes_on p mac found linked =
      frame_goes_on w self_ip h f intf_n hop src_room dest_room p mac not_here a.kind a.well_formed
        a.unflagged s
        (subst (λ x. find s.routes.entry x s.routes.order ≡ some p) (sym a.to_source) found)
        (on_way p found).0 linked
        (All-mono s.routes.order
          (λ x c. subst (λ z. str_eq (s.routes.entry x).destip z ≡ false) (sym a.from_dest) c.1.0)
          calm.1)
        (All-mono s.routes.order
          (λ x c same.
            let known =
              c.1.1 (subst (λ z. str_eq (s.routes.entry x).destip z ≡ true) a.to_source same) in
            ground (arith, calm.0, known.3 s.clock_reads))
          calm.1)

  -- It sends one frame along its route to the source, one hop further.
  pub sends_on :
      (k : ℕ) (m mac : Mac)
      → way q s ≡ some (k, m)
      → s.sent ≡ []
      → get_hwaddr_from_int w.interfaces k ≡ some mac
      → (z : Odr) × (handle_ethernet_msg w (convert_host_net_order f) intf_n hop s ≡ done tt z)
        × (z.sent
            ≡ raw
                (convert_to_mac mac)
                (convert_to_mac m)
                k
                (convert_host_net_order (relayed f (f.hop_count + 1)))
              ∷ [])
        × IsTaught w q stale z.routes intf_n hop
        × (z.stale_param ≡ stale)
  unfolding way
  sends_on k m mac leads quiet linked =
      let t = s.routes in
      elim (Option-cases (find t.entry q.src_ip t.order)) [
        | inl absent ↦
            let never : ◌≡◌ {A = Option (ℕ × Mac)} none (some (k, m)) = rw absent at leads in cc
        | inr (p, found) ↦
            let same : ◌≡◌ {A = Option (ℕ × Mac)} (some ((t.entry p).if_no, (t.entry p).next_hop))
                (some (k, m)) =
              rw found at leads in
            let same_k : (t.entry p).if_no ≡ k = cc in
            let same_m : (t.entry p).next_hop ≡ m = cc in
            (
              gone_on w self_ip h f intf_n hop src_room dest_room p mac not_here a.kind
                  (looked (looked s)),
              goes_on p mac found (rw same_k linked),
              rw (same_k, same_m, quiet, inc_small f.hop_count small) refl,
              after-IsTaught w q stale r steady f a intf_n hop ((looked (looked s)).clock_reads)
                  s.routes calm.1,
              calm.0,
            )
      ]
