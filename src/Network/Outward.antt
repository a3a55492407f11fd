-- ===== src/Network/Outward.antt =====
-- A relay that knows the way to the destination passes on what the source sends there.
use on_demand_routing.Base.{
  ℕ, ◌<◌, ◌≡◌, ◌∙◌, refl, sym, subst, inl, inr, true, false, Option, none, some, [], ◌∷◌, All-mono,
  Holds, Option-cases, Bool-cases, CStr, str_eq, str_eq_comm, fits, arith,
}
use on_demand_routing.Word.{inc, IsWord}
use on_demand_routing.Frame.{Frame, convert_host_net_order, inet_addrstrlen}
use on_demand_routing.Odr.{Odr, World, Mac, Route, raw}
use on_demand_routing.Odr.Outcome.{done}
use on_demand_routing.System.{get_hwaddr_from_int, convert_to_mac}
use on_demand_routing.Routes.{is_better}
use on_demand_routing.Routes.Found.{find, find-Holds, looked}
use on_demand_routing.Transmit.Delivery.{IsHealthy}
use on_demand_routing.Handler.Ether.{handle_ethernet_msg}
use on_demand_routing.Handler.Relay.{relayed, known_hops, frame_relayed}
use on_demand_routing.Network.Node.{Request, IsRequest, far}
use on_demand_routing.Network.Taught.{IsAnswer, IsTaught, IsUsable}

-- The request of the other direction.
abbrev pub back : Request → Request
back q = record q { src_ip = q.dest_ip; dest_ip = q.src_ip }

known_hops-IsWord :
    (g : Frame) (entry : ℕ → Route) (found : Option ℕ)
    → Holds (λ p. (entry p).no_hops < far) found
    → IsWord (known_hops g entry found)
unfolding inc
known_hops-IsWord g entry none short = omega arith
known_hops-IsWord g entry (some p) short = elim (Bool-cases (is_better g (entry p))) [
  | inl better ↦ rw better (omega arith)
  | inr worse ↦ rw worse (omega (arith, short))
]

module _ (w : World) (self_ip : CStr) (h : IsHealthy w self_ip) (q : Request) (r : IsRequest q)
    (stale : ℕ) (elsewhere : str_eq q.dest_ip self_ip ≡ false) (g : Frame) (a : IsAnswer (back q) g)
    (intf_n : ℕ) (hop : Mac) (s : Odr) (k : ℕ) (m : Mac) (taught : IsTaught w q stale s.routes k m)
    (same_stale : s.stale_param ≡ stale) where
  source_room : fits inet_addrstrlen g.src_ip ≡ true
  source_room = subst (λ x. fits inet_addrstrlen x ≡ true) (sym a.from_dest) r.src_fits

  dest_room : fits inet_addrstrlen g.dest_ip ≡ true
  dest_room = subst (λ x. fits inet_addrstrlen x ≡ true) (sym a.to_source) r.dest_fits

  not_here : str_eq g.dest_ip self_ip ≡ false
  not_here = subst (λ x. str_eq x self_ip ≡ false) (sym a.to_source) elsewhere

  apart : str_eq g.dest_ip g.src_ip ≡ false
  apart =
      subst (λ x. str_eq g.dest_ip x ≡ false) (sym a.from_dest)
        (subst (λ x. str_eq x q.src_ip ≡ false) (sym a.to_source)
          (str_eq_comm q.src_ip q.dest_ip r.apart))

  found_short :
      Holds (λ p. (s.routes.entry p).no_hops < far) (find s.routes.entry g.src_ip s.routes.order)
  found_short =
      let t = s.routes in
      let P = λ (p : ℕ). IsUsable w q stale (t.entry p) in
      let all = find-Holds t.entry g.src_ip P t.order taught.usable in
      elim (Option-cases (find t.entry g.src_ip t.order)) [
        | inl none_found ↦ rw none_found tt
        | inr (p, found) ↦
            let (usable, same) =
              subst (Holds (λ p. P p × (str_eq (t.entry p).destip g.src_ip ≡ true))) found all in
            rw found (usable.1 (subst (λ z. str_eq (t.entry p).destip z ≡ true) a.from_dest same)).1
      ]

  -- It sends one frame along its route to the destination.
  pub sends_out :
      (mac : Mac)
      → s.sent ≡ []
      → get_hwaddr_from_int w.interfaces k ≡ some mac
      → (hops : ℕ) × (z : Odr) × IsWord hops
        × (handle_ethernet_msg w (convert_host_net_order g) intf_n hop s ≡ done tt z)
        × (z.sent
            ≡ raw
                (convert_to_mac mac)
                (convert_to_mac m)
                k
                (convert_host_net_order (relayed g hops))
              ∷ [])
  sends_out mac quiet linked =
      let t = s.routes in
      let (z, ran, sent) =
        frame_relayed w self_ip h g a.well_formed intf_n hop source_room dest_room s taught.at mac
          not_here a.kind a.unflagged apart
          (subst (λ x. find t.entry x t.order ≡ some taught.at) (sym a.to_source) taught.found)
          taught.below (rw taught.over linked)
          (All-mono t.order
            (λ x usable same.
              let current =
                usable.0 (subst (λ z. str_eq (t.entry x).destip z ≡ true) a.to_source same) in
              ground (arith, same_stale, current s.clock_reads))
            taught.usable)
          (All-mono t.order
            (λ x usable same.
              let current =
                (usable.1 (subst (λ z. str_eq (t.entry x).destip z ≡ true) a.from_dest same)).0 in
              ground (arith, same_stale, current ((looked s).clock_reads)))
            taught.usable) in
      let hops = known_hops g t.entry (find t.entry g.src_ip t.order) in
      (
        hops,
        z,
        known_hops-IsWord g t.entry (find t.entry g.src_ip t.order) found_short,
        ran,
        sent ∙ rw (taught.over, taught.to, quiet) refl,
      )
