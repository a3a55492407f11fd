-- ===== src/Daemon/Safety.antt =====
-- What holds in every state of a running daemon.
use on_demand_routing.Base.{CStr, refl, Option, List, [], ◌∷◌}
use on_demand_routing.Odr.{World}
use on_demand_routing.Odr.Ensures
use on_demand_routing.Odr.Ensures.{Ensures}
use on_demand_routing.Odr.Keeps
use on_demand_routing.Odr.Keeps.{Keeps, plain}
use on_demand_routing.Daemon.{Event, peer, ether, initialize, handle, serve, main, boot}
use on_demand_routing.Routes.Listed.{IsTable}
use on_demand_routing.Handler.Invariant.{
  Preserves, Preserves_preorder, handle_ethernet_msg-Preserves, handle_peer_msg-Preserves,
  same_routes-Preserves,
}
use on_demand_routing.Handler.SameRoutes.{SameRoutes, SameRoutes_preorder, new_entry-Keeps}
use on_demand_routing.Ports.{insert_map_port_sp}

module _ (w : World) where
  handle-Preserves : (e : Event) → Keeps Preserves (handle w e)
  unfolding handle
  handle-Preserves (peer memory buff) =
      Keeps.bind (Keeps.non_null-Keeps _) λ sparams. handle_peer_msg-Preserves w sparams
  handle-Preserves (ether recv_buf intf_n hop) = handle_ethernet_msg-Preserves w recv_buf intf_n hop

  serve-Preserves : (es : List Event) → Keeps Preserves (serve w es)
  unfolding serve
  serve-Preserves [] = Keeps.pure-Keeps tt
  serve-Preserves (e ∷ es) = Keeps.bind_skip (handle-Preserves e) (serve-Preserves es)

  initialize-Keeps : (argument : Option CStr) → Keeps SameRoutes (initialize w argument)
  unfolding initialize insert_map_port_sp
  initialize-Keeps argument = Keeps.bind_skip (search (plain, new_entry-Keeps)) (
      Keeps.bind (Keeps.gets-Keeps _) λ ports. Keeps.bind_skip (Keeps.or_fail-Keeps _) (
        Keeps.bind (Keeps.non_null-Keeps _) λ stale.
          Keeps.bind_skip (Keeps.modify-Keeps _ λ s. record { routes = refl }) (search plain)))

  -- From the start of the program, for every staleness argument and every sequence of local
  -- messages and received frames, the routing table has at most one entry for each destination
  -- when the loop ends, whether it used up the events or a handler returned -1.
  pub main-IsTable :
      (argument : Option CStr) (events : List Event)
      → Ensures (λ _ s. IsTable s.routes) (λ s. IsTable s.routes) (main w argument events)
  unfolding main
  main-IsTable argument events =
      let whole =
        Keeps.bind_skip (same_routes-Preserves (initialize-Keeps argument))
          (serve-Preserves events) in
      Ensures.mono (whole.ends boot) (λ _ t p. p.table tt) (λ t p. p.table tt)
