-- ===== src/Daemon/Progress.antt =====
-- The daemon's loop over received frames, on a healthy node.
use on_demand_routing.Base.{
  ℕ, ◌≡◌, refl, arith, true, false, Option, some, List, [], ◌∷◌, CStr, fits, All,
}
use on_demand_routing.Frame.{IsFrame, convert_net_host_order, inet_addrstrlen}
use on_demand_routing.Odr.{Odr, World}
use on_demand_routing.Odr.Outcome.{monad}
use on_demand_routing.Odr.Ensures.{Returns, Returns-bind}
use on_demand_routing.Transmit.Delivery.{IsHealthy}
use on_demand_routing.Handler.Serving.{HasInterface, IsServing}
use on_demand_routing.Handler.Total.{IsKnown, handle_ethernet_msg-IsServing}
use on_demand_routing.Handler.Peer.{SendParams}
use on_demand_routing.Handler.PeerTotal.{IsSendable, handle_peer_msg-IsServing}
use on_demand_routing.Message.{get_send_params}
use on_demand_routing.System.{gettimeofday}
use on_demand_routing.Word.{slt}
use on_demand_routing.Ports.{new_entry, insert_map_port_sp, fetch_entry_port}
use on_demand_routing.Daemon.{Event, peer, ether, staleness, initialize, handle, serve, main}

-- A datagram whose params are read and can be sent, or a well-formed frame of a known type, on an
-- interface of the node.
abbrev pub IsReceived : World → CStr → Event → Type 0
IsReceived w self_ip (peer memory buff) =
    (sp : SendParams) × (get_send_params memory buff ≡ some sp) × IsSendable self_ip sp
IsReceived w self_ip (ether recv_buf intf_n hop) =
    IsFrame (convert_net_host_order recv_buf)
    × IsKnown (convert_net_host_order recv_buf)
    × HasInterface w intf_n

module _ (w : World) (self_ip : CStr) (h : IsHealthy w self_ip)
    (own : fits inet_addrstrlen self_ip ≡ true) where
  handle-IsServing :
      (e : Event) (s : Odr)
      → IsReceived w self_ip e
      → IsServing w s
      → Returns (λ _ t. IsServing w t) (handle w e s)
  unfolding handle monad
  handle-IsServing (peer memory buff) s (sp, parsed, ok) v =
      rw parsed (handle_peer_msg-IsServing w self_ip h own sp s ok v)
  handle-IsServing (ether recv_buf intf_n hop) s (k, known, link) v =
      handle_ethernet_msg-IsServing w self_ip h own intf_n link hop recv_buf s k known v

  serve-IsServing :
      (es : List Event) (s : Odr)
      → All (IsReceived w self_ip) es
      → IsServing w s
      → Returns (λ _ t. IsServing w t) (serve w es s)
  unfolding serve monad
  serve-IsServing [] s r v = v
  serve-IsServing (e ∷ es) s (r, rs) v =
      Returns-bind _ _ (handle w e s) _ (handle-IsServing e s r v)
        λ _ t vt. serve-IsServing es t rs vt

  -- On a healthy node whose own address fits, the daemon, started with a staleness that is not
  -- negative, handles every sequence of datagrams whose params are read and fit, for other nodes
  -- or for the server's port of its own, and of well-formed frames of the four types on interfaces
  -- of the node: it never returns -1 and never stops. Afterwards it is in a state in which it can
  -- serve every further such message.
  pub main-IsServing :
      (argument : Option CStr) (stale : ℕ) (events : List Event)
      → staleness argument ≡ some stale
      → slt stale 0 ≡ false
      → All (IsReceived w self_ip) events
      → Returns (λ _ t. IsServing w t) (main w argument events)
  unfolding main initialize insert_map_port_sp new_entry gettimeofday fetch_entry_port monad
  main-IsServing argument stale events given old received =
      rw (given, old)
        (serve-IsServing events _ received (
          tt,
          (λ p lt. absurd (omega (arith, lt))),
          tt,
          ((_, refl), omega arith, (omega arith, tt)),
        ))
