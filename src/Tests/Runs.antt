-- ===== src/Tests/Runs.antt =====
-- The theorems on whole runs of the daemon, at concrete events.
use on_demand_routing.Base.{refl, none, List, arith, [], ◌∷◌, codes}
use on_demand_routing.Frame.{IsFrame, convert_net_host_order, convert_host_net_order}
use on_demand_routing.Odr.Ensures.{Ensures, Returns}
use on_demand_routing.Routes.Listed.{IsTable}
use on_demand_routing.Message.{message_text}
use on_demand_routing.Message.RoundTrip.{zeroed}
use on_demand_routing.Handler.Serving.{IsServing}
use on_demand_routing.Daemon.{Event, main, peer, ether}
use on_demand_routing.Daemon.Progress.{main-IsServing}
use on_demand_routing.Daemon.Safety.{main-IsTable}
use on_demand_routing.Machine.{machine}
use on_demand_routing.Tests.Node.{node, node-IsHealthy, self, alice, hop_a, request, hello}

main-IsTable_example :
    Ensures
      (λ _ s. IsTable s.routes)
      (λ s. IsTable s.routes)
      (main node none (ether (convert_host_net_order request) 3 hop_a ∷ []))
main-IsTable_example = main-IsTable node none (ether (convert_host_net_order request) 3 hop_a ∷ [])

-- A message of a local process for `alice`, and the request of `alice` for `carol`.
abbrev arrivals : List Event
arrivals =
    peer zeroed (message_text alice 5500 (codes "hello world") (codes "/tmp/a") 0)
    ∷ ether (convert_host_net_order request) 3 hop_a
    ∷ []

request-IsFrame : IsFrame (convert_net_host_order (convert_host_net_order request))
unfolding machine
request-IsFrame = omega arith

main-IsServing_example : Returns (λ _ t. IsServing node t) (main node none arrivals)
unfolding machine
main-IsServing_example = main-IsServing node self node-IsHealthy refl none 5 arrivals refl refl (
  (hello, refl, (refl, refl, refl, λ _. refl)),
  ((request-IsFrame, (omega arith, omega arith), (_, refl)), tt),
)
