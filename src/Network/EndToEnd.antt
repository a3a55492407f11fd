-- ===== src/Network/EndToEnd.antt =====
-- A message of a process, from the call of its daemon to the process that it is for, over any
-- number of nodes: handle_peer_msg and handle_ethernet_msg of assign3/odr_and.c together.
use on_demand_routing.Base.{
  ℕ, ◌<◌, ◌≡◌, refl, true, false, some, [], CStr, str_eq, fits, ==_refl, ◌+◌,
}
use on_demand_routing.Word.{IsWord, minus_one}
use on_demand_routing.Frame.{Frame, convert_host_net_order, payload_size}
use on_demand_routing.Odr.{Odr, World, Mac, MapEntry}
use on_demand_routing.Odr.Outcome.{done}
use on_demand_routing.System.{get_hwaddr_from_int}
use on_demand_routing.Ports.{fetch_entry_path, fetch_entry_port}
use on_demand_routing.Routes.{is_nil}
use on_demand_routing.Transmit.Delivery.{copies, onto}
use on_demand_routing.Handler.Peer.{SendParams, handle_peer_msg}
use on_demand_routing.Network.{Net, Wiring, Run}
use on_demand_routing.Network.Messages.{IsStation}
use on_demand_routing.Network.Node.{IsRequest, after_hops, far, distance}
use on_demand_routing.Network.Flood.{IsNetwork}
use on_demand_routing.Network.Handing.{IsMirrored}
use on_demand_routing.Network.Waiting.{still_parked}
use on_demand_routing.Network.Sending.{
  wanted, letter, IsReady, asked, begun, letter-IsAnswer, asks, in_air, begun-IsFlood,
  begun-IsBacked,
}
use on_demand_routing.Network.Across.{Arrives, message-Arrives}

module _ (self : ℕ → CStr) (source : ℕ) (sp : SendParams) (client : MapEntry) (node : ℕ → Odr)
    (nodes links degree stale : ℕ) (world : ℕ → World) (heard : Wiring)
    (r : IsRequest (wanted self source sp client node))
    (net : IsNetwork nodes links degree stale world heard self (wanted self source sp client node))
    (ready : IsReady self source sp client node nodes links degree stale world heard)
    (exists : source < nodes) (room : fits payload_size sp.msg ≡ true)
    (mirrored : IsMirrored nodes world heard self source (wanted self source sp client node))
    (there : World) (intf_there : ℕ) (mac_there : Mac)
    (b : IsStation there sp.destip intf_there mac_there) (other : Odr)
    (none_there : is_nil other.routes.order ≡ true) (hops : ℕ) (word : IsWord hops)
    (mac : Mac) where
  abbrev request : Frame
  request = convert_host_net_order (after_hops (wanted self source sp client node) 0)

  abbrev after_asking : Odr
  after_asking = asked self source sp client node nodes links degree stale world heard

  -- A process of a node, the source, sends a message that fits to an address that no node of a
  -- network has, and the daemon finds or makes the entry of that process; no node has a route to
  -- that address, knows of the request that the message causes, or has anything left to send; the
  -- network is as in `IsNetwork`, its links carry frames for one address both ways, each node has
  -- the interfaces on which it hears and is heard, and the source and no other node has the
  -- source's address. Then `handle_peer_msg` at the source floods one request and returns.
  -- Whatever frames of the flood are delivered and lost from then on, in whatever order, if the
  -- request has reached a node, not the source, that the destination is linked to, and the
  -- destination is a healthy node with an empty table, and no reading of its clock finds an entry
  -- stale that it makes now, then the following holds. Given the request, after any number of
  -- hops, from that node, the destination sends one reply to it and returns. With this reply as
  -- the only frame in the air there are steps, at most twice the hop count of that node's route,
  -- after which one frame is left, for that node: given it, that node sends one frame to the
  -- destination and returns; and given that, the destination hands to the process that is
  -- registered on the message's port the text of the message with the address and port that it
  -- came from, and returns.
  pub message_goes_through :
      (before : Odr)
      → fetch_entry_path (world source) sp.filename before ≡ done (some client) (node source)
      → (t : Net) (k : ℕ)
      → Run nodes world heard
          (begun self source sp client node nodes links degree stale world heard)
          k
          t
      → (i : ℕ) → i < nodes
      → distance (wanted self source sp client node) (t.node i) < far
      → str_eq (self source) (self i) ≡ false
      → (k_in : ℕ) → get_hwaddr_from_int (world i).interfaces k_in ≡ some mac
      → (server : MapEntry) → fetch_entry_port other.ports sp.destport ≡ some server
      → ((m : ℕ) → there.clock m < there.clock other.clock_reads + other.stale_param)
      → (handle_peer_msg (world source) sp before ≡ done tt after_asking)
        × (after_asking.sent ≡ onto (copies minus_one request (world source).interfaces) [])
        × Arrives nodes links degree stale world heard self
            (wanted self source sp client node)
            r
            net
            source
            exists
            mirrored
            there
            intf_there
            mac_there
            b
            other
            none_there
            hops
            word
            mac
            t
            i
            k_in
            (letter self source sp client node)
            server
  message_goes_through before fetches t k run i lt reached here_not k_in linked server bound
        steady =
      let q = wanted self source sp client node in
      let fl =
        begun-IsFlood self source sp client node nodes links degree stale world heard r net ready
          exists room in
      let s = begun self source sp client node nodes links degree stale world heard in
      (
        asks self source sp client node nodes links degree stale world heard r net ready exists room
            before fetches,
        in_air self source sp client node nodes links degree stale world heard r net ready exists
            room,
        message-Arrives nodes links degree stale world heard self q r net source exists mirrored
            there intf_there mac_there b other none_there hops word mac s t k fl
            (begun-IsBacked self source sp client node nodes links degree stale world heard r net
              ready exists room)
            run i lt reached here_not k_in linked (letter self source sp client node)
            (letter-IsAnswer self source sp client node nodes links degree stale world heard r net
              ready exists room)
            refl _
            (still_parked nodes links degree stale world heard self q r net s t k fl run source
              sp.destip (letter self source sp client node) (node source).pending
              (rw (==_refl source) refl))
            server bound steady,
      )
