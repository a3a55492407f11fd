-- ===== src/Network/Sending.antt =====
-- A node that is given a message by one of its processes, and has no route for it, starts a flood.
use on_demand_routing.Base.{
  ℕ, ◌<◌, ◌≡◌, refl, sym, ap, subst, inl, inr, true, some, [], CStr, fits, All, All-mono,
  Bool-cases, ◌==◌, ==_iff, arith,
}
use on_demand_routing.Word.{inc, minus_one}
use on_demand_routing.Frame.{Frame, convert_host_net_order, payload_size}
use on_demand_routing.Frame.Conversion.{convert_net_host_order-convert_host_net_order}
use on_demand_routing.Odr.{Odr, World, MapEntry}
use on_demand_routing.Odr.Outcome.{done, monad}
use on_demand_routing.Ports.{fetch_entry_path}
use on_demand_routing.Routes.Found.{looked, get_r_entry-find, find_absent}
use on_demand_routing.Transmit.Delivery.{copies, onto, transmitted_all, get_name_ip-done}
use on_demand_routing.Transmit.Replies.{counted}
use on_demand_routing.Handler.Peer.{SendParams, send_or_discover, handle_peer_msg}
use on_demand_routing.Handler.Discovery.{parked_for, parked, discover-parked}
use on_demand_routing.Network.{Net, Wiring, update, flushed, spread_all}
use on_demand_routing.Network.Messages.{parked-IsFrame}
use on_demand_routing.Network.Node.{Request, IsRequest, after_hops, far, IsCalmNode, distance}
use on_demand_routing.Network.Spread.{All-onto, Carries, copies-Carries, spread_all-IsCopy}
use on_demand_routing.Network.Flood.{IsNetwork, IsFlying, IsFlood, copy-IsFlying, hops_of}
use on_demand_routing.Network.Backed.{IsBacked, Upstream}
use on_demand_routing.Network.Upstream.{copies-ComesFrom}
use on_demand_routing.Network.Taught.{IsAnswer}
use on_demand_routing.Network.Outward.{back}

module _ (self : ℕ → CStr) (source : ℕ) (sp : SendParams) (client : MapEntry) (node : ℕ → Odr) where
  -- The request that the message causes, and the frame that waits for the route.
  abbrev pub wanted : Request
  wanted = record {
    src_ip = self source;
    dest_ip = sp.destip;
    broadcast_id = inc (node source).broadcast_id;
    src_port = client.portno;
    dst_port = sp.destport;
    route_disc_flag = sp.route_disc_flag;
  }

  abbrev pub letter : Frame
  letter = parked_for (inc (inc (node source).broadcast_id)) client.portno (self source) sp

  module _ (nodes links degree stale : ℕ) (world : ℕ → World) (heard : Wiring) where
    -- No node has a route to the destination or knows of the request.
    pub record IsReady : Type 0 where
      pub quiet : (i : ℕ) → i < nodes → (node i).sent ≡ []
      pub calm : (i : ℕ) → i < nodes → IsCalmNode (world i) wanted stale (node i)
      pub unknown : (i : ℕ) → i < nodes → distance wanted (node i) ≡ far

    abbrev first_request : Frame
    first_request = convert_host_net_order (after_hops wanted 0)

    abbrev pub asked : Odr
    asked = parked sp.destip letter (
        counted (
          transmitted_all (copies minus_one first_request (world source).interfaces)
            (counted (looked (node source)))))

    -- The nodes with the request in the air.
    abbrev pub begun : Net
    begun = record {
      node = update node source (flushed asked);
      air = spread_all heard source asked.sent;
    }

    module _ (r : IsRequest wanted)
        (net : IsNetwork nodes links degree stale world heard self wanted) (ready : IsReady)
        (exists : source < nodes) (room : fits payload_size sp.msg ≡ true) where
      pub letter-IsAnswer : IsAnswer (back wanted) letter
      letter-IsAnswer = record {
        well_formed =
            parked-IsFrame (inc (node source).broadcast_id) client.portno (self source) sp
              r.src_port r.dst_port room r.src_fits r.dest_fits;
        kind = inl refl;
        unflagged = refl;
        to_source = refl;
        from_dest = refl;
      }

      pub asks :
          (before : Odr)
          → fetch_entry_path (world source) sp.filename before ≡ done (some client) (node source)
          → handle_peer_msg (world source) sp before ≡ done tt asked
      unfolding handle_peer_msg send_or_discover monad
      asks before fetches =
          let w = world source in
          let ip = self source in
          let h = net.healthy source exists in
          let s = node source in
          let calm = ready.calm source exists in
          rw
            (
              h.own,
              fetches,
              get_name_ip-done w ip h ip s,
              get_name_ip-done w ip h sp.destip s,
              r.apart,
              get_r_entry-find w sp.destip sp.route_disc_flag s
                  (All-mono s.routes.order (λ p c same. ground (arith, same, c.1.0)) calm.1),
              find_absent s.routes.entry sp.destip s.routes.order
                  (All-mono s.routes.order (λ p c. c.1.0) calm.1),
              discover-parked w ip h client sp (looked s) r.src_fits r.dest_fits room,
              convert_net_host_order-convert_host_net_order letter letter-IsAnswer.well_formed,
            )
            refl

      pub in_air : asked.sent ≡ onto (copies minus_one first_request (world source).interfaces) []
      in_air =
          ap (onto (copies minus_one first_request (world source).interfaces))
            (ready.quiet source exists)

      -- A property of the nodes before, if the source has it after it has asked.
      begun-node :
          (P : ℕ → Odr → Type 0)
          → ((i : ℕ) → i < nodes → P i (node i))
          → P source (flushed asked)
          → (i : ℕ) → i < nodes
          → P i (begun.node i)
      begun-node P before now i lt = elim (Bool-cases (i == source)) [
        | inl at ↦ rw (at, (==_iff i source).0 at) now
        | inr other ↦ rw other (before i lt)
      ]

      begun-distance : (i : ℕ) → i < nodes → distance wanted (begun.node i) ≡ far
      unfolding distance
      begun-distance =
          begun-node (λ i s. distance wanted s ≡ far) ready.unknown (ready.unknown source exists)

      pub begun-IsFlood : IsFlood nodes stale world wanted begun
      begun-IsFlood =
          let ms = copies minus_one first_request (world source).interfaces in
          record {
            quiet = begun-node (λ i s. s.sent ≡ []) ready.quiet refl;
            calm =
                begun-node (λ i s. IsCalmNode (world i) wanted stale s) ready.calm
                  (ready.calm source exists);
            flying =
                subst
                  (λ l.
                    All (IsFlying nodes stale world wanted begun.node) (spread_all heard source l))
                  (sym in_air)
                  (All-mono (spread_all heard source (onto ms []))
                    (copy-IsFlying nodes links degree stale world heard self wanted r net begun.node
                      0 (omega arith) (omega arith))
                    (spread_all-IsCopy nodes heard net.wired source first_request (onto ms []) (
                      All-onto (Carries first_request) ms []
                        (copies-Carries minus_one first_request (world source).interfaces) tt)));
          }

      pub begun-IsBacked : IsBacked nodes world heard source wanted begun
      begun-IsBacked =
          let ms = copies minus_one first_request (world source).interfaces in
          record {
            routes = λ i lt reached. absurd (omega (arith, reached, begun-distance i lt));
            frames =
                subst
                  (λ l.
                    All
                      (λ p.
                        Upstream nodes world heard source wanted begun.node p.to p.if_index p.hop
                          (hops_of p))
                      (spread_all heard source l))
                  (sym in_air)
                  (All-mono (spread_all heard source (onto ms []))
                    (λ p comes. (source, exists, comes.0, inl refl))
                    (copies-ComesFrom world heard source first_request minus_one));
          }
