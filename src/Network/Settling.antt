-- ===== src/Network/Settling.antt =====
-- What a step of the network does: a packet that is handled leaves a flood that costs less.
use on_demand_routing.Base.{
  ℕ, ◌+◌, ◌-◌, ◌*◌, ◌≤◌, ◌≡◌, subst, List, [], ◌∷◌, ◌++◌, All, All-append, All-mono, CStr, arith,
}
use on_demand_routing.Odr.{Odr, World}
use on_demand_routing.Transmit.Delivery.{copies, onto}
use on_demand_routing.Network.{Packet, Net, Wiring, update, spread_all, flushed}
use on_demand_routing.Network.Node.{Request, IsRequest, IsCalmNode, distance, ignored, flooded}
use on_demand_routing.Network.Measures.{near, near-le, near_reached, weight, weight_pos}
use on_demand_routing.Network.Spread.{
  All-middle, copies-Carries, All-onto, Carries, spread_all-IsCopy,
}
use on_demand_routing.Network.Totals.{sum, sum-append}
use on_demand_routing.Network.Flood.{
  IsNetwork, IsFlying, IsFlood, IsFlying-mono, hops_of, cost, potential, Reacted, flying-small,
  updated-quiet, updated-calm, onward, copy-IsFlying, copies-cost,
}

module _ (nodes links degree stale : ℕ) (world : ℕ → World) (heard : Wiring) (self : ℕ → CStr)
    (q : Request) (r : IsRequest q)
    (net : IsNetwork nodes links degree stale world heard self q) where
  abbrev price : Packet → ℕ
  price = cost nodes links degree stale world heard self q r net

  abbrev energy : Net → ℕ
  energy = potential nodes links degree stale world heard self q r net

  abbrev pub Settled : Net → Net → Type 0
  Settled s t = IsFlood nodes stale world q t × (energy t + 1 ≤ energy s)

  -- With a packet out of the air and others in.
  pub exchanged :
      (s : Net) (before after more : List Packet) (p : Packet)
      → s.air ≡ before ++ (p ∷ after)
      → sum price more + 1 ≤ price p
      → sum price (before ++ (after ++ more)) + 1 ≤ energy s
  unfolding potential sum
  exchanged s before after more p eq less = rw eq (
      omega (
        arith,
        less,
        sum-append price before (p ∷ after),
        sum-append price before (after ++ more),
        sum-append price after more,
      ))

  abbrev pub handled : Net → List Packet → Packet → List Packet → Odr → Net
  handled s before p after t = record {
    node = update s.node p.to (flushed t);
    air = before ++ (after ++ spread_all heard p.to t.sent);
  }

  -- The node is no further than before, and what it sent is flying and costs less than the packet.
  handled_settles :
      (s : Net) (before : List Packet) (p : Packet) (after : List Packet) (t : Odr)
      → IsFlood nodes stale world q s
      → s.air ≡ before ++ (p ∷ after)
      → IsCalmNode (world p.to) q stale t
      → distance q (flushed t) ≤ distance q (s.node p.to)
      → let now = handled s before p after t in
        let more = spread_all heard p.to t.sent in
        All (IsFlying nodes stale world q now.node) more
        → sum price more + 1 ≤ price p
        → Settled s now
  unfolding potential
  handled_settles s before p after t fl eq c nearer flying less =
      let Flies = IsFlying nodes stale world q s.node in
      let now = handled s before p after t in
      let Flies_now = IsFlying nodes stale world q now.node in
      let parts = All-middle Flies before p after (subst (All Flies) eq fl.flying) in
      let more = spread_all heard p.to t.sent in
      let kept = IsFlying-mono nodes stale world q s.node p.to (flushed t) nearer in
      (
        record {
          quiet = updated-quiet nodes links degree stale world heard self q r net s p.to t fl;
          calm = updated-calm nodes links degree stale world heard self q r net s p.to t fl c;
          flying =
              All-append Flies_now before (after ++ more) (All-mono before kept parts.0)
                (All-append Flies_now after more (All-mono after kept parts.2) flying);
        },
        exchanged s before after more p eq less,
      )

  pub handled-Settled :
      (s : Net) (before : List Packet) (p : Packet) (after : List Packet) (t : Odr)
      → IsFlood nodes stale world q s
      → s.air ≡ before ++ (p ∷ after)
      → IsFlying nodes stale world q s.node p
      → Reacted nodes links degree stale world heard self q r net p (s.node p.to) t
      → Settled s (handled s before p after t)
  unfolding distance spread_all sum weight
  handled-Settled s before p after t fl eq fly (c, ignored same _ none_sent _) =
      handled_settles s before p after t fl eq c (omega (arith, same))
        (rw (none_sent, fl.quiet p.to fly.0) tt)
        (rw (none_sent, fl.quiet p.to fly.0)
          (omega (arith, weight_pos (links * degree) (nodes - hops_of p))))
  handled-Settled s before p after t fl eq fly (c, flooded further at _ sent) =
      let h = hops_of p in
      let small = flying-small nodes links degree stale world heard self q r net s.node p fly in
      let now = update s.node p.to (flushed t) in
      let reached = near_reached nodes q s.node p.to (flushed t) h fly.0 further at in
      let below : h + 1 ≤ near nodes q now (h + 1) = omega (arith, fly.2, reached) in
      let ms =
        copies p.if_index (onward nodes links degree stale world heard self q r net (h + 1))
          (world p.to).interfaces in
      let made =
        spread_all-IsCopy nodes heard net.wired p.to
          (onward nodes links degree stale world heard self q r net (h + 1)) (onto ms [])
          (All-onto (Carries (onward nodes links degree stale world heard self q r net (h + 1))) ms
            []
            (copies-Carries p.if_index
              (onward nodes links degree stale world heard self q r net (h + 1))
              (world p.to).interfaces)
            tt) in
      handled_settles s before p after t fl eq c (omega (arith, further, at))
        (rw (sent, fl.quiet p.to fly.0)
          (All-mono (spread_all heard p.to (onto ms []))
            (copy-IsFlying nodes links degree stale world heard self q r net now (h + 1) small
              below)
            made))
        (rw (sent, fl.quiet p.to fly.0)
          (copies-cost nodes links degree stale world heard self q r net p.to p.if_index h fly.0
            small (omega (arith, below, near-le nodes q now (h + 1)))))
