-- ===== src/Network/Backed.antt =====
-- During a flood: every route to the source leads to a neighbour that is nearer to it.
use on_demand_routing.Base.{
  ℕ, ◌+◌, ◌≤◌, ◌<◌, ◌≡◌, refl, sym, subst, ◌∙◌, ◌⊎◌, inl, inr, true, false, some, List, [], ◌∷◌,
  ◌++◌, All, All-mono, All-append, Bool-cases, ◌==◌, ==_iff, ==_refl, arith,
}
use on_demand_routing.Frame.{Frame}
use on_demand_routing.Odr.{Odr, World, Mac}
use on_demand_routing.Transmit.Delivery.{copies, onto}
use on_demand_routing.Network.{Packet, Net, Wiring, update, flushed, spread_all}
use on_demand_routing.Network.Node.{Request, distance, way}
use on_demand_routing.Network.Measures.{distance-update}
use on_demand_routing.Network.Spread.{All-middle}
use on_demand_routing.Network.Flood.{hops_of}
use on_demand_routing.Network.Covered.{Reached}
use on_demand_routing.Network.Upstream.{IsNeighbour, copies-ComesFrom}

module _ (nodes : ℕ) (world : ℕ → World) (heard : Wiring) (source : ℕ) (q : Request) where
  -- What node `i` heard on `k` from the address `m` came from the source, or from a node that is at
  -- most so far from it.
  abbrev pub Upstream : (ℕ → Odr) → ℕ → ℕ → Mac → ℕ → Type 0
  Upstream node i k m d =
      (j : ℕ) × (j < nodes)
      × IsNeighbour world heard i k m j
      × ((j ≡ source) ⊎ (distance q (node j) ≤ d))

  -- The route of a node that the request reached leads over a neighbour that is nearer.
  abbrev pub HasWay : (ℕ → Odr) → ℕ → Type 0
  HasWay node i =
      (k : ℕ) × (m : Mac) × (d : ℕ) × (way q (node i) ≡ some (k, m))
      × (d + 1 ≡ distance q (node i))
      × Upstream node i k m d

  pub record IsBacked (s : Net) : Type 0 where
    pub routes : (i : ℕ) → i < nodes → Reached q (s.node i) → HasWay s.node i
    pub frames : All (λ p. Upstream s.node p.to p.if_index p.hop (hops_of p)) s.air

  module _ (s : Net) (before : List Packet) (p : Packet) (after : List Packet) (t : Odr)
      (air : s.air ≡ before ++ (p ∷ after))
      (nearer : distance q (flushed t) ≤ distance q (s.node p.to)) where
    abbrev pub now : Net
    now = record {
      node = update s.node p.to (flushed t);
      air = before ++ (after ++ spread_all heard p.to t.sent);
    }

    still-Upstream :
        (i k : ℕ) (m : Mac) (d : ℕ) → Upstream s.node i k m d → Upstream now.node i k m d
    still-Upstream i k m d (j, lt, near, inl origin) = (j, lt, near, inl origin)
    still-Upstream i k m d (j, lt, near, inr le) = (
      j,
      lt,
      near,
      inr (omega (arith, le, distance-update nodes q s.node p.to (flushed t) nearer j)),
    )

    unchanged : (i : ℕ) → (i == p.to) ≡ false → now.node i ≡ s.node i
    unchanged i other = rw other refl

    updated : (i : ℕ) → (i == p.to) ≡ true → now.node i ≡ flushed t
    updated i same = rw same refl

    -- The other nodes keep their routes, and the frames in the air come from where they came from.
    IsBacked-after :
        IsBacked s
        → (Reached q (flushed t) → HasWay now.node p.to)
        → All
            (λ p. Upstream now.node p.to p.if_index p.hop (hops_of p))
            (spread_all heard p.to t.sent)
        → IsBacked now
    IsBacked-after b mine more =
        let Old = λ (p : Packet). Upstream s.node p.to p.if_index p.hop (hops_of p) in
        let New = λ (p : Packet). Upstream now.node p.to p.if_index p.hop (hops_of p) in
        let parts = All-middle Old before p after (subst (All Old) air b.frames) in
        let keep =
          λ (x : Packet) (up : Old x). still-Upstream x.to x.if_index x.hop (hops_of x) up in
        record {
          routes = λ i lt reached. elim (Bool-cases (i == p.to)) [
            | inl same ↦
                let at : i ≡ p.to = (==_iff i p.to).0 same in
                subst (HasWay now.node) (sym at) (mine (subst (Reached q) (updated i same) reached))
            | inr other ↦
                let as_before = unchanged i other in
                let (k, m, d, leads, less, up) =
                  b.routes i lt (subst (Reached q) as_before reached) in
                (
                  k,
                  m,
                  d,
                  subst (λ z. way q z ≡ some (k, m)) (sym as_before) leads,
                  subst (λ z. d + 1 ≡ distance q z) (sym as_before) less,
                  still-Upstream i k m d up,
                )
          ];
          frames =
              All-append New before _ (All-mono before keep parts.0)
                (All-append New after _ (All-mono after keep parts.2) more);
        }

    -- A node that ignores the frame keeps its route.
    pub IsBacked-ignored :
        IsBacked s
        → p.to < nodes
        → distance q t ≡ distance q (s.node p.to)
        → way q t ≡ way q (s.node p.to)
        → t.sent ≡ []
        → IsBacked now
    unfolding distance way spread_all
    IsBacked-ignored b lt same_distance same_way none_sent =
        let at_p = updated p.to (==_refl p.to) in
        IsBacked-after b
          (λ reached.
            let (k, m, d, leads, less, up) =
              b.routes p.to lt (omega (arith, reached, same_distance)) in
            (
              k,
              m,
              d,
              subst (λ z. way q z ≡ some (k, m)) (sym at_p) (same_way ∙ leads),
              subst (λ z. d + 1 ≡ distance q z) (sym at_p) (less ∙ sym same_distance),
              still-Upstream p.to k m d up,
            ))
          (rw none_sent tt)

    -- A node that floods the request on has a route over the node that it came from, and its copies
    -- come from it.
    pub IsBacked-flooded :
        IsBacked s
        → p.to < nodes
        → (f : Frame) → ((x : Packet) → x.frame ≡ f → hops_of x ≡ hops_of p + 1)
        → distance q t ≡ hops_of p + 1
        → way q t ≡ some (p.if_index, p.hop)
        → t.sent ≡ onto (copies p.if_index f (world p.to).interfaces) []
        → IsBacked now
    unfolding distance way
    IsBacked-flooded b lt f further at leads sent =
        let at_p = updated p.to (==_refl p.to) in
        let Old = λ (p : Packet). Upstream s.node p.to p.if_index p.hop (hops_of p) in
        let New = λ (p : Packet). Upstream now.node p.to p.if_index p.hop (hops_of p) in
        let came = (All-middle Old before p after (subst (All Old) air b.frames)).1 in
        IsBacked-after b
          (λ reached. (
            p.if_index,
            p.hop,
            hops_of p,
            subst (λ z. way q z ≡ some (p.if_index, p.hop)) (sym at_p) leads,
            subst (λ z. hops_of p + 1 ≡ distance q z) (sym at_p) (sym at),
            still-Upstream p.to p.if_index p.hop (hops_of p) came,
          ))
          (subst (λ ms. All New (spread_all heard p.to ms)) (sym sent)
            (All-mono
              (spread_all heard p.to (onto (copies p.if_index f (world p.to).interfaces) []))
              (λ x (near, same). (
                p.to,
                lt,
                near,
                inr (
                    subst (λ z. distance q z ≤ hops_of x) (sym at_p)
                      (omega (arith, at, further x same))),
              ))
              (copies-ComesFrom world heard p.to f p.if_index)))
