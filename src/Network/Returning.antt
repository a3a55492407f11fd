-- ===== src/Network/Returning.antt =====
-- What the destination sends back through a flooded network reaches the source.
use on_demand_routing.Base.{
  ℕ, zero, suc, ◌+◌, ◌≤◌, ◌<◌, ◌≡◌, refl, ap, subst, ◌∙◌, ◌⊎◌, inl, inr, true, false, some, [], ◌∷◌,
  CStr, str_eq, ◌==◌, ==_iff, ==_refl, if◌then◌else◌, Bool-cases, arith,
}
use on_demand_routing.Frame.{Frame, convert_host_net_order}
use on_demand_routing.Odr.{Odr, World, Mac}
use on_demand_routing.System.{get_hwaddr_from_int, convert_to_mac}
use on_demand_routing.Handler.Relay.{relayed}
use on_demand_routing.Handler.Onward.{relayed-relayed}
use on_demand_routing.Network.{Net, Wiring, Step, Run, here, stepped}
use on_demand_routing.Network.Node.{Request, IsRequest, far, distance, way}
use on_demand_routing.Network.Flood.{IsNetwork, IsFlood}
use on_demand_routing.Network.Upstream.{IsNeighbour}
use on_demand_routing.Network.WayBack.{WayBack, straight, over}
use on_demand_routing.Network.Taught.{IsAnswer, relayed-hop_count, relayed-IsAnswer}
use on_demand_routing.Network.WayOut.{
  first_step, apart_of_lt, apart_of_gt, WayOut, last, more, WayOut-kept,
}
use on_demand_routing.Network.Handing.{IsMirrored, Knows, handed_on}

module _ (nodes links degree stale : ℕ) (world : ℕ → World) (heard : Wiring) (self : ℕ → CStr)
    (q : Request) (r : IsRequest q) (net : IsNetwork nodes links degree stale world heard self q)
    (source : ℕ) (mirrored : IsMirrored nodes world heard self source q) (t : Net)
    (fl : IsFlood nodes stale world q t) (end k_end : ℕ) (m_end : Mac) where
  -- The source comes first, and the others by their distance from it.
  abbrev pub rank : ℕ → ℕ
  rank x = if x == source then 0 else suc (distance q (t.node x))

  abbrev pub Out : (ℕ → Odr) → ℕ → ℕ → Type 0
  Out = WayOut nodes links degree stale world heard self q r net rank end k_end m_end

  -- What a node hears from the address `m` on `k` comes from the end, or from a relay further out
  -- that knows the way there.
  pub data Behind (node : ℕ → Odr) (i k : ℕ) (m : Mac) : ℕ → Type 0 where
    at_end : i ≡ end → k ≡ k_end → m ≡ m_end → Behind node i k m zero
    after :
        {n : ℕ} (p x : ℕ) (mac : Mac)
        → get_hwaddr_from_int (world i).interfaces k ≡ some mac
        → heard i k (convert_to_mac m) ≡ (p, x) ∷ []
        → p < nodes
        → rank i < rank p
        → Out node p n
        → Behind node i k m (suc n)

  pub Behind-cases :
      (node : ℕ → Odr) (i k : ℕ) (m : Mac) (c : ℕ)
      → Behind node i k m c
      → (i ≡ end)
        ⊎ ((n : ℕ) × (p : ℕ) × (x : ℕ) × (mac : Mac) × (c ≡ suc n)
            × (get_hwaddr_from_int (world i).interfaces k ≡ some mac)
            × (heard i k (convert_to_mac m) ≡ (p, x) ∷ [])
            × (p < nodes)
            × (rank i < rank p)
            × Out node p n)
  Behind-cases node i k m _ (at_end e ek em) = inl e
  Behind-cases node i k m _ (after {n = n} p x mac linked back lt less out) =
      inr (n, p, x, mac, refl, linked, back, lt, less, out)

  abbrev Known : (ℕ → Odr) → ℕ → ℕ → Mac → Type 0
  Known node i =
      Knows nodes links degree stale world heard self q r net source mirrored t fl i (node i)

  -- Once the relay knows where the frame came from, it knows the way out.
  Behind-Out :
      (old new : ℕ → Odr) (i k : ℕ) (m : Mac) (n : ℕ)
      → Behind old i k m n
      → Known new i k m
      → ((y : ℕ) → rank i < rank y → new y ≡ old y)
      → Out new i n
  Behind-Out old new i k m _ (at_end e ek em) known kept =
      last e (subst (λ x. Known new i x m_end) ek (subst (λ z. Known new i k z) em known))
  Behind-Out old new i k m _ (after p x mac linked back lt rises out) known kept =
      more k x m mac p known linked back lt rises (
        WayOut-kept nodes links degree stale world heard self q r net rank end k_end m_end old new
          out (λ y le. kept y (omega (arith, rises, le))))

  -- The nodes that are no further than `i` are as the flood left them.
  abbrev IsFresh : Net → ℕ → Type 0
  IsFresh u i = (x : ℕ) → distance q (t.node x) ≤ distance q (t.node i) → u.node x ≡ t.node x

  pub not_source : (i : ℕ) → str_eq q.src_ip (self i) ≡ false → (source == i) ≡ false
  not_source i here_not = elim (Bool-cases (source == i)) [
    | inl same ↦
        let at =
          subst (λ z. str_eq q.src_ip (self z) ≡ true) ((==_iff source i).0 same)
            mirrored.at_source in
        cc
    | inr other ↦ other
  ]

  pub rank-source : rank source ≡ 0
  rank-source = rw (==_refl source) refl

  rank-relay : (i : ℕ) → str_eq q.src_ip (self i) ≡ false → rank i ≡ suc (distance q (t.node i))
  rank-relay i here_not = ground (arith, not_source i here_not)

  -- The frame is alone in the air, on its way to the node, and who sent it knows the way out.
  abbrev pub ComesHome : Net → ℕ → Frame → ℕ → Type 0
  ComesHome v j f c =
      (k : ℕ) × (hop : Mac) × (v.air
        ≡ record { to = j; if_index = k; hop = hop; frame = convert_host_net_order f } ∷ [])
      × Behind v.node j k hop c

  -- One relay.
  relay :
      (u : Net) (i : ℕ) (f : Frame) (c : ℕ)
      → i < nodes
      → u.node i ≡ t.node i
      → str_eq q.src_ip (self i) ≡ false
      → IsAnswer q f
      → f.hop_count + 1 < far
      → ComesHome u i f c
      → (k : ℕ) (m : Mac) (j : ℕ) → way q (t.node i) ≡ some (k, m)
      → IsNeighbour world heard i k m j
      → rank j < rank i
      → (v : Net) × Step nodes world heard u v
        × ComesHome v j (relayed f (f.hop_count + 1)) (suc c)
        × ((x : ℕ) → (x == i) ≡ false → v.node x ≡ u.node x)
  relay u i f c lt as_before here_not a small (k_in, hop, alone, behind) k m j leads near less =
      let (v, mac, step, linked, arrived, known, others) =
        handed_on nodes links degree stale world heard self q r net source mirrored t fl u i f lt
          as_before here_not a small k_in hop alone k m j leads near in
      let (mac_j, linked_j) = mirrored.sending i k m j near in
      (
        v,
        step,
        (
          near.link.if_index,
          convert_to_mac mac,
          arrived,
          after i k mac_j linked_j (mirrored.reverse i k m j near mac linked) lt less (
              Behind-Out u.node v.node i k_in hop c behind known
                (λ y further. others y (apart_of_lt rank i y further))),
        ),
        others,
      )

  abbrev pub Arrives : Net → ℕ → ℕ → Frame → Type 0
  Arrives u n c f =
      (m : ℕ) × (v : Net) × (m ≤ n)
      × Run nodes world heard u (suc m) v
      × ComesHome v source (relayed f (f.hop_count + (m + 1))) (suc c + m)
      × (v.node source ≡ u.node source)

  pub returns :
      (u : Net) (f : Frame) (c : ℕ) {i n : ℕ}
      → WayBack nodes world heard source q t i n
      → i < nodes
      → IsFresh u i
      → str_eq q.src_ip (self i) ≡ false
      → IsAnswer q f
      → f.hop_count + n + 1 < far
      → ComesHome u i f c
      → Arrives u n c f
  returns u f c {i = i} (straight k m leads near) lt fresh here_not a small home =
      let (v, step, arrived, others) =
        relay u i f c lt (fresh i (omega arith)) here_not a (omega (arith, small)) home k m source
          leads near (omega (arith, rank-source, rank-relay i here_not)) in
      (
        zero,
        v,
        omega arith,
        stepped here step,
        subst (ComesHome v source (relayed f (f.hop_count + 1))) (omega arith) arrived,
        others source (not_source i here_not),
      )
  returns u f c {i = i} (over {n = n} k m j leads near j_lt closer rest) lt fresh here_not a small
        home =
      let next = f.hop_count + 1 in
      let less : rank j < rank i = ground (arith, closer, rank-relay i here_not) in
      let (v, step, arrived, others) =
        relay u i f c lt (fresh i (omega arith)) here_not a (omega (arith, small)) home k m j leads
          near less in
      elim (mirrored.between j j_lt) [
        | inl origin ↦ (
          zero,
          v,
          omega arith,
          stepped here step,
          subst (λ z. ComesHome v z (relayed f next) (suc c + 0)) origin
              (subst (ComesHome v j (relayed f next)) (omega arith) arrived),
          others source (not_source i here_not),
        )
        | inr between ↦
            let (rounds, w, few, run, arrives, kept) =
              returns v (relayed f next) (suc c) rest j_lt
                (λ x le.
                  others x
                    (apart_of_gt (λ y. distance q (t.node y)) x i (omega (arith, le, closer)))
                  ∙ fresh x (omega (arith, le, closer)))
                between (relayed-IsAnswer q f a next (omega (arith, small)))
                (rw (relayed-hop_count q f a next) (omega (arith, small))) arrived in
            (
              suc rounds,
              w,
              omega (arith, few),
              first_step nodes world heard step run,
              subst (ComesHome w source (relayed f (f.hop_count + (suc rounds + 1)))) (omega arith)
                  (subst (λ g. ComesHome w source g (suc (suc c) + rounds))
                    (relayed-relayed f next ((relayed f next).hop_count + (rounds + 1)) a.kind
                      ∙ ap (relayed f) (omega (arith, relayed-hop_count q f a next)))
                    arrives),
              kept ∙ others source (not_source i here_not),
            )
      ]
