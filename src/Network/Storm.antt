-- ===== src/Network/Storm.antt =====
-- Nodes that are started with a staleness of 0: a request whose destination is none of them goes
-- round for ever.
use on_demand_routing.Base.{
  ℕ, ◌≤◌, ◌<◌, ◌≡◌, refl, sym, ap, subst, ◌∙◌, inl, inr, true, false, List, [], ◌∷◌, ◌++◌, All,
  All-append, Bool-cases, CStr, str_eq, ◌==◌, ==_iff, arith,
}
use on_demand_routing.Word.{inc, IsWord}
use on_demand_routing.Frame.{convert_host_net_order}
use on_demand_routing.Odr.{Odr, World, Mac, Hwa}
use on_demand_routing.Odr.Outcome.{done}
use on_demand_routing.Transmit.{is_flooded}
use on_demand_routing.Transmit.Delivery.{IsHealthy, copies, onto}
use on_demand_routing.Handler.Ether.{handle_ethernet_msg}
use on_demand_routing.Network.{
  IsLossless, Packet, Net, Wiring, update, flushed, spread_all, Step, deliver, lose, Run, here,
  stepped,
}
use on_demand_routing.Network.Node.{Request, IsRequest, after_hops}
use on_demand_routing.Network.Spread.{
  All-middle, All-onto, Among, All-Among, Carries, copies-Carries, spread_all-IsCopy,
}
use on_demand_routing.Network.Covering.{
  Bound, Bound-right, Hears, hearers, onto-Bound, copies-Bound,
}
use on_demand_routing.Network.Upstream.{IsNeighbour, copies-ComesFrom}
use on_demand_routing.Network.Stale.{IsForgetful, floods_again}

All-both :
    {P Q R : Packet → Type 0} (ps : List Packet)
    → ((p : Packet) → P p → Q p → R p)
    → All P ps
    → All Q ps
    → All R ps
All-both [] f h k = tt
All-both (p ∷ ps) f (h, hs) (k, ks) = (f p h k, All-both ps f hs ks)

-- The nodes are healthy, none is the destination, their clocks do not go back, and whatever
-- interface a node hears a neighbour on, there is another one that it is flooded on and that a node hears.
pub record IsEndless (nodes : ℕ) (world : ℕ → World) (heard : Wiring) (self : ℕ → CStr)
    (q : Request) : Type 0 where
  pub healthy : (i : ℕ) → i < nodes → IsHealthy (world i) (self i)
  pub elsewhere : (i : ℕ) → i < nodes → str_eq q.dest_ip (self i) ≡ false
  pub forward : (i : ℕ) → i < nodes → (m n : ℕ) → m ≤ n → (world i).clock m ≤ (world i).clock n
  pub wired : (i if_index : ℕ) (dst : Mac) → All (λ r. r.0 < nodes) (heard i if_index dst)
  pub onward :
      (i k : ℕ) (m : Mac) (j : ℕ)
      → i < nodes
      → IsNeighbour world heard i k m j
      → (h : Hwa) × Among h (world i).interfaces
        × (is_flooded k h ≡ true)
        × (n : ℕ) × Hears n (hearers heard i h.if_index)

module _ (nodes : ℕ) (world : ℕ → World) (heard : Wiring) (q : Request) where
  -- The request, after some number of hops, on its way to a node.
  abbrev IsOnWay : Packet → Type 0
  IsOnWay p =
      (p.to < nodes)
      × (hops : ℕ) × IsWord hops
      × (p.frame ≡ convert_host_net_order (after_hops q hops))
      × (j : ℕ) × IsNeighbour world heard p.to p.if_index p.hop j

  -- Every node forgets at once and has sent what it had to, and only the request is in the air.
  pub record IsStorm (s : Net) : Type 0 where
    pub forgets : (i : ℕ) → i < nodes → IsForgetful (world i) (s.node i)
    pub quiet : (i : ℕ) → i < nodes → (s.node i).sent ≡ []
    pub on_way : All IsOnWay s.air
    pub some_left : (j : ℕ) × Bound j s.air

module _ (nodes : ℕ) (world : ℕ → World) (heard : Wiring) (self : ℕ → CStr) (q : Request)
    (r : IsRequest q) (plain : q.route_disc_flag ≡ 0)
    (net : IsEndless nodes world heard self q) where
  abbrev after : Net → List Packet → Packet → List Packet → Odr → Net
  after s before p rest t = record {
    node = update s.node p.to (flushed t);
    air = before ++ (rest ++ spread_all heard p.to t.sent);
  }

  -- The node floods the request on.
  handled :
      (s : Net) (p : Packet)
      → IsStorm nodes world heard q s
      → IsOnWay nodes world heard q p
      → (t : Odr) × (hops : ℕ) × (handle_ethernet_msg
            (world p.to)
            p.frame
            p.if_index
            p.hop
            (s.node p.to)
          ≡ done tt t)
        × IsForgetful (world p.to) t
        × (t.sent
            ≡ onto
                (copies p.if_index
                  (convert_host_net_order (after_hops q (inc hops)))
                  (world p.to).interfaces)
                [])
  handled s p st (lt, hops, word, frame, _, _) =
      let (t, ran, forgets, sent) =
        floods_again (world p.to) (self p.to) (net.healthy p.to lt) q r plain
          (net.elsewhere p.to lt) (net.forward p.to lt) hops word p.if_index p.hop (s.node p.to)
          (st.forgets p.to lt) in
      (
        t,
        hops,
        subst (λ f. handle_ethernet_msg (world p.to) f p.if_index p.hop (s.node p.to) ≡ done tt t)
            (sym frame) ran,
        forgets,
        sent
            ∙ ap
                (onto (
                  copies p.if_index (convert_host_net_order (after_hops q (inc hops)))
                    (world p.to).interfaces))
                (st.quiet p.to lt),
      )

  -- What it floods is on its way to some node.
  flooded_on :
      (i k : ℕ) (m : Mac) (from hops : ℕ)
      → i < nodes
      → IsNeighbour world heard i k m from
      → let ms =
          onto
            (copies k (convert_host_net_order (after_hops q (inc hops))) (world i).interfaces)
            [] in
        All (IsOnWay nodes world heard q) (spread_all heard i ms)
        × ((j : ℕ) × Bound j (spread_all heard i ms))
  unfolding inc
  flooded_on i k m from hops lt near =
      let f = convert_host_net_order (after_hops q (inc hops)) in
      let hs = (world i).interfaces in
      let ms = copies k f hs in
      let (h, among, floods, j, hears) = net.onward i k m from lt near in
      let bound = All-Among _ h hs (copies-Bound heard i k f hs) among floods j hears in
      (
        All-both (spread_all heard i (onto ms []))
            (λ p copy comes. (copy.node_exists, inc hops, omega arith, copy.same_frame, i, comes.0))
            (spread_all-IsCopy nodes heard net.wired i f (onto ms [])
              (All-onto (Carries f) ms [] (copies-Carries k f hs) tt))
            (copies-ComesFrom world heard i f k),
        (j, onto-Bound heard i j ms [] (inl bound)),
      )

  Step-IsStorm :
      (s t : Net)
      → IsStorm nodes world heard q s
      → (step : Step nodes world heard s t) → IsLossless nodes world heard (stepped here step)
      → IsStorm nodes world heard q t
  Step-IsStorm s _ st (lose before p rest eq) never = absurd never
  Step-IsStorm s _ st (deliver before p rest z eq to ran) whole =
      let Way = IsOnWay nodes world heard q in
      let parts = All-middle Way before p rest (subst (All Way) eq st.on_way) in
      let (t, hops, ran', forgets, sent) = handled s p st parts.1 in
      let same : t ≡ z = cc in
      let (ways, (j, bound)) = flooded_on p.to p.if_index p.hop parts.1.4 hops to parts.1.5 in
      let ms =
        onto
          (copies p.if_index (convert_host_net_order (after_hops q (inc hops)))
            (world p.to).interfaces)
          [] in
      let sent_z : z.sent ≡ ms = subst (λ x. x.sent ≡ ms) same sent in
      let forgets_z = subst (IsForgetful (world p.to)) same forgets in
      record {
        forgets = λ i lt. elim (Bool-cases (i == p.to)) [
          | inl at ↦ rw (at, (==_iff i p.to).0 at) forgets_z
          | inr other ↦ rw other (st.forgets i lt)
        ];
        quiet = λ i lt. elim (Bool-cases (i == p.to)) [
          | inl at ↦ rw at refl
          | inr other ↦ rw other (st.quiet i lt)
        ];
        on_way = All-append Way before _ parts.0 (
            All-append Way rest _ parts.2
              (subst (λ l. All Way (spread_all heard p.to l)) (sym sent_z) ways));
        some_left = (
          j,
          Bound-right j before _ (
              Bound-right j rest _
                (subst (λ l. Bound j (spread_all heard p.to l)) (sym sent_z) bound)),
        );
      }

  -- Some packet in the air can be delivered.
  deliverable :
      (s : Net) (air : List Packet) (j : ℕ)
      → IsStorm nodes world heard q s
      → s.air ≡ air
      → Bound j air
      → (t : Net) × (step : Step nodes world heard s t) × IsLossless nodes world heard
          (stepped here step)
  deliverable s (p ∷ rest) j st eq bound =
      let way = (subst (All (IsOnWay nodes world heard q)) eq st.on_way).0 in
      let (t, hops, ran, _, _) = handled s p st way in
      (after s [] p rest t, deliver [] p rest t eq way.0 ran, tt)
  deliverable s [] j st eq bound = absurd bound

  still-IsStorm :
      (s t : Net) (k : ℕ)
      → IsStorm nodes world heard q s
      → (run : Run nodes world heard s k t) → IsLossless nodes world heard run
      → IsStorm nodes world heard q t
  still-IsStorm s _ _ st here whole = st
  still-IsStorm s _ _ st (stepped {t = u} run (lose before p rest eq)) whole = absurd whole
  still-IsStorm s _ _ st (stepped {t = u} run (deliver before p rest z eq to ran)) whole =
      Step-IsStorm u _ (still-IsStorm s u _ st run whole) (deliver before p rest z eq to ran) tt

  -- A network of healthy nodes, whose clocks do not go back, gets a request whose destination none
  -- of them is and which does not ask for a new route; every node is started with a staleness of
  -- 0, holds no entry that is newer than its clock, and has sent what it had to; at least one
  -- frame is in the air, and every frame in the air is the request after some number of hops, on
  -- its way to a node from a neighbour; and whatever interface a node hears a neighbour's
  -- broadcast on, there is another of its interfaces, neither loopback nor eth0, on which some
  -- node hears it. Then after any number of deliveries in any order, if no frame is lost, all of
  -- this holds again, and some frame in the air can be delivered: the flood never ends.
  pub goes_on_for_ever :
      (s t : Net) (k : ℕ)
      → IsStorm nodes world heard q s
      → (run : Run nodes world heard s k t) → IsLossless nodes world heard run
      → IsStorm nodes world heard q t
        × ((u : Net) × (step : Step nodes world heard t u) × IsLossless nodes world heard
              (stepped here step))
  goes_on_for_ever s t k st run whole =
      let now = still-IsStorm s t k st run whole in
      (now, deliverable t t.air now.some_left.0 now refl now.some_left.1)
