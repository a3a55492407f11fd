-- ===== src/Network/WayOut.antt =====
-- The way out to the destination, along the relays that passed on what it sent back.
use on_demand_routing.Base.{
  ℕ, zero, suc, ◌+◌, ◌≤◌, ◌<◌, ◌≡◌, ◌∙◌, refl, sym, subst, inl, inr, false, some, [], ◌∷◌, ◌++◌,
  CStr, ◌==◌, ==_iff, Bool-cases, arith,
}
use on_demand_routing.Word.{IsWord}
use on_demand_routing.Frame.{Frame, convert_host_net_order}
use on_demand_routing.Odr.{Odr, World, Mac, raw}
use on_demand_routing.System.{get_hwaddr_from_int, convert_to_mac}
use on_demand_routing.Odr.Outcome.{done}
use on_demand_routing.Handler.Ether.{handle_ethernet_msg}
use on_demand_routing.Handler.Relay.{relayed}
use on_demand_routing.Handler.Onward.{relayed-relayed}
use on_demand_routing.Network.{
  Packet, Net, Wiring, update, flushed, spread, spread_all, Step, deliver, Run, here, stepped,
}
use mathlib.Core.List.{append-nil}
use on_demand_routing.Network.Node.{Request, IsRequest}
use on_demand_routing.Network.Flood.{IsNetwork}
use on_demand_routing.Network.Taught.{IsAnswer, IsTaught, relayed-IsAnswer}
use on_demand_routing.Network.Relays.{AloneFor}
use on_demand_routing.Network.Outward.{back, sends_out}

module _ (nodes : ℕ) (world : ℕ → World) (heard : Wiring) where
  -- A step before a run.
  pub first_step :
      {s t : Net}
      → Step nodes world heard s t
      → {u : Net} {k : ℕ} → Run nodes world heard t k u
      → Run nodes world heard s (suc k) u
  first_step step here = stepped here step
  first_step step (stepped run last) = stepped (first_step step run) last

  -- One run after another.
  pub Run-append :
      {s t : Net} {k : ℕ}
      → Run nodes world heard s k t
      → {u : Net} {l : ℕ} → Run nodes world heard t l u
      → (j : ℕ) × (j ≡ k + l) × Run nodes world heard s j u
  Run-append {k = k} run here = (k, omega arith, run)
  Run-append {k = k} run (stepped {k = l} more_run step) =
      let (j, same, whole) = Run-append run more_run in
      (suc j, omega (arith, same), stepped whole step)

pub apart_of_lt : (rank : ℕ → ℕ) (x y : ℕ) → rank x < rank y → (y == x) ≡ false
apart_of_lt rank x y less = elim (Bool-cases (y == x)) [
  | inl same ↦ absurd (omega (arith, subst (λ z. rank x < rank z) ((==_iff y x).0 same) less))
  | inr other ↦ other
]

pub apart_of_gt : (rank : ℕ → ℕ) (x y : ℕ) → rank x < rank y → (x == y) ≡ false
apart_of_gt rank x y less = elim (Bool-cases (x == y)) [
  | inl same ↦ absurd (omega (arith, subst (λ z. rank z < rank y) ((==_iff x y).0 same) less))
  | inr other ↦ other
]

module _ (nodes links degree stale : ℕ) (world : ℕ → World) (heard : Wiring) (self : ℕ → CStr)
    (q : Request) (r : IsRequest q) (net : IsNetwork nodes links degree stale world heard self q)
    (rank : ℕ → ℕ) (end k_end : ℕ) (m_end : Mac) where
  abbrev IsTaughtNode : ℕ → Odr → ℕ → Mac → Type 0
  IsTaughtNode i s k m =
      IsTaught (world i) q stale s.routes k m × (s.stale_param ≡ stale) × (s.sent ≡ [])

  -- From a node over so many relays, whose ranks rise, to the last, which knows where to send what
  -- is for the destination.
  pub data WayOut (node : ℕ → Odr) : ℕ → ℕ → Type 0 where
    last : {j : ℕ} → j ≡ end → IsTaughtNode j (node j) k_end m_end → WayOut node j zero
    more :
        {j n : ℕ} (k x : ℕ) (m mac : Mac) (i : ℕ)
        → IsTaughtNode j (node j) k m
        → get_hwaddr_from_int (world j).interfaces k ≡ some mac
        → heard j k (convert_to_mac m) ≡ (i, x) ∷ []
        → i < nodes
        → rank j < rank i
        → WayOut node i n
        → WayOut node j (suc n)

  -- It does not depend on nodes of lower rank.
  pub WayOut-kept :
      (old new : ℕ → Odr) {j n : ℕ}
      → WayOut old j n
      → ((y : ℕ) → rank j ≤ rank y → new y ≡ old y)
      → WayOut new j n
  WayOut-kept old new {j = j} (last here_ends taught) kept =
      last here_ends (subst (λ s. IsTaughtNode j s k_end m_end) (sym (kept j (omega arith))) taught)
  WayOut-kept old new {j = j} (more k x m mac i taught linked to_next lt rises rest) kept =
      more k x m mac i (subst (λ s. IsTaughtNode j s k m) (sym (kept j (omega arith))) taught)
        linked to_next lt rises
        (WayOut-kept old new rest (λ y le. kept y (omega (arith, rises, le))))

  -- The last node has the frame before it, and sends it, alone, on its way out.
  abbrev pub LeavesEnd : Frame → Mac → Net → Type 0
  LeavesEnd g mac v =
      (p : Packet) × (z : Odr) × (hops : ℕ) × IsWord hops
      × (v.air ≡ p ∷ [])
      × (p.to ≡ end)
      × (handle_ethernet_msg (world end) p.frame p.if_index p.hop (v.node end) ≡ done tt z)
      × (z.sent
          ≡ raw (convert_to_mac mac) (convert_to_mac m_end) k_end
              (convert_host_net_order (relayed g hops))
            ∷ [])

  last_out :
      (u : Net) (j : ℕ) (g : Frame)
      → j ≡ end
      → j < nodes
      → IsAnswer (back q) g
      → AloneFor j g u.air
      → IsTaughtNode j (u.node j) k_end m_end
      → (mac : Mac) → get_hwaddr_from_int (world end).interfaces k_end ≡ some mac
      → LeavesEnd g mac u
  last_out u j g e lt a (k_in, hop, alone) (taught, same_stale, quiet) mac linked =
      let (hops, z, word, ran, sent) =
        sends_out (world j) (self j) (net.healthy j lt) q r stale (net.elsewhere j lt) g a k_in hop
          (u.node j) k_end m_end taught same_stale mac quiet
          (subst (λ x. get_hwaddr_from_int (world x).interfaces k_end ≡ some mac) (sym e) linked) in
      let p : Packet = record {
        to = j;
        if_index = k_in;
        hop = hop;
        frame = convert_host_net_order g;
      } in
      (
        p,
        z,
        hops,
        word,
        alone,
        e,
        subst (λ x. handle_ethernet_msg (world x) p.frame k_in hop (u.node x) ≡ done tt z) e ran,
        sent,
      )

  one_out :
      (u : Net) (j : ℕ) (g : Frame)
      → j < nodes
      → IsAnswer (back q) g
      → AloneFor j g u.air
      → (k : ℕ) (m mac : Mac) → IsTaughtNode j (u.node j) k m
      → get_hwaddr_from_int (world j).interfaces k ≡ some mac
      → (hops : ℕ) × (z : Odr) × IsWord hops
        × Step nodes world heard u (record {
          node = update u.node j (flushed z);
          air = [] ++ ([] ++ spread_all heard j z.sent);
        })
        × (spread_all heard j z.sent
            ≡ spread heard j (
                raw
                  (convert_to_mac mac)
                  (convert_to_mac m)
                  k
                  (convert_host_net_order (relayed g hops))))
  unfolding spread_all
  one_out u j g lt a (k_in, hop, alone) k m mac (taught, same_stale, quiet) linked =
      let (hops, z, word, ran, sent) =
        sends_out (world j) (self j) (net.healthy j lt) q r stale (net.elsewhere j lt) g a k_in hop
          (u.node j) k m taught same_stale mac quiet linked in
      let p : Packet = record {
        to = j;
        if_index = k_in;
        hop = hop;
        frame = convert_host_net_order g;
      } in
      (hops, z, word, deliver [] p [] z alone lt ran, rw sent (append-nil _))

  -- The frame goes out on the way.
  pub goes_out :
      (n : ℕ) (u : Net) (g : Frame) {j : ℕ}
      → WayOut u.node j n
      → j < nodes
      → IsAnswer (back q) g
      → AloneFor j g u.air
      → (mac : Mac) → get_hwaddr_from_int (world end).interfaces k_end ≡ some mac
      → (v : Net) × Run nodes world heard u n v × LeavesEnd g mac v
  unfolding spread
  goes_out zero u g {j = j} (last here_ends taught) lt a alone mac end_linked =
      (u, here, last_out u j g here_ends lt a alone taught mac end_linked)
  goes_out (suc n) u g {j = j} (more k x m mac i taught linked to_next i_lt rises rest) lt a alone
        end_mac end_linked =
      let (hops, z, word, step, out) = one_out u j g lt a alone k m mac taught linked in
      let node = update u.node j (flushed z) in
      let message =
        raw (convert_to_mac mac) (convert_to_mac m) k (convert_host_net_order (relayed g hops)) in
      let onward : spread heard j message
          ≡ record {
            to = i;
            if_index = x;
            hop = convert_to_mac mac;
            frame = convert_host_net_order (relayed g hops);
          }
            ∷ [] =
        rw to_next refl in
      let w : Net = record { node = node; air = [] ++ ([] ++ spread_all heard j z.sent) } in
      let (v, run, (p, y, last_hops, last_word, alone_last, at_end, ran, leaves)) =
        goes_out n w (relayed g hops)
          (WayOut-kept u.node node rest
            (λ y le. rw (apart_of_lt rank j y (omega (arith, rises, le))) refl))
          i_lt (relayed-IsAnswer (back q) g a hops word) (x, convert_to_mac mac, out ∙ onward)
          end_mac end_linked in
      (
        v,
        first_step nodes world heard step run,
        (
          p,
          y,
          last_hops,
          last_word,
          alone_last,
          at_end,
          ran,
          subst
              (λ f.
                y.sent
                ≡ raw (convert_to_mac end_mac) (convert_to_mac m_end) k_end
                    (convert_host_net_order f)
                  ∷ [])
              (relayed-relayed g hops last_hops a.kind) leaves,
        ),
      )
