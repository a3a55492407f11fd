-- ===== src/Network/Tables.antt =====
-- The route to the source that a node learns from the request.
use on_demand_routing.Base.{
  ℕ, ◌+◌, ◌≤◌, ◌<◌, ◌≡◌, refl, sym, subst, inl, inr, true, false, some, str_eq_refl, ltb→lt, ◌==◌,
  ==_refl, ==_iff, All-mono, Bool-cases, if◌then◌else◌, arith,
}
use on_demand_routing.Word.{inc, rank, IsWord}
use on_demand_routing.Frame.{Frame, IsFrame}
use on_demand_routing.Odr.{World, Mac, Route, Table}
use on_demand_routing.Routes.{is_better, learned, store, allocate, link_first}
use on_demand_routing.Routes.Found.{find, find_same, find-destip}
use on_demand_routing.Routes.Learning.{inserted}
use on_demand_routing.Network.Node.{
  Request, IsRequest, after_hops, far, IsCalm, IsCalmTable, distance_in, way_by,
}

pub after_hops-IsFrame :
    (q : Request) → IsRequest q → (hops : ℕ) → IsWord hops → IsFrame (after_hops q hops)
after_hops-IsFrame q r hops small = record {
  frame_type = omega arith;
  broadcast_id = r.broadcast_id;
  hop_count = small;
  payload_len = omega arith;
  route_disc_flag = r.route_disc_flag;
  src_port = r.src_port;
  dst_port = r.dst_port;
  dest_ip = ltb→lt _ _ r.dest_fits;
  src_ip = ltb→lt _ _ r.src_fits;
  payload = omega arith;
}

-- A route that is replaced was no shorter.
pub is_better-distance :
    (q : Request) (hops : ℕ) (e : Route)
    → IsWord q.broadcast_id
    → hops + 1 < far
    → IsWord e.broadcast_id
    → e.no_hops < far
    → is_better (after_hops q hops) e ≡ true
    → hops + 1 ≤ (if e.broadcast_id == q.broadcast_id then e.no_hops else far)
unfolding is_better inc rank
is_better-distance q hops e qw small ew near better = ground arith

-- A route that is not replaced is one by the request.
pub worse-distance :
    (q : Request) (hops : ℕ) (e : Route)
    → IsWord q.broadcast_id
    → IsWord e.broadcast_id
    → rank e.broadcast_id ≤ rank q.broadcast_id
    → e.no_hops < far
    → is_better (after_hops q hops) e ≡ false
    → (if e.broadcast_id == q.broadcast_id then e.no_hops else far) < far
unfolding is_better rank
worse-distance q hops e qw ew older near worse = ground arith

below-== : (a b : ℕ) → a < b → (a == b) ≡ false
below-== a b h = ground (arith, h)

pub inc_small : (hops : ℕ) → hops + 1 < far → inc hops ≡ hops + 1
unfolding inc
inc_small hops h = omega (arith, h)

module _ (w : World) (q : Request) (r : IsRequest q) (stale : ℕ)
    (steady : (m n : ℕ) → w.clock n < w.clock m + stale) (hops : ℕ) (small : hops + 1 < far)
    (intf_n : ℕ) (hop : Mac) where
  abbrev pub incoming : Frame
  incoming = after_hops q hops

  abbrev pub new_route : ℕ → Route
  new_route k = learned incoming intf_n hop (w.clock k)

  new_route-IsCalm : (k : ℕ) → IsCalm w q stale (new_route k)
  unfolding learned
  new_route-IsCalm k = (
    r.apart,
    λ _. (r.broadcast_id, omega arith, rw (inc_small hops small) small, λ n. steady k n),
  )

  -- The table with the new route, in a new entry or in one that was there.
  pub inserted-IsCalm :
      (k : ℕ) (t : Table)
      → IsCalmTable w q stale t
      → IsCalmTable w q stale (inserted incoming intf_n hop (w.clock k) t)
  unfolding store allocate link_first
  inserted-IsCalm k t c = (
    (omega arith, rw (==_refl t.fresh) (new_route-IsCalm k)),
    All-mono t.order (λ p (lt, z). (omega (arith, lt), rw (below-== p t.fresh lt) z)) c,
  )

  pub stored-IsCalm :
      (k : ℕ) (t : Table) (at : ℕ)
      → IsCalmTable w q stale t
      → IsCalmTable w q stale (store t at (new_route k))
  unfolding store
  stored-IsCalm k t at c =
      All-mono t.order
        (λ p (lt, z). (
          lt,
          elim (Bool-cases (p == at)) [
            | inl same ↦ rw same (new_route-IsCalm k)
            | inr other ↦ rw other z
          ],
        ))
        c

  pub distance-inserted :
      (k : ℕ) (t : Table) → distance_in q (inserted incoming intf_n hop (w.clock k) t) ≡ hops + 1
  unfolding store allocate link_first learned find
  distance-inserted k t =
      rw
        (
          ==_refl t.fresh,
          str_eq_refl q.src_ip,
          ==_refl t.fresh,
          ==_refl q.broadcast_id,
          inc_small hops small,
        )
        refl

  stored_destip :
      (k : ℕ) (t : Table) (at : ℕ)
      → find t.entry q.src_ip t.order ≡ some at
      → (p : ℕ) → ((store t at (new_route k)).entry p).destip ≡ (t.entry p).destip
  unfolding store learned
  stored_destip k t at found p = elim (Bool-cases (p == at)) [
    | inl same ↦ rw same (
        sym (
          subst (λ z. (t.entry z).destip ≡ q.src_ip) (sym ((==_iff p at).0 same))
            (find-destip t.entry q.src_ip at t.order found)))
    | inr other ↦ rw other refl
  ]

  pub distance-stored :
      (k : ℕ) (t : Table) (at : ℕ)
      → find t.entry q.src_ip t.order ≡ some at
      → distance_in q (store t at (new_route k)) ≡ hops + 1
  unfolding store learned
  distance-stored k t at found =
      rw
        (
          find_same t.entry (store t at (new_route k)).entry q.src_ip (stored_destip k t at found)
              t.order,
          found,
          ==_refl at,
          ==_refl q.broadcast_id,
          inc_small hops small,
        )
        refl

  pub way-inserted :
      (k : ℕ) (t : Table)
      → let u = inserted incoming intf_n hop (w.clock k) t in
        way_by u.entry (find u.entry q.src_ip u.order) ≡ some (intf_n, hop)
  unfolding store allocate link_first learned find
  way-inserted k t = rw (==_refl t.fresh, str_eq_refl q.src_ip, ==_refl t.fresh) refl

  pub way-stored :
      (k : ℕ) (t : Table) (at : ℕ)
      → find t.entry q.src_ip t.order ≡ some at
      → let u = store t at (new_route k) in
        way_by u.entry (find u.entry q.src_ip u.order) ≡ some (intf_n, hop)
  unfolding store learned
  way-stored k t at found =
      rw
        (
          find_same t.entry (store t at (new_route k)).entry q.src_ip (stored_destip k t at found)
              t.order,
          found,
          ==_refl at,
        )
        refl
