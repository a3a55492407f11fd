-- ===== src/Network/Taught.antt =====
-- A relay that has passed on what the destination sent back knows the way to the destination.
use on_demand_routing.Base.{
  ℕ, ◌+◌, ◌<◌, ◌≡◌, ◌⊎◌, refl, sym, subst, true, false, some, All, All-mono, str_eq, str_eq_refl,
  str_eq_comm, ==_refl, arith,
}
use on_demand_routing.Word.{IsWord}
use on_demand_routing.Frame.{Frame, IsFrame, type_data, type_rrep}
use on_demand_routing.Odr.{World, Mac, Route, Table}
use on_demand_routing.Routes.{learned, store, allocate, link_first}
use on_demand_routing.Routes.Found.{find}
use on_demand_routing.Routes.Learning.{inserted}
use on_demand_routing.Handler.Relay.{relayed, below-==}
use on_demand_routing.Handler.Onward.{relayed-IsFrame}
use on_demand_routing.Network.Node.{Request, IsRequest, far, IsCalm, IsCalmTable}

-- A reply or data from the destination of the request to its source.
pub record IsAnswer (q : Request) (f : Frame) : Type 0 where
  pub well_formed : IsFrame f
  pub kind : (f.frame_type ≡ type_data) ⊎ (f.frame_type ≡ type_rrep)
  pub unflagged : f.route_disc_flag ≡ 0
  pub to_source : f.dest_ip ≡ q.src_ip
  pub from_dest : f.src_ip ≡ q.dest_ip

module _ (q : Request) (f : Frame) (a : IsAnswer q f) where
  kind_kept :
      (hops : ℕ)
      → ((relayed f hops).frame_type ≡ type_data) ⊎ ((relayed f hops).frame_type ≡ type_rrep)
  kind_kept hops = ground (arith, a.kind)

  pub relayed-hop_count : (hops : ℕ) → (relayed f hops).hop_count ≡ hops
  relayed-hop_count hops = ground (arith, a.kind)

  -- What is passed on is such a frame, too.
  pub relayed-IsAnswer : (hops : ℕ) → IsWord hops → IsAnswer q (relayed f hops)
  relayed-IsAnswer hops small = record {
    well_formed = relayed-IsFrame f hops a.well_formed small a.kind;
    kind = kind_kept hops;
    unflagged = ground (arith, a.kind, a.unflagged);
    to_source = ground (arith, a.kind, a.to_source);
    from_dest = ground (arith, a.kind, a.from_dest);
  }

module _ (w : World) (q : Request) (stale : ℕ) where
  -- No reading of the clock finds the entry stale.
  abbrev pub IsCurrent : Route → Type 0
  IsCurrent e = (n : ℕ) → w.clock n < e.timestamp + stale

  -- The entries for the destination and for the source are not stale, and those for the source are
  -- of routes that are not too long.
  abbrev pub IsUsable : Route → Type 0
  IsUsable e =
      (str_eq e.destip q.dest_ip ≡ true → IsCurrent e)
      × (str_eq e.destip q.src_ip ≡ true → IsCurrent e × (e.no_hops < far))

  -- The route to the destination leads over the interface and the neighbour.
  pub record IsTaught (t : Table) (k : ℕ) (m : Mac) : Type 0 where
    pub at : ℕ
    pub found : find t.entry q.dest_ip t.order ≡ some at
    pub below : at < t.fresh
    pub over : (t.entry at).if_no ≡ k
    pub to : (t.entry at).next_hop ≡ m
    pub usable : All (λ p. IsUsable (t.entry p)) t.order

  module _ (r : IsRequest q) (steady : (m n : ℕ) → w.clock n < w.clock m + stale) (f : Frame)
      (a : IsAnswer q f) (k : ℕ) (m : Mac) (c : ℕ) (t : Table)
      (calm : IsCalmTable w q stale t) where
    abbrev after : Table
    after = inserted f k m (w.clock c) t

    after_found : find after.entry f.src_ip after.order ≡ some t.fresh
    unfolding store allocate link_first learned find
    after_found = rw (==_refl t.fresh, str_eq_refl f.src_ip) refl

    not_for_source : str_eq f.src_ip q.src_ip ≡ false
    not_for_source =
        subst (λ x. str_eq x q.src_ip ≡ false) (sym a.from_dest)
          (str_eq_comm q.src_ip q.dest_ip r.apart)

    new-IsUsable : IsUsable (learned f k m (w.clock c))
    unfolding learned
    new-IsUsable = (λ _ n. steady c n, λ same. absurd (ground (arith, same, not_for_source)))

    old-IsUsable : (e : Route) → IsCalm w q stale e → IsUsable e
    old-IsUsable e (other, known) =
        (λ same. absurd (ground (arith, same, other)), λ same. let z = known same in (z.3, z.2))

    pub after-IsTaught : IsTaught after k m
    unfolding store allocate link_first learned
    after-IsTaught = record {
      at = t.fresh;
      found = subst (λ x. find after.entry x after.order ≡ some t.fresh) a.from_dest after_found;
      below = omega arith;
      over = rw (==_refl t.fresh) refl;
      to = rw (==_refl t.fresh) refl;
      usable = (
        rw (==_refl t.fresh) new-IsUsable,
        All-mono t.order (λ p (lt, z). rw (below-== p t.fresh lt) (old-IsUsable (t.entry p) z))
            calm,
      );
    }
