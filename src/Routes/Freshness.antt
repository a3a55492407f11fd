-- ===== src/Routes/Freshness.antt =====
-- `check_r_entry`: which routes replace which entries.
use on_demand_routing.Base.{ℕ, ◌≤◌, ◌<◌, ◌≡◌, ◌⊎◌, Bool, if◌then◌else◌}
use on_demand_routing.Word.{rank}
use on_demand_routing.Frame.{Frame}
use on_demand_routing.Odr.{Odr, Mac, Route}
use on_demand_routing.Odr.Ensures
use on_demand_routing.Odr.Ensures.{Ensures}
use on_demand_routing.Routes.{is_better}
use on_demand_routing.Routes.Invariant.{IsStored}

-- The signed order of broadcast ids, and of hop counts at one broadcast id.
abbrev pub NoWorse : Route → Route → Type 0
NoWorse old new =
    (rank old.broadcast_id < rank new.broadcast_id)
    ⊎ ((old.broadcast_id ≡ new.broadcast_id) × (rank new.no_hops ≤ rank old.no_hops))

-- `check_r_entry` says whether the frame's route is better than the entry's. If it is, the entry
-- becomes that route, which is no worse than it was, and if not, nothing is changed.
abbrev pub Checked : Frame → ℕ → ℕ → Mac → Odr → Bool → Odr → Type 0
Checked f p intf_n hop s updated t =
    (updated ≡ is_better f (s.routes.entry p))
    × NoWorse (s.routes.entry p) (t.routes.entry p)
    × (if updated then IsStored f intf_n hop p s.routes t.routes else t ≡ s)
