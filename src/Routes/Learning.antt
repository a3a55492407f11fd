-- ===== src/Routes/Learning.antt =====
-- The writes to the routing table of a node whose names resolve.
use on_demand_routing.Base.{ℕ, ◌+◌, ◌≡◌, refl, true, false, CStr, fits}
use on_demand_routing.Frame.{Frame, inet_addrstrlen}
use on_demand_routing.Odr.{Odr, World, Mac, Table}
use on_demand_routing.Odr.Outcome.{done, monad}
use on_demand_routing.System.{gettimeofday}
use on_demand_routing.Routes.{
  insert_r_entry, check_r_entry, update_r_entry, is_better, learned, store, allocate, link_first,
}
use on_demand_routing.Transmit.Delivery.{IsHealthy, get_name_ip-done}

-- The table with a new entry at its head.
abbrev pub inserted : Frame → ℕ → Mac → ℕ → Table → Table
inserted f intf_n hop now t =
    link_first t.fresh (store (allocate t) t.fresh (learned f intf_n hop now))

-- The state after the clock was read and the table became `t`.
abbrev pub learnt : Table → Odr → Odr
learnt t s = record s { clock_reads = s.clock_reads + 1; routes = t }

module _ (w : World) (self_ip : CStr) (h : IsHealthy w self_ip) (f : Frame) (intf_n : ℕ) (hop : Mac)
    (room : fits inet_addrstrlen f.src_ip ≡ true) (s : Odr) where
  pub insert_r_entry-done :
      insert_r_entry w f intf_n hop s
      ≡ done s.routes.fresh (learnt (inserted f intf_n hop (w.clock s.clock_reads) s.routes) s)
  unfolding insert_r_entry update_r_entry gettimeofday monad
  insert_r_entry-done = rw (room, get_name_ip-done w self_ip h f.src_ip _) refl

  pub check_r_entry_updates :
      (p : ℕ)
      → is_better f (s.routes.entry p) ≡ true
      → check_r_entry w f p intf_n hop s
        ≡ done true (learnt (store s.routes p (learned f intf_n hop (w.clock s.clock_reads))) s)
  unfolding check_r_entry update_r_entry gettimeofday monad
  check_r_entry_updates p better = rw (better, room, get_name_ip-done w self_ip h f.src_ip _) refl

pub check_r_entry_keeps :
    (w : World) (f : Frame) (intf_n : ℕ) (hop : Mac) (s : Odr) (p : ℕ)
    → is_better f (s.routes.entry p) ≡ false
    → check_r_entry w f p intf_n hop s ≡ done false s
unfolding check_r_entry monad
check_r_entry_keeps w f intf_n hop s p worse = rw worse refl
