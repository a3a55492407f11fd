-- ===== src/Handler/Serving.antt =====
-- The states in which a healthy node can serve every message, and the routing table in them.
use on_demand_routing.Base.{
  ℕ, ◌≤◌, ◌<◌, ◌≡◌, refl, inl, inr, true, Option, none, some, List, CStr, fits, ◌==◌, arith, All,
  All-mono, Holds, Bool-cases,
}
use on_demand_routing.Frame.{Frame, inet_addrstrlen}
use on_demand_routing.Odr.{Odr, World, Mac, MapEntry}
use on_demand_routing.Odr.Outcome.{monad}
use on_demand_routing.Odr.Ensures.{Returns}
use on_demand_routing.System.{get_hwaddr_from_int, gettimeofday}
use on_demand_routing.Word.{word_mod}
use on_demand_routing.Ports.{fetch_entry_port, serv_port}
use on_demand_routing.Routes.{is_better, learned, store, allocate, link_first, get_r_entry, is_nil}
use on_demand_routing.Routes.Scan.{Holds-scan}
use on_demand_routing.Routes.Learning.{
  insert_r_entry-done, check_r_entry_updates, check_r_entry_keeps,
}
use on_demand_routing.Transmit.Delivery.{IsHealthy}
use on_demand_routing.Handler.Learn.{learn_source}

-- A process is on the server's port, and every port is an `int`.
abbrev pub ArePorts : ℕ → List MapEntry → Type 0
ArePorts portno ports =
    ((e : MapEntry) × (fetch_entry_port ports serv_port ≡ some e))
    × (portno < word_mod)
    × All (λ e. e.portno < word_mod) ports

module _ (w : World) where
  -- The node has the interface.
  abbrev pub HasInterface : ℕ → Type 0
  HasInterface i = (mac : Mac) × (get_hwaddr_from_int w.interfaces i ≡ some mac)

  abbrev pub FitsFrame : Frame → Type 0
  FitsFrame f = (fits inet_addrstrlen f.src_ip ≡ true) × (fits inet_addrstrlen f.dest_ip ≡ true)

  -- The linked entries were given out, every entry that was given out is over an interface of the
  -- node, the frames that wait have addresses that fit, and the ports are in use.
  abbrev pub IsServing : Odr → Type 0
  IsServing s =
      All (λ p. p < s.routes.fresh) s.routes.order
      × ((p : ℕ) → p < s.routes.fresh → HasInterface (s.routes.entry p).if_no)
      × All (λ q. FitsFrame q.odrframe) s.pending
      × ArePorts s.portno s.ports

  -- An entry that is a pointer into the table.
  abbrev pub Given : Odr → Option ℕ → Type 0
  Given s r = Holds (λ p. p < s.routes.fresh) r

  pub get_r_entry-IsServing :
      (ip : CStr) (flag : ℕ) (s : Odr)
      → IsServing s
      → Returns
          (λ r t. Given t r × IsServing t × (t.routes.fresh ≡ s.routes.fresh))
          (get_r_entry w ip flag s)
  unfolding get_r_entry gettimeofday monad
  get_r_entry-IsServing ip flag s (linked, reach, waits, ready) =
      elim (Bool-cases (is_nil s.routes.order)) [
        | inl e ↦ rw e (tt, (linked, reach, waits, ready), refl)
        | inr e ↦ rw e (
            let k =
              Holds-scan s.routes.entry (w.clock s.clock_reads) s.stale_param flag ip
                (λ p. p < s.routes.fresh) s.routes.order linked in
            (k.0, (k.1, reach, waits, ready), refl))
      ]

  module _ (self_ip : CStr) (h : IsHealthy w self_ip) (f : Frame) (intf_n : ℕ) (hop : Mac)
      (hs : fits inet_addrstrlen f.src_ip ≡ true) (link : HasInterface intf_n) where
    pub learn_source-IsServing :
        (src : Option ℕ) (s : Odr)
        → IsServing s
        → Given s src
        → Returns
            (λ r t. (r.0 < t.routes.fresh) × IsServing t × (s.routes.fresh ≤ t.routes.fresh))
            (learn_source w f intf_n hop src s)
    unfolding learn_source learned store allocate link_first monad
    learn_source-IsServing none s (linked, reach, waits, ready) g =
        rw (insert_r_entry-done w self_ip h f intf_n hop hs s) (
          omega arith,
          (
            (omega arith, All-mono s.routes.order (λ p lt. omega (arith, lt)) linked),
            (λ q lt. elim (Bool-cases (q == s.routes.fresh)) [
              | inl new ↦ rw new link
              | inr old ↦ rw old (reach q (ground (arith, old, lt)))
            ]),
            waits,
            ready,
          ),
          omega arith,
        )
    learn_source-IsServing (some p) s (linked, reach, waits, ready) g =
        elim (Bool-cases (is_better f (s.routes.entry p))) [
          | inl better ↦ rw (check_r_entry_updates w self_ip h f intf_n hop hs s p better) (
            g,
            (
              linked,
              (λ q lt. elim (Bool-cases (q == p)) [
                | inl new ↦ rw new link
                | inr old ↦ rw old (reach q lt)
              ]),
              waits,
              ready,
            ),
            omega arith,
          )
          | inr worse ↦
              rw (check_r_entry_keeps w f intf_n hop s p worse)
                (g, (linked, reach, waits, ready), omega arith)
        ]
