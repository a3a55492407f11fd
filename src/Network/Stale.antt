-- ===== src/Network/Stale.antt =====
-- A node that is started with a staleness of 0: what it does with a request, each time that it
-- comes.
use on_demand_routing.Base.{
  ℕ, ◌+◌, ◌≤◌, ◌<◌, ◌≡◌, refl, ap, ◌∙◌, true, false, none, [], ◌∷◌, List, All, All-mono, CStr,
  str_eq, Bool-cases, inl, inr, ==_refl, arith,
}
use on_demand_routing.Word.{inc, IsWord}
use on_demand_routing.Frame.{Frame, convert_host_net_order}
use on_demand_routing.Frame.Conversion.{convert_net_host_order-convert_host_net_order}
use on_demand_routing.Odr.{Odr, World, Mac, Route}
use on_demand_routing.Odr.Outcome.{done, monad}
use on_demand_routing.System.{gettimeofday}
use on_demand_routing.Routes.{
  scan, is_expired, is_nil, get_r_entry, learned, store, allocate, link_first,
}
use on_demand_routing.Routes.Scan.{Holds-scan}
use on_demand_routing.Transmit.Delivery.{IsHealthy, copies, onto, transmitted_all, get_name_ip-done}
use on_demand_routing.Handler.Ether.{is_duplicate, dispatch, handle_frame, handle_ethernet_msg}
use on_demand_routing.Handler.Relay.{below-==}
use on_demand_routing.Handler.Requests.{unknown_request_floods}
use on_demand_routing.Network.Node.{Request, IsRequest, after_hops}
use on_demand_routing.Network.Tables.{after_hops-IsFrame}
use on_demand_routing.Routes.Learning.{inserted, learnt}

module _ (entry : ℕ → Route) (now stale flag : ℕ) (ip : CStr) where
  -- A scan in which every entry is expired finds none.
  scan_expired :
      (ps : List ℕ)
      → All (λ p. is_expired entry now stale flag ip p ≡ true) ps
      → (scan entry now stale flag ip ps).0 ≡ none
  unfolding scan
  scan_expired [] h = refl
  scan_expired (p ∷ ps) (h, hs) = elim (Bool-cases (str_eq (entry p).destip ip)) [
    | inl same ↦ rw (same, h) refl
    | inr other ↦ rw other (scan_expired ps hs)
  ]

module _ (w : World) where
  -- With a staleness of 0, every linked entry is stale from the next reading of the clock on.
  abbrev IsOldEntry : Odr → ℕ → Type 0
  IsOldEntry s p =
      (p < s.routes.fresh)
      × ((n : ℕ) → s.clock_reads ≤ n → (s.routes.entry p).timestamp ≤ w.clock n)

  abbrev pub IsForgetful : Odr → Type 0
  IsForgetful s = (s.stale_param ≡ 0) × All (IsOldEntry s) s.routes.order

  -- So a lookup finds nothing.
  lookup_forgets :
      (ip : CStr) (flag : ℕ) (s : Odr)
      → IsForgetful s
      → (t : Odr) × (get_r_entry w ip flag s ≡ done none t) × IsForgetful t × (t.sent ≡ s.sent)
  unfolding get_r_entry gettimeofday is_expired monad
  lookup_forgets ip flag s (zero_stale, old) = elim (Bool-cases (is_nil s.routes.order)) [
    | inl empty ↦ (s, rw empty refl, (zero_stale, old), refl)
    | inr some_left ↦
        let t = s.routes in
        let now = w.clock s.clock_reads in
        let (found, rest) = scan t.entry now s.stale_param flag ip t.order in
        let nothing : found ≡ none =
          scan_expired t.entry now s.stale_param flag ip t.order (
            All-mono t.order (λ p (lt, past). ground (arith, zero_stale, past s.clock_reads))
              old) in
        (
          record s { clock_reads = s.clock_reads + 1; routes = record t { order = rest } },
          rw (some_left, nothing) refl,
          (
            zero_stale,
            All-mono rest (λ p (lt, past). (lt, λ n later. past n (omega (arith, later))))
                (Holds-scan t.entry now s.stale_param flag ip (IsOldEntry s) t.order old).1,
          ),
          refl,
        )
  ]

  module _ (self_ip : CStr) (h : IsHealthy w self_ip) (q : Request) (r : IsRequest q)
      (plain : q.route_disc_flag ≡ 0) (elsewhere : str_eq q.dest_ip self_ip ≡ false)
      (forward : (m n : ℕ) → m ≤ n → w.clock m ≤ w.clock n) (hops : ℕ) (word : IsWord hops)
      (intf_n : ℕ) (hop : Mac) where
    abbrev incoming : Frame
    incoming = after_hops q hops

    -- The new entry is of now, and the others stay as old as they are.
    taught_forgetful :
        (s : Odr)
        → IsForgetful s
        → IsForgetful (learnt (inserted incoming intf_n hop (w.clock s.clock_reads) s.routes) s)
    unfolding store allocate link_first learned
    taught_forgetful s (zero_stale, old) = (
      zero_stale,
      (
        (
          omega arith,
          rw (==_refl s.routes.fresh) (λ n later. forward s.clock_reads n (omega (arith, later))),
        ),
        All-mono s.routes.order
            (λ p (lt, past). (
              omega (arith, lt),
              rw (below-== p s.routes.fresh lt) (λ n later. past n (omega (arith, later))),
            ))
            old,
      ),
    )

    -- The request goes on, whether the node has had it before or not.
    pub floods_again :
        (s : Odr)
        → IsForgetful s
        → (t : Odr) × (handle_ethernet_msg w (convert_host_net_order incoming) intf_n hop s
            ≡ done tt t)
          × IsForgetful t
          × (t.sent
              ≡ onto
                  (copies intf_n (convert_host_net_order (after_hops q (inc hops))) w.interfaces)
                  s.sent)
    unfolding handle_ethernet_msg handle_frame dispatch monad
    floods_again s old =
        let (u, ran_dest, old_u, sent_u) = lookup_forgets q.dest_ip q.route_disc_flag s old in
        let (v, ran_src, old_v, sent_v) = lookup_forgets q.src_ip 0 u old_u in
        let new : is_duplicate incoming s ≡ false = ground (arith, plain) in
        let ms = copies intf_n (convert_host_net_order (after_hops q (inc hops))) w.interfaces in
        let flooded =
          unknown_request_floods w self_ip incoming intf_n hop h r.src_fits r.dest_fits v
            elsewhere in
        (
          transmitted_all ms
              (learnt (inserted incoming intf_n hop (w.clock v.clock_reads) v.routes) v),
          rw
              (
                h.own,
                convert_net_host_order-convert_host_net_order incoming
                    (after_hops-IsFrame q r hops word),
                new,
                ran_dest,
                ran_src,
                get_name_ip-done w self_ip h q.src_ip v,
                get_name_ip-done w self_ip h q.dest_ip v,
              )
              flooded,
          taught_forgetful v old_v,
          ap (onto ms) (sent_v ∙ sent_u),
        )
