-- ===== src/Handler/Total.antt =====
-- `handle_ethernet_msg` on a healthy node, from its guards to its cases.
use on_demand_routing.Base.{
  ℕ, ◌≤◌, ◌≡◌, inl, inr, true, false, Bool, Option, none, some, CStr, fits, str_eq, ◌==◌, arith,
  Bool-cases, lt→ltb, if◌then◌else◌,
}
use on_demand_routing.Frame.{
  Frame, IsFrame, convert_net_host_order, inet_addrstrlen, type_rreq, type_rrep, type_data,
  type_asent,
}
use on_demand_routing.Odr.{Odr, World, Mac}
use on_demand_routing.Odr.Outcome.{pure, monad}
use on_demand_routing.Odr.Ensures.{Returns, Returns-bind}
use on_demand_routing.Transmit.Delivery.{IsHealthy, get_name_ip-done}
use on_demand_routing.Routes.{get_r_entry}
use on_demand_routing.Handler.Learn.{learn_source, pass_on}
use on_demand_routing.Handler.Ether.{is_duplicate, dispatch, handle_frame, handle_ethernet_msg}
use on_demand_routing.Handler.Ether.Rreq.{on_rreq}
use on_demand_routing.Handler.Ether.Rrep.{on_rrep}
use on_demand_routing.Handler.Ether.Payload.{on_data}
use on_demand_routing.Handler.Ether.Asent.{on_asent}
use on_demand_routing.Handler.Serving.{
  HasInterface, FitsFrame, IsServing, Given, get_r_entry-IsServing, learn_source-IsServing,
}
use on_demand_routing.Handler.Progress.{
  Serves, pass_on-Serves, reply-Serves, answer-Serves, lookup-Serves, forward_rrep-Serves,
  forward_data-Serves, process_data_message-Serves,
}

-- One of the four types of frames.
abbrev pub IsKnown : Frame → Type 0
IsKnown f = (type_rreq ≤ f.frame_type) × (f.frame_type ≤ type_asent)

Given-mono :
    (w : World) (s t : Odr) (r : Option ℕ)
    → s.routes.fresh ≤ t.routes.fresh
    → Given w s r
    → Given w t r
Given-mono w s t none le g = tt
Given-mono w s t (some p) le g = omega (arith, le, g)

pub IsFrame-FitsFrame : (w : World) (f : Frame) → IsFrame f → FitsFrame w f
IsFrame-FitsFrame w f k = (lt→ltb _ _ k.src_ip, lt→ltb _ _ k.dest_ip)

module _ (w : World) (self_ip : CStr) (h : IsHealthy w self_ip)
    (own : fits inet_addrstrlen self_ip ≡ true) (f : Frame) (k : IsFrame f) (intf_n : ℕ)
    (link : HasInterface w intf_n) (hop : Mac) (dest src : Option ℕ) where
  abbrev fit : FitsFrame w f
  fit = IsFrame-FitsFrame w f k

  on_rreq-Serves :
      (s : Odr)
      → Given w s src
      → IsServing w s
      → Serves w self_ip h own f intf_n fit (on_rreq w self_ip f intf_n hop dest src) s
  unfolding on_rreq monad
  on_rreq-Serves s g v =
      Returns-bind _ _ (learn_source w f intf_n hop src s) _
        (learn_source-IsServing w self_ip h f intf_n hop fit.0 link src s v g)
        λ (p, b) t (lt, vt, _). elim (Bool-cases (str_eq f.dest_ip self_ip)) [
          | inl mine ↦ rw mine (reply-Serves w self_ip h own f intf_n fit p t lt vt)
          | inr other ↦ rw other (answer-Serves w self_ip h own f intf_n fit p b dest t lt vt)
        ]

  on_rrep-Serves :
      (s : Odr)
      → Given w s dest
      → Given w s src
      → IsServing w s
      → Serves w self_ip h own f intf_n fit (on_rrep w self_ip f intf_n hop dest src) s
  unfolding on_rrep monad
  on_rrep-Serves s gd g v =
      Returns-bind _ _ (learn_source w f intf_n hop src s) _
        (learn_source-IsServing w self_ip h f intf_n hop fit.0 link src s v g)
        λ (p, b) t (lt, vt, le). elim (Bool-cases (str_eq f.dest_ip self_ip)) [
          | inl mine ↦ rw mine (lookup-Serves w self_ip h own f intf_n fit p t lt vt)
          | inr other ↦ rw other (
              forward_rrep-Serves w self_ip h own f intf_n fit p dest t
                (Given-mono w s t dest le gd) vt)
        ]

  on_data-Serves :
      (s : Odr)
      → Given w s dest
      → Given w s src
      → IsServing w s
      → Serves w self_ip h own f intf_n fit (on_data w self_ip f intf_n hop dest src) s
  unfolding on_data monad
  on_data-Serves s gd g v =
      Returns-bind _ _ (learn_source w f intf_n hop src s) _
        (learn_source-IsServing w self_ip h f intf_n hop fit.0 link src s v g)
        λ (p, b) t (lt, vt, le). elim (Bool-cases (str_eq f.dest_ip self_ip)) [
          | inl mine ↦
              rw mine
                (process_data_message-Serves w self_ip h own f intf_n fit t k.src_port k.payload vt)
          | inr other ↦ rw other (
              forward_data-Serves w self_ip h own f intf_n fit p dest t
                (Given-mono w s t dest le gd) vt)
        ]

  on_asent-Serves :
      (s : Odr)
      → Given w s src
      → IsServing w s
      → Serves w self_ip h own f intf_n fit (on_asent w f intf_n hop src) s
  unfolding on_asent monad
  on_asent-Serves s g v =
      Returns-bind _ _ (learn_source w f intf_n hop src s) _
        (learn_source-IsServing w self_ip h f intf_n hop fit.0 link src s v g)
        λ (p, b) t (lt, vt, _). go b t vt
    where
      go :
          (b : Bool) (t : Odr)
          → IsServing w t
          → Serves w self_ip h own f intf_n fit (if b then pass_on w f intf_n 1 else pure tt) t
      go true t vt = pass_on-Serves w self_ip h own f intf_n fit 1 t vt
      go false t vt = vt

  dispatch-Serves :
      (s : Odr)
      → IsKnown f
      → Given w s dest
      → Given w s src
      → IsServing w s
      → Serves w self_ip h own f intf_n fit (dispatch w self_ip f intf_n hop dest src) s
  unfolding dispatch
  dispatch-Serves s known gd g v = elim (Bool-cases (f.frame_type == type_rreq)) [
    | inl e1 ↦ rw e1 (on_rreq-Serves s g v)
    | inr n1 ↦ elim (Bool-cases (f.frame_type == type_rrep)) [
      | inl e2 ↦ rw (n1, e2) (on_rrep-Serves s gd g v)
      | inr n2 ↦ elim (Bool-cases (f.frame_type == type_data)) [
        | inl e3 ↦ rw (n1, n2, e3) (on_data-Serves s gd g v)
        | inr n3 ↦ rw (n1, n2, n3, is_asent known n1 n2 n3) (on_asent-Serves s g v)
      ]
    ]
  ]
    where
      is_asent :
          IsKnown f
          → (f.frame_type == type_rreq) ≡ false
          → (f.frame_type == type_rrep) ≡ false
          → (f.frame_type == type_data) ≡ false
          → (f.frame_type == type_asent) ≡ true
      is_asent known n1 n2 n3 = ground (arith, known, n1, n2, n3)

module _ (w : World) (self_ip : CStr) (h : IsHealthy w self_ip)
    (own : fits inet_addrstrlen self_ip ≡ true) (intf_n : ℕ) (link : HasInterface w intf_n)
    (hop : Mac) where
  handle_frame-IsServing :
      (f : Frame) (s : Odr)
      → IsFrame f
      → IsKnown f
      → IsServing w s
      → Returns (λ _ t. IsServing w t) (handle_frame w self_ip f intf_n hop s)
  unfolding handle_frame monad
  handle_frame-IsServing f s k known v =
      Returns-bind _ _ (get_r_entry w f.dest_ip f.route_disc_flag s) _
        (get_r_entry-IsServing w f.dest_ip f.route_disc_flag s v)
        λ dest t (gd, vt, _).
          Returns-bind _ _ (get_r_entry w f.src_ip 0 t) _ (get_r_entry-IsServing w f.src_ip 0 t vt)
            λ src u (g, vu, same).
              rw (get_name_ip-done w self_ip h f.src_ip u, get_name_ip-done w self_ip h f.dest_ip u)
                (dispatch-Serves w self_ip h own f k intf_n link hop dest src u known
                  (Given-mono w t u dest (omega (arith, same)) gd) g vu)

  -- A well-formed frame of a known type is always handled, and the next message can be served.
  pub handle_ethernet_msg-IsServing :
      (recv_buf : Frame) (s : Odr)
      → IsFrame (convert_net_host_order recv_buf)
      → IsKnown (convert_net_host_order recv_buf)
      → IsServing w s
      → Returns (λ _ t. IsServing w t) (handle_ethernet_msg w recv_buf intf_n hop s)
  unfolding handle_ethernet_msg monad
  handle_ethernet_msg-IsServing recv_buf s k known v =
      elim (Bool-cases (is_duplicate (convert_net_host_order recv_buf) s)) [
        | inl dup ↦ rw (h.own, dup) v
        | inr new ↦
            rw (h.own, new) (handle_frame-IsServing (convert_net_host_order recv_buf) s k known v)
      ]
