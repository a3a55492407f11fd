-- ===== src/Network/Node.antt =====
-- One node of a network through which a request is flooded.
use on_demand_routing.Base.{
  ℕ, ◌+◌, ◌≤◌, ◌<◌, ◌^◌, ◌≡◌, true, false, Option, none, some, [], CStr, str_eq, fits, ◌==◌, All,
  if◌then◌else◌,
}
use on_demand_routing.Word.{rank, IsWord}
use on_demand_routing.Frame.{Frame, type_rreq, convert_host_net_order, inet_addrstrlen}
use on_demand_routing.Odr.{Odr, World, Mac, Route, Table}
use on_demand_routing.Routes.Found.{find}
use on_demand_routing.Transmit.Delivery.{frame_of, copies, onto}

-- A request, without its hop count.
pub record Request : Type 0 where
  pub src_ip : CStr
  pub dest_ip : CStr
  pub broadcast_id : ℕ
  pub src_port : ℕ
  pub dst_port : ℕ
  pub route_disc_flag : ℕ

-- The request after so many hops, in host order.
abbrev pub after_hops : Request → ℕ → Frame
after_hops q hops =
    frame_of type_rreq q.broadcast_id hops 0 q.route_disc_flag q.src_port q.dst_port q.dest_ip
      q.src_ip []

-- More than every hop count that is not negative.
abbrev pub far : ℕ
far = 2 ^ 31

-- The numbers are ints, the addresses fit, and the destination is not the source.
pub record IsRequest (q : Request) : Type 0 where
  pub broadcast_id : IsWord q.broadcast_id
  pub src_port : IsWord q.src_port
  pub dst_port : IsWord q.dst_port
  pub route_disc_flag : IsWord q.route_disc_flag
  pub src_fits : fits inet_addrstrlen q.src_ip ≡ true
  pub dest_fits : fits inet_addrstrlen q.dest_ip ≡ true
  pub apart : str_eq q.src_ip q.dest_ip ≡ false

module _ (w : World) (q : Request) (stale : ℕ) where
  -- An entry is not for the destination; one for the source is for this request or an older one,
  -- and no reading of the clock finds it stale.
  abbrev pub IsCalm : Route → Type 0
  IsCalm e =
      (str_eq e.destip q.dest_ip ≡ false)
      × (str_eq e.destip q.src_ip ≡ true
          → IsWord e.broadcast_id
            × (rank e.broadcast_id ≤ rank q.broadcast_id)
            × (e.no_hops < far)
            × ((n : ℕ) → w.clock n < e.timestamp + stale))

  -- All linked entries are such.
  abbrev pub IsCalmTable : Table → Type 0
  IsCalmTable t = All (λ p. (p < t.fresh) × IsCalm (t.entry p)) t.order

  abbrev pub IsCalmNode : Odr → Type 0
  IsCalmNode s = (s.stale_param ≡ stale) × IsCalmTable s.routes

-- The node's distance from the source by this request.
abbrev pub distance_by : Request → (ℕ → Route) → Option ℕ → ℕ
distance_by q entry none = far
distance_by q entry (some p) =
    if (entry p).broadcast_id == q.broadcast_id then (entry p).no_hops else far

abbrev pub distance_in : Request → Table → ℕ
distance_in q t = distance_by q t.entry (find t.entry q.src_ip t.order)

unfoldable pub distance : Request → Odr → ℕ
distance q s = distance_in q s.routes

-- The interface and the neighbour that the node's route to the source leads over.
abbrev pub way_by : (ℕ → Route) → Option ℕ → Option (ℕ × Mac)
way_by entry none = none
way_by entry (some p) = some ((entry p).if_no, (entry p).next_hop)

unfoldable pub way : Request → Odr → Option (ℕ × Mac)
way q s = way_by s.routes.entry (find s.routes.entry q.src_ip s.routes.order)

module _ (w : World) (q : Request) (hops intf_n : ℕ) (hop : Mac) where
  -- The node ignores the request, and it was reached before unless the request is flagged; or it
  -- gets one hop nearer than it was, over the sender of the request, and floods the request on.
  pub data Reaction (s t : Odr) : Type 0 where
    ignored :
        distance q t ≡ distance q s
        → way q t ≡ way q s
        → t.sent ≡ s.sent
        → (q.route_disc_flag ≡ 0 → distance q s < far)
        → Reaction s t
    flooded :
        hops + 1 ≤ distance q s
        → distance q t ≡ hops + 1
        → way q t ≡ some (intf_n, hop)
        → t.sent
          ≡ onto
              (copies intf_n (convert_host_net_order (after_hops q (hops + 1))) w.interfaces)
              s.sent
        → Reaction s t
