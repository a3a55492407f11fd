-- ===== src/Handler/Ether.antt =====
-- `handle_ethernet_msg` of assign3/odr_and.c: a frame from the network. `intf_n` and `hop` are the
-- interface that it came in on and the Ethernet address of the node that sent it.
pub mod Rreq
pub mod Rrep
pub mod Payload
pub mod Asent
use on_demand_routing.Base.{ℕ, Bool, true, false, not, ◌&&◌, Option, CStr, ◌==◌, if◌then◌else◌}
use on_demand_routing.Frame.{
  Frame, convert_net_host_order, type_rreq, type_rrep, type_data, type_asent,
}
use on_demand_routing.Odr.{Odr, World, Mac}
use on_demand_routing.Odr.Outcome.{Act, pure, fail, gets, or_fail, ◌>>=◌, ◌>>◌}
use on_demand_routing.System.{get_self_ip, get_name_ip}
use on_demand_routing.Routes.{is_broadid_greater, get_r_entry}
use Rreq.{on_rreq}
use Rrep.{on_rrep}
use Payload.{on_data}
use Asent.{on_asent}

-- A frame with the route discovery flag whose broadcast id is not newer than that of every entry
-- for its source.
abbrev pub is_duplicate : Frame → Odr → Bool
is_duplicate f s =
    f.route_disc_flag == 1
    && not (is_broadid_greater s.routes.entry f.src_ip f.broadcast_id s.routes.order)

module _ (w : World) where
  -- The `switch` on the frame's type.
  unfoldable pub dispatch : CStr → Frame → ℕ → Mac → Option ℕ → Option ℕ → Act (Unit {0})
  dispatch self_ip f intf_n hop dest src =
      if f.frame_type == type_rreq
      then on_rreq w self_ip f intf_n hop dest src
      else if f.frame_type == type_rrep
      then on_rrep w self_ip f intf_n hop dest src
      else if f.frame_type == type_data
      then on_data w self_ip f intf_n hop dest src
      else if f.frame_type == type_asent
      then on_asent w f intf_n hop src
      else fail

  -- Both lookups, then the case for the frame's type.
  unfoldable pub handle_frame : CStr → Frame → ℕ → Mac → Act (Unit {0})
  handle_frame self_ip f intf_n hop = do
    dest ← get_r_entry w f.dest_ip f.route_disc_flag
    src ← get_r_entry w f.src_ip 0
    get_name_ip w f.src_ip
    get_name_ip w f.dest_ip
    dispatch self_ip f intf_n hop dest src

  -- The frame comes in network order. The code's test whether the node sent it itself compares the
  -- addresses of two buffers, which never agree, so no frame is dropped there. `done` stands for
  -- the code's 0 and 1.
  unfoldable pub handle_ethernet_msg : Frame → ℕ → Mac → Act (Unit {0})
  handle_ethernet_msg recv_buf intf_n hop = do
    self_ip ← or_fail (get_self_ip w.interfaces)
    let f = convert_net_host_order recv_buf
    repeated ← gets λ s. is_duplicate f s
    if repeated then pure tt else handle_frame self_ip f intf_n hop
