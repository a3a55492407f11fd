-- ===== src/Handler/Ether/Rrep.antt =====
-- The case `__RREP` of `handle_ethernet_msg` in assign3/odr_and.c.
use on_demand_routing.Base.{ℕ, false, Option, none, some, CStr, str_eq, ◌==◌, if◌then◌else◌}
use on_demand_routing.Frame.{Frame, convert_host_net_order, type_rrep, type_data}
use on_demand_routing.Odr.{World, Mac}
use on_demand_routing.Odr.Outcome.{Act, pure, or_fail, ◌>>=◌, ◌>>◌}
use on_demand_routing.System.{get_hwaddr_from_int, get_name_ip}
use on_demand_routing.Pending.{lookup_pending_queue}
use on_demand_routing.Transmit.{send_rrep_packet, send_raw_frame}
use on_demand_routing.Handler.Learn.{deref, learn_source, park}

module _ (w : World) (self_ip : CStr) (f : Frame) (intf_n : ℕ) where
  -- A message that waited for this route goes out on it.
  unfoldable pub release : ℕ → Option Frame → Act (Unit {0})
  release src_r_entry none = pure tt
  release src_r_entry (some frame) = do
    entry ← deref src_r_entry
    if frame.frame_type == type_rrep
        then send_rrep_packet w frame entry frame.hop_count false
        else if frame.frame_type == type_data
        then (do
          src_mac ← or_fail (get_hwaddr_from_int w.interfaces entry.if_no)
          send_raw_frame w (some src_mac) entry.next_hop entry.if_no (convert_host_net_order frame)
          get_name_ip w entry.destip
          pure tt)
        else pure tt

  -- An intermediate node sends the reply on, or parks it if it has no route.
  unfoldable pub forward_rrep : ℕ → Option ℕ → Act (Unit {0})
  forward_rrep src_r_entry (some dest_r_entry) = do
    entry ← deref src_r_entry
    route ← deref dest_r_entry
    send_rrep_packet w f route entry.no_hops false
  forward_rrep src_r_entry none = park w f intf_n self_ip

  unfoldable pub on_rrep : Mac → Option ℕ → Option ℕ → Act (Unit {0})
  on_rrep hop dest src = do
    (src_r_entry, asent_flag) ← learn_source w f intf_n hop src
    if str_eq f.dest_ip self_ip
        then (do frame ← lookup_pending_queue f.src_ip; release src_r_entry frame)
        else forward_rrep src_r_entry dest
