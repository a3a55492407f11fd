-- ===== src/Handler/Ether/Payload.antt =====
-- The case `__DATA` of `handle_ethernet_msg` in assign3/odr_and.c.
use on_demand_routing.Base.{ℕ, Option, none, some, CStr, str_eq, if◌then◌else◌}
use on_demand_routing.Frame.{Frame, convert_host_net_order}
use on_demand_routing.Odr.{World, Mac}
use on_demand_routing.Odr.Outcome.{Act, pure, or_fail, attempt, ◌>>=◌, ◌>>◌}
use on_demand_routing.System.{get_hwaddr_from_int, get_name_ip}
use on_demand_routing.Transmit.{process_data_message, send_raw_frame}
use on_demand_routing.Handler.Learn.{deref, learn_source, park}

module _ (w : World) (self_ip : CStr) (f : Frame) (intf_n : ℕ) where
  -- An intermediate node sends the data on, with its own distance to the source as hop count, or
  -- parks it if it has no route.
  unfoldable pub forward_data : ℕ → Option ℕ → Act (Unit {0})
  forward_data src_r_entry (some dest_r_entry) = do
    entry ← deref src_r_entry
    route ← deref dest_r_entry
    src_mac ← or_fail (get_hwaddr_from_int w.interfaces route.if_no)
    send_raw_frame w (some src_mac) route.next_hop route.if_no
        (convert_host_net_order (record f { hop_count = entry.no_hops }))
    get_name_ip w route.destip
    pure tt
  forward_data src_r_entry none = park w f intf_n self_ip

  unfoldable pub on_data : Mac → Option ℕ → Option ℕ → Act (Unit {0})
  on_data hop dest src = do
    (src_r_entry, asent_flag) ← learn_source w f intf_n hop src
    if str_eq f.dest_ip self_ip
        then attempt (process_data_message w f)
        else forward_data src_r_entry dest
