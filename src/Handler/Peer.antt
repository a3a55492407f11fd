-- ===== src/Handler/Peer.antt =====
-- `handle_peer_msg` of assign3/odr_and.c: a message from a local process.
use on_demand_routing.Base.{ℕ, Option, none, some, CStr, str_eq, if◌then◌else◌}
use on_demand_routing.Word.{minus_one}
use on_demand_routing.Frame.{convert_net_host_order, payload_size, type_data}
use on_demand_routing.Odr.{World, MapEntry}
use on_demand_routing.Odr.Outcome.{Act, pure, gets, non_null, or_fail, ◌>>=◌, ◌>>◌}
use on_demand_routing.System.{get_self_ip, get_broadcast_id, get_name_ip}
use on_demand_routing.Ports.{fetch_entry_port, fetch_entry_path}
use on_demand_routing.Routes.{get_r_entry}
use on_demand_routing.Pending.{insert_pending_queue}
use on_demand_routing.Transmit.{
  construct_odr, send_to_peer_process, send_data_message, send_req_broadcast,
}

-- `send_params_t`.
pub record SendParams : Type 0 where
  pub destip : CStr
  pub filename : CStr
  pub msg : CStr
  pub destport : ℕ
  pub route_disc_flag : ℕ

module _ (w : World) where
  -- The destination is this node: the message goes to the process on its port.
  unfoldable pub deliver_here : CStr → MapEntry → SendParams → Act (Unit {0})
  deliver_here self_ip map_entry sparams = do
    ports ← gets λ s. s.ports
    peer_entry ← non_null (fetch_entry_port ports sparams.destport)
    send_to_peer_process w peer_entry.sun_path self_ip map_entry.portno sparams.msg

  -- No route: ask for one, and park the message. The arguments of `construct_odr` are in the order
  -- of the call, which passes the new broadcast id for the hop count.
  unfoldable pub discover : CStr → MapEntry → SendParams → Act (Unit {0})
  discover self_ip map_entry sparams = do
    broad_id ← get_broadcast_id
    send_req_broadcast w minus_one broad_id map_entry.portno sparams.destport 0
        sparams.route_disc_flag sparams.destip self_ip sparams.msg 0
    next_id ← get_broadcast_id
    odrframe ←
        construct_odr type_data 0 next_id payload_size 0 map_entry.portno sparams.destport
          sparams.destip self_ip sparams.msg
    insert_pending_queue (convert_net_host_order odrframe) sparams.destip
    get_name_ip w sparams.destip
    pure tt

  -- What `handle_peer_msg` does with the outcome of `get_r_entry`.
  unfoldable pub send_or_discover : CStr → MapEntry → SendParams → Option ℕ → Act (Unit {0})
  send_or_discover self_ip map_entry sparams none = discover self_ip map_entry sparams
  send_or_discover self_ip map_entry sparams (some route) = do
    get_name_ip w sparams.destip
    entry ← gets λ s. s.routes.entry route
    send_data_message w map_entry.portno sparams.route_disc_flag sparams.destport sparams.destip
        sparams.msg entry

  -- `done` stands for the code's 1, which is all that its caller can see beside -1.
  unfoldable pub handle_peer_msg : SendParams → Act (Unit {0})
  handle_peer_msg sparams = do
    self_ip ← or_fail (get_self_ip w.interfaces)
    map_entry ← (do or_fail (← fetch_entry_path w sparams.filename))
    get_name_ip w self_ip
    get_name_ip w sparams.destip
    if str_eq self_ip sparams.destip then deliver_here self_ip map_entry sparams else (do
      route ← get_r_entry w sparams.destip sparams.route_disc_flag
      send_or_discover self_ip map_entry sparams route)
