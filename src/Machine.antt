-- ===== src/Machine.antt =====
-- To run the daemon in a test, unfold the one name `machine`.
use on_demand_routing.Base.{str_eq}
use on_demand_routing.Word.{rank, inc}
use on_demand_routing.Word.Swap.{htonl, ntohl}
use on_demand_routing.Frame.{convert_net_host_order, convert_host_net_order}
use on_demand_routing.Decimal.{
  digits, print_int, skip_space, read_digits, positive, negative, signed, atoi,
}
use on_demand_routing.Odr.Outcome.{monad}
use on_demand_routing.System.{
  before_colon, get_self_ip, get_hwaddr_from_int, convert_to_mac, get_broadcast_id, gettimeofday,
  get_name_ip, sendto,
}
use on_demand_routing.Ports.{
  get_next_portno, fetch_entry_port, find_path, new_entry, insert_map_port_sp, known_or_new,
  fetch_entry_path,
}
use on_demand_routing.Routes.{
  store, allocate, learned, is_better, is_expired, scan, is_broadid_greater, link_first,
  update_r_entry, insert_r_entry, check_r_entry, get_r_entry,
}
use on_demand_routing.Pending.{take_first, lookup_pending_queue, insert_pending_queue}
use on_demand_routing.Transmit.{
  construct_odr, is_flooded, peer_text, send_raw_frame, send_to_peer_process, process_data_message,
  send_data_message, send_rrep_packet, flood_one, flood, send_req_broadcast,
}
use on_demand_routing.Handler.Learn.{learn_source, pass_on, park}
use on_demand_routing.Handler.Ether.{dispatch, handle_frame, handle_ethernet_msg}
use on_demand_routing.Handler.Ether.Rreq.{reply, answer, on_rreq}
use on_demand_routing.Handler.Ether.Rrep.{release, forward_rrep, on_rrep}
use on_demand_routing.Handler.Ether.Payload.{forward_data, on_data}
use on_demand_routing.Handler.Ether.Asent.{on_asent}
use on_demand_routing.Handler.Peer.{deliver_here, discover, send_or_discover, handle_peer_msg}
use on_demand_routing.Message.{
  until, field, comma, word, string_in, copied, get_send_params, msg_send, msg_recv,
}
use on_demand_routing.Daemon.{initialize, handle, serve, main}

unfoldable pub machine : Unit {0}
unfolding str_eq rank inc htonl ntohl convert_net_host_order convert_host_net_order digits print_int
    skip_space read_digits positive negative signed atoi until field comma word string_in copied
    get_send_params msg_send msg_recv monad before_colon get_self_ip get_hwaddr_from_int
    convert_to_mac get_broadcast_id gettimeofday get_name_ip sendto get_next_portno fetch_entry_port
    find_path new_entry insert_map_port_sp known_or_new fetch_entry_path store allocate learned
    is_better is_expired scan is_broadid_greater link_first update_r_entry insert_r_entry
    check_r_entry get_r_entry take_first lookup_pending_queue insert_pending_queue construct_odr
    is_flooded peer_text send_raw_frame send_to_peer_process process_data_message send_data_message
    send_rrep_packet flood_one flood send_req_broadcast learn_source pass_on park dispatch
    handle_frame handle_ethernet_msg reply answer on_rreq release forward_rrep on_rrep forward_data
    on_data on_asent deliver_here discover send_or_discover handle_peer_msg initialize handle serve
    main
machine = tt
