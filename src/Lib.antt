-- ===== src/Lib.antt =====
-- On-demand routing: the routing daemon of the repository (assign3/odr_and.c and
-- assign3/odr_functions.c, with assign3/utils.c and assign3/odr.h), as functions on its state.
--
-- One daemon runs on each node. Local processes (client_and.c, server_and.c) send it datagrams
-- over a Unix socket; it routes their messages over raw Ethernet frames of four kinds: RREQ asks
-- for a route and is flooded, RREP answers along the way back, DATA carries a message, ASENT tells
-- that a request has been answered already. Every received frame teaches the way back to its
-- source. A message for which there is no route waits in the pending queue until an RREP arrives.
--
-- Conventions. A function of the daemon that changes state is an action (Odr/Outcome): it takes
-- the state `Odr` and returns (`done`), returns -1 (`failed`), or stops the process (`crashed`: a
-- failed assertion, a null pointer, or a string copied into an array that is too small). A C `int`
-- is a bit pattern below 2 ^ 32 (Word); comparisons read it in two's complement and the counters
-- wrap. A C string is the list of its bytes before the NUL (Base/Text); `fits n` says that it and
-- its NUL have room in n bytes. What the system answers is the record `World`: the clock, whether
-- the n-th `sendto` succeeds, the names of addresses, and the interfaces. Everything sent is
-- recorded in `sent`, newest first. `IsHealthy` of a world says that the node finds its own
-- address, that every address has a name that fits, and that no `sendto` fails.
--
-- Files and code:
-- - Word, Word/Order, Word/Swap: `int` of C, its signed order, and htonl and ntohl.
-- - Frame: odr_frame_t of assign3/odr.h; convert_net_host_order and convert_host_net_order of
--   assign3/odr_functions.c. Frame/Conversion: both in turn.
-- - Odr: the globals of assign3/odr.h and the static counters as one record. Odr/Ensures,
--   Odr/Keeps: what holds however an action ends, and actions that keep a relation.
-- - System: what the daemon asks of the system; get_self_ip, get_hwaddr_from_int, convert_to_mac,
--   get_broadcast_id and get_name_ip of assign3/utils.c.
-- - Ports: the map of ports to paths: insert_map_port_sp of assign3/odr_functions.c,
--   fetch_entry_port, fetch_entry_path, get_next_portno and get_file_name of assign3/odr_and.c.
-- - Routes: the routing table of assign3/odr_functions.c: get_r_entry, check_r_entry,
--   insert_r_entry, update_r_entry, is_broadid_greater, remove_r_entry. An entry stands at an
--   address and keeps its contents when it is unlinked, since the code never frees one.
-- - Pending: insert_pending_queue and lookup_pending_queue of assign3/odr_functions.c.
--   Pending/Waiting: the same queue seen as one stack of frames for each destination.
-- - Routes/Found: the entry that get_r_entry gives while nothing is stale.
-- - Links, Links/Chains, Links/Removal, Links/Search, Links/Queue: the `next` and `prev` pointers
--   of the routing table and of the pending queue, and the lists that they make. Routes and
--   Pending work on those lists.
-- - Decimal, Decimal/Numbers: `%d` of sprintf, and atoi.
-- - Message: get_send_params of assign3/odr_and.c, msg_send and msg_recv of assign3/utils.c.
--   Message/Fields, Message/RoundTrip: the readers on the writers' texts.
-- - Wire: the bytes of the Ethernet frame of send_raw_frame, and process_recvd_frame, of
--   assign3/odr_functions.c. The other modules pass frames as records, in network order: `raw` is
--   a frame sent, and handle_ethernet_msg takes the frame that stands behind the header.
--   Wire/Memory: strings and arrays in those bytes. Wire/RoundTrip, Wire/Received: frames sent and
--   read again, and frames read from any bytes.
-- - Transmit: construct_odr, send_raw_frame, send_to_peer_process, process_data_message,
--   send_data_message, send_rrep_packet and send_req_broadcast of assign3/odr_functions.c.
-- - Handler/Ether and its children: handle_ethernet_msg of assign3/odr_and.c, a module for each
--   case of its switch. Handler/Learn: what the cases share. Handler/Peer: handle_peer_msg.
--   Handler/Requests, Handler/Discovery, Handler/Forwarding: the cases on a healthy node.
--   Handler/Relay: a whole frame that such a node passes on. Handler/Unknown: a whole frame whose
--   addresses are not in its table.
--   Handler/Knowing, Handler/Invariant, Handler/SameRoutes: what the handlers do to the routing
--   table. Handler/Serving, Handler/Progress, Handler/Total, Handler/PeerTotal: the states in
--   which a healthy node can handle every well-formed message, and the handlers in them.
-- - Daemon: main of assign3/odr_and.c, its loop over the list of what `select` reports.
--   Daemon/Safety, Daemon/Progress: whole runs of it.
-- - Interfaces: get_hw_addrs, Get_hw_struct_head and get_self_ip of assign3/utils.c, with the
--   static variables, on what ioctl replies. The daemon's functions take the list as a parameter
--   of its world. Interfaces/Growing: the loop that tries longer buffers. Interfaces/Listed,
--   Interfaces/Aliases, Interfaces/Cached, Interfaces/Addresses: the list, the alias marks, the
--   variables, the texts. Interfaces/Freeing: free_hwa_info.
-- - Hosts, Hosts/Resolved: get_canonical_ip and construct_name_to_ip_table of assign3/utils.c.
-- - Client, Client/Requests: main of assign3/client_and.c. Server, Server/Answers: main of
--   assign3/server_and.c. Message/Room: when the text of a message fits.
-- - Network: nodes that each run the daemon, with frames between them that are delivered in any
--   order or lost. Network/Node, Network/Tables, Network/Reaction: what handle_ethernet_msg does
--   on one node with a request that is flooded. Network/Totals, Network/Spread, Network/Measures,
--   Network/Flood, Network/Settling, Network/Ending: the network, step by step. Network/Covering,
--   Network/Covered, Network/Reaching, Network/Coverage: which nodes a flood reaches.
--   Network/Upstream, Network/Backed, Network/WayBack: where the routes that it leaves lead.
--   Network/Relays, Network/Handing, Network/Returning, Network/Answered, with Handler/Onward: what
--   comes back on those routes. Network/Taught, Network/Outward, Network/WayOut, Network/Release,
--   Network/Journey, Network/Destination, Network/Across: the routes that it leaves in turn, and
--   the message that goes out on them, to a process of the destination. Network/Waiting,
--   Network/Sending, Network/EndToEnd: from the call of handle_peer_msg to that process.
--   Network/Stale, Network/Storm: nodes that are started with a staleness of 0.
--   Network/Messages, Network/Exchange: two neighbours, from a message to its delivery;
--   Handler/Arrival: the frames of that exchange at one node.
-- - Machine, Tests: runs at concrete states, and the theorems at them.
--
-- Bounds. The loops of the code run over its lists, and so do the functions here. `print_int`
-- takes ten digits, which is enough for a number below 2 ^ 32. The loop of `get_r_entry` on
-- pointers (Links/Search), like that of `lookup_pending_queue` (Links/Queue), takes as many rounds
-- as it is given; the list's length is enough. The loop of `main`, which the code leaves only by
-- an error, runs over a list of events of any length. The loop of get_hw_addrs takes as many
-- rounds as it is given, and Interfaces/Listed says how many are enough; free_hwa_info
-- (Interfaces/Freeing) takes as many as its list is long. A network takes any number of steps.
--
-- Not modelled. Printing and the sockets themselves, and the calls of select and recvfrom.
-- assign3/Stevens is a copy of the library of UNIX Network Programming.
pub mod Base
pub mod Word
pub mod Frame
pub mod Odr
pub mod System
pub mod Ports
pub mod Routes
pub mod Pending
pub mod Decimal
pub mod Transmit
pub mod Message
pub mod Wire
pub mod Hosts
pub mod Server
pub mod Client
pub mod Interfaces
pub mod Links
pub mod Handler
pub mod Daemon
pub mod Network
pub mod Machine
pub mod Tests
