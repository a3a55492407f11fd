-- ===== src/Daemon.antt =====
-- `main` of assign3/odr_and.c: the daemon's start, and its loop over what `select` reports.
pub mod Safety
pub mod Progress
use on_demand_routing.Base.{ℕ, Bool, Option, none, some, List, [], ◌∷◌, CStr, codes, if◌then◌else◌}
use on_demand_routing.Word.{slt}
use on_demand_routing.Frame.{Frame}
use on_demand_routing.Odr.{Odr, World, Mac}
use on_demand_routing.Odr.Outcome.{
  Outcome, Act, pure, fail, gets, modify, or_fail, non_null, ◌>>=◌, ◌>>◌,
}
use on_demand_routing.Ports.{serv_port, fetch_entry_port, insert_map_port_sp}
use on_demand_routing.Routes.{empty_table}
use on_demand_routing.Handler.Ether.{handle_ethernet_msg}
use on_demand_routing.Handler.Peer.{handle_peer_msg}
use on_demand_routing.Decimal.{atoi}
use on_demand_routing.Message.{Memory, get_send_params}

-- The first value of the counter in `get_next_portno`.
abbrev pub first_portno : ℕ
first_portno = 909

-- The globals before `main` runs.
abbrev pub boot : Odr
boot = record {
  ports = [];
  routes = empty_table;
  pending = [];
  broadcast_id = 10;
  portno = first_portno;
  stale_param = 0;
  clock_reads = 0;
  sends = 0;
  sent = [];
}

-- The staleness that `main` sets: 5 with no argument, else what `atoi` reads.
abbrev pub staleness : Option CStr → Option ℕ
staleness none = some 5
staleness (some argument) = atoi argument

-- A datagram from a local process, with the memory that `malloc` gives for its params; or a frame
-- with the interface and the node that it came from.
pub data Event : Type 0 where
  peer : Memory → CStr → Event
  ether : Frame → ℕ → Mac → Event

module _ (w : World) where
  -- A negative staleness ends the program.
  unfoldable pub initialize : Option CStr → Act (Unit {0})
  initialize argument = do
    insert_map_port_sp w serv_port (codes "servpathfile")
    ports ← gets λ s. s.ports
    or_fail (fetch_entry_port ports serv_port)
    stale ← non_null (staleness argument)
    modify λ s. record s { stale_param = stale }
    if slt stale 0 then fail else pure tt

  unfoldable pub handle : Event → Act (Unit {0})
  handle (peer memory buff) = do
    sparams ← non_null (get_send_params memory buff)
    handle_peer_msg w sparams
  handle (ether recv_buf intf_n hop) = handle_ethernet_msg w recv_buf intf_n hop

  -- The loop, over the events that arrive: it ends when a handler returns -1.
  unfoldable pub serve : List Event → Act (Unit {0})
  serve [] = pure tt
  serve (e ∷ es) = do handle e; serve es

  -- The program, from its start.
  unfoldable pub main : Option CStr → List Event → Outcome (Unit {0})
  main argument events = (do initialize argument; serve events) boot
