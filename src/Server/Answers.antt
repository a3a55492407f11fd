-- ===== src/Server/Answers.antt =====
-- What the daemon reads of the server's answer.
use on_demand_routing.Base.{ℕ, refl, ◌<◌, ◌^◌, ◌≡◌, true, CStr, fits, refl}
use on_demand_routing.Frame.{payload_size}
use on_demand_routing.Handler.Peer.{SendParams}
use on_demand_routing.Transmit.{peer_text}
use on_demand_routing.Message.{maxline, ip_len}
use on_demand_routing.Message.Fields.{IsField}
use on_demand_routing.Message.RoundTrip.{IsText}
use on_demand_routing.Server.{time_text, unix_serv_path}

-- A request that reaches the server, and the time then.
pub record Asked : Type 0 where
  pub cli_ip : CStr
  pub cli_port : ℕ
  pub payload : CStr
  pub ctime : CStr

pub record IsAsked (r : Asked) : Type 0 where
  pub cli_ip : IsText ip_len r.cli_ip
  pub cli_port : r.cli_port < 10 ^ 9
  pub payload : IsField r.payload
  pub payload_fits : fits maxline r.payload ≡ true
  pub ctime : IsText payload_size (time_text r.ctime)

-- The datagram that the daemon makes of it, and the answer as the daemon reads it.
abbrev pub arriving : Asked → CStr × CStr
arriving r = (peer_text r.cli_ip r.cli_port r.payload, r.ctime)

abbrev pub told : Asked → SendParams
told r = record {
  destip = r.cli_ip;
  filename = unix_serv_path;
  msg = time_text r.ctime;
  destport = r.cli_port;
  route_disc_flag = 0;
}
