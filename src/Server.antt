-- ===== src/Server.antt =====
-- The time server: main of assign3/server_and.c, over the datagrams that it receives. `none` is
-- undefined behaviour, as in Message.
pub mod Answers
use on_demand_routing.Base.{ℕ, Option, none, some, List, [], ◌∷◌, ◌++◌, CStr, codes, take, fits}
use on_demand_routing.Message.{msg_recv, msg_send, maxline, guard, ◌>>=◌, ◌>>◌}

-- `__UNIX_SERV_PATH`.
abbrev pub unix_serv_path : CStr
unix_serv_path = codes "servpathfile"

-- "%.24s\r\n" of what `ctime` gives.
abbrev pub time_text : CStr → CStr
time_text ctime = take 24 ctime ++ (13 ∷ 10 ∷ [])

-- The datagram for the daemon that answers one from it.
unfoldable pub answer_with : CStr → CStr → Option CStr
answer_with ctime buff = do
  (cli_ip, (cli_port, _)) ← msg_recv buff
  msg_send cli_ip cli_port (time_text ctime) 0 unix_serv_path

-- The loop, over what arrives and the time then.
unfoldable pub server : List (CStr × CStr) → Option (List CStr)
server [] = some []
server ((buff, ctime) ∷ more) = do
  sent ← answer_with ctime buff
  rest ← server more
  some (sent ∷ rest)
