-- ===== src/Tests/Programs.antt =====
-- The client, the server and the host table at concrete inputs.
use on_demand_routing.Base.{
  ℕ, ◌≡◌, refl, Option, none, some, List, [], ◌∷◌, CStr, codes, str_eq, arith, if◌then◌else◌,
  Bool-cases, inl, inr,
}
use on_demand_routing.Transmit.{peer_text}
use on_demand_routing.Machine.{machine}
use on_demand_routing.Message.{get_send_params}
use on_demand_routing.Message.RoundTrip.{zeroed}
use on_demand_routing.Interfaces.{inet_ntop}
use on_demand_routing.Hosts.{construct_name_to_ip_table}
use on_demand_routing.Hosts.Resolved.{Answers, construct_name_to_ip_table-hosts_of}
use on_demand_routing.Server.Answers.{Asked}
use on_demand_routing.Ports.{serv_port}
use on_demand_routing.Client.{Waited, answered, alarmed, Round, Session, waiting, exited, client}
use on_demand_routing.Client.Requests.{asked_for, client_requests}
use on_demand_routing.Tests.Node.{alice, carol}

abbrev noon : CStr
noon = codes "Thu Nov 26 12:00:00 2026"

abbrev asked_twice : List Asked
asked_twice =
    record { cli_ip = alice; cli_port = 909; payload = codes "hello world"; ctime = noon }
    ∷ record { cli_ip = carol; cli_port = 910; payload = codes "hello world"; ctime = noon }
    ∷ []

abbrev address : List ℕ
address = 10 ∷ 0 ∷ 0 ∷ 3 ∷ []

abbrev leave : Round
leave = record { serv_vm = codes "exit"; host = none; waited = alarmed none }

abbrev left : Session
left = record { sent = []; printed = []; end = exited }

abbrev round_with : Waited → Round
round_with waited = record { serv_vm = codes "vm3"; host = some (address ∷ []); waited = waited }

left_at_exit : client (codes "/tmp/a") (leave ∷ []) ≡ some left
unfolding client str_eq
left_at_exit = refl

client_requests_example :
    (first second : CStr) × (get_send_params zeroed first
      ≡ some (asked_for (codes "/tmp/a") (inet_ntop address) 0))
    × (get_send_params zeroed second ≡ some (asked_for (codes "/tmp/a") (inet_ntop address) 1))
    × (client (codes "/tmp/a") (round_with (answered (peer_text carol serv_port noon)) ∷ leave ∷ [])
        ≡ some (record { sent = first ∷ []; printed = noon ∷ []; end = exited }))
    × (client
          (codes "/tmp/a")
          (round_with (alarmed (some (peer_text carol serv_port noon))) ∷ leave ∷ [])
        ≡ some (record { sent = first ∷ second ∷ []; printed = noon ∷ []; end = exited }))
    × (client (codes "/tmp/a") (round_with (alarmed none) ∷ leave ∷ [])
        ≡ some (record { sent = first ∷ second ∷ []; printed = []; end = waiting }))
unfolding machine
client_requests_example =
    client_requests (codes "/tmp/a") (ground arith) (codes "vm3") address [] refl refl (omega arith)
      carol noon (ground arith) refl (ground arith) refl (leave ∷ []) left left_at_exit

-- Only one host has a name.
abbrev resolver : CStr → Option (List (List ℕ))
resolver name = if str_eq name (codes "vm3") then some (address ∷ []) else none

resolver-Answers : (name : CStr) → Answers (resolver name)
resolver-Answers name = elim (Bool-cases (str_eq name (codes "vm3"))) [
  | inl third ↦ rw third (omega arith)
  | inr other ↦ rw other tt
]

construct_name_to_ip_table-hosts_of_example :
    construct_name_to_ip_table resolver
    ≡ some (record { name = codes "vm3"; ip = inet_ntop address } ∷ [])
unfolding str_eq
construct_name_to_ip_table-hosts_of_example =
    construct_name_to_ip_table-hosts_of resolver resolver-Answers
