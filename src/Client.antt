-- ===== src/Client.antt =====
-- The client: main of assign3/client_and.c, over what its user types and what it receives. `none` is
-- undefined behaviour, as in Message. A `sendto` that fails is only reported by the code; an alarm
-- that goes off before `sigsetjmp` has been called is left out.
pub mod Requests
use on_demand_routing.Base.{
  ℕ, Bool, Option, none, some, List, [], ◌∷◌, ◌++◌, CStr, codes, str_eq, fits, if◌then◌else◌,
}
use on_demand_routing.Message.{msg_recv, msg_send, ip_len, guard, ◌>>=◌, ◌>>◌}
use on_demand_routing.Ports.{serv_port}
use on_demand_routing.Hosts.{get_canonical_ip}

abbrev pub vmname_len : ℕ
vmname_len = 10

-- How `msg_recv` goes on: the datagram that comes before the alarm, or the alarm, and then the
-- datagram that comes after the second request. The alarm is not set again: without that datagram
-- the client waits for ever.
pub data Waited : Type 0 where
  answered : CStr → Waited
  alarmed : Option CStr → Waited

-- One round of the loop: the name that the user types, the addresses that `gethostbyname` gives for
-- it, and what is received.
pub record Round : Type 0 where
  pub serv_vm : CStr
  pub host : Option (List (List ℕ))
  pub waited : Waited

-- The loop was left by "exit", it waits for a datagram, or it is at the next name.
pub data End : Type 0 where
  exited : End
  waiting : End
  prompting : End

-- The datagrams that the client sent, the messages that it printed, and where it is.
pub record Session : Type 0 where
  pub sent : List CStr
  pub printed : List CStr
  pub end : End

module _ (tempfile : CStr) where
  -- `msg_send (cli_sockfd, canon_ip, __SERV_PORT, "hello world", flag, tempfile)`.
  abbrev pub ask : CStr → ℕ → Option CStr
  ask canon_ip flag = msg_send canon_ip serv_port (codes "hello world") flag tempfile

  abbrev pub print_reply : List CStr → CStr → Option Session → Option Session
  print_reply sent buff rest = do
    (_, (_, msg)) ← msg_recv buff
    s ← rest
    some (record { sent = sent ++ s.sent; printed = msg ∷ s.printed; end = s.end })

  -- From the request on; `rest` is the loop afterwards.
  unfoldable pub exchange : CStr → Waited → Option Session → Option Session
  exchange canon_ip (answered buff) rest = do
    first ← ask canon_ip 0
    print_reply (first ∷ []) buff rest
  exchange canon_ip (alarmed (some buff)) rest = do
    first ← ask canon_ip 0
    second ← ask canon_ip 1
    print_reply (first ∷ second ∷ []) buff rest
  exchange canon_ip (alarmed none) rest = do
    first ← ask canon_ip 0
    second ← ask canon_ip 1
    some (record { sent = first ∷ second ∷ []; printed = []; end = waiting })

  -- A host that is not found is reported.
  abbrev pub exchange_with : Option CStr → Waited → Option Session → Option Session
  exchange_with none waited rest = rest
  exchange_with (some canon_ip) waited rest = exchange canon_ip waited rest

  unfoldable pub client : List Round → Option Session
  client [] = some (record { sent = []; printed = []; end = prompting })
  client (r ∷ rounds) =
      let rest = client rounds in
      let found =
        get_canonical_ip ip_len r.host >>= λ canon_ip. exchange_with canon_ip r.waited rest in
      guard (fits vmname_len r.serv_vm)
      >> (if str_eq r.serv_vm (codes "exit")
          then some (record { sent = []; printed = []; end = exited })
          else found)
