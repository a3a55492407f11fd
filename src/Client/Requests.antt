-- ===== src/Client/Requests.antt =====
-- What the daemon reads of the client's requests, and what the client prints.
use on_demand_routing.Base.{
  ℕ, ◌<◌, ◌≡◌, refl, subst, true, false, Option, some, none, List, [], ◌∷◌, CStr, codes, str_eq,
  fits, lt→ltb, arith,
}
use on_demand_routing.Word.{word_mod}
use on_demand_routing.Handler.Peer.{SendParams}
use on_demand_routing.Transmit.{peer_text}
use on_demand_routing.Interfaces.{inet_ntop}
use on_demand_routing.Interfaces.Addresses.{IsAddress, inet_ntop-IsText}
use on_demand_routing.Hosts.{get_canonical_ip}
use on_demand_routing.Message.{maxline, ip_len, message_text, get_send_params, msg_send, ◌>>=◌}
use on_demand_routing.Message.Fields.{IsField}
use on_demand_routing.Message.Room.{message_text-fits}
use on_demand_routing.Message.RoundTrip.{IsText, zeroed, get_send_params-zeroed, msg_recv-peer_text}
use on_demand_routing.Ports.{serv_port}
use on_demand_routing.Client.{
  vmname_len, Waited, answered, alarmed, Round, waiting, Session, ask, client, exchange,
}

-- The request as the daemon reads it.
abbrev pub asked_for : CStr → CStr → ℕ → SendParams
asked_for tempfile canon_ip flag = record {
  destip = canon_ip;
  filename = tempfile;
  msg = codes "hello world";
  destport = serv_port;
  route_disc_flag = flag;
}

module _ (tempfile : CStr) (named : IsText 100 tempfile) where
  ask-get_send_params :
      (canon_ip : CStr) (flag : ℕ)
      → IsText ip_len canon_ip
      → flag < word_mod
      → (text : CStr) × (ask tempfile canon_ip flag ≡ some text)
        × (get_send_params zeroed text ≡ some (asked_for tempfile canon_ip flag))
  unfolding msg_send
  ask-get_send_params canon_ip flag ip f =
      let hello = codes "hello world" in
      let room =
        message_text-fits canon_ip hello tempfile serv_port flag (omega arith) f
          (omega (arith, ip.3, named.3)) in
      let text = message_text canon_ip serv_port hello tempfile flag in
      let sent : ask tempfile canon_ip flag ≡ some text = rw room refl in
      (
        text,
        sent,
        subst (λ o. (o >>= get_send_params zeroed) ≡ some (asked_for tempfile canon_ip flag)) sent
            (get_send_params-zeroed canon_ip hello tempfile serv_port flag (omega arith) f
              (ip.0, ip.1, ip.2, omega (arith, ip.3)) (ground arith)
              (named.0, named.1, named.2, omega (arith, named.3)) room),
      )

  module _ (serv_vm : CStr) (addr : List ℕ) (addrs : List (List ℕ))
      (short : fits vmname_len serv_vm ≡ true) (stays : str_eq serv_vm (codes "exit") ≡ false)
      (is_addr : IsAddress addr) (from text : CStr) (from_ip : IsField from)
      (from_fits : fits ip_len from ≡ true) (is_text : IsField text)
      (text_fits : fits maxline text ≡ true) (rounds : List Round) (rest : Session)
      (later : client tempfile rounds ≡ some rest) where
    abbrev canon_ip : CStr
    canon_ip = inet_ntop addr

    abbrev client_with : Waited → Option Session
    client_with waited =
        client tempfile
          (record { serv_vm = serv_vm; host = some (addr ∷ addrs); waited = waited } ∷ rounds)

    abbrev Reads : CStr → ℕ → Type 0
    Reads sent flag = get_send_params zeroed sent ≡ some (asked_for tempfile canon_ip flag)

    -- Take a round of the client with a name that fits and is not "exit", whose first address has
    -- four bytes, with a temporary file whose name is one field shorter than 100, and with replies
    -- whose address and text are fields that fit. The client sends a request that the daemon, with
    -- zeroed memory for the params, reads as "hello world" for port 5500 of that address without
    -- route discovery; if the alarm comes first, it sends another that differs by the flag for
    -- route discovery alone. Whether the reply comes before or after the alarm, its text is
    -- printed and the loop goes on; without a reply after the second request, nothing is printed
    -- and the client waits for ever.
    pub client_requests :
        (first second : CStr) × Reads first 0
        × Reads second 1
        × (client_with (answered (peer_text from serv_port text))
            ≡ some (record {
              sent = first ∷ rest.sent;
              printed = text ∷ rest.printed;
              end = rest.end;
            }))
        × (client_with (alarmed (some (peer_text from serv_port text)))
            ≡ some (record {
              sent = first ∷ second ∷ rest.sent;
              printed = text ∷ rest.printed;
              end = rest.end;
            }))
        × (client_with (alarmed none)
            ≡ some (record { sent = first ∷ second ∷ []; printed = []; end = waiting }))
    unfolding client exchange get_canonical_ip
    client_requests =
        let ip = inet_ntop-IsText addr ip_len is_addr (omega arith) (omega arith) in
        let (first, e_1, r_1) = ask-get_send_params canon_ip 0 ip (omega arith) in
        let (second, e_2, r_2) = ask-get_send_params canon_ip 1 ip (omega arith) in
        let fit : fits ip_len canon_ip ≡ true = lt→ltb _ _ ip.3 in
        let got =
          msg_recv-peer_text from text serv_port from_ip is_text from_fits text_fits
            (omega arith) in
        (
          first,
          second,
          r_1,
          r_2,
          rw (short, stays, fit, e_1, got, later) refl,
          rw (short, stays, fit, e_1, e_2, got, later) refl,
          rw (short, stays, fit, e_1, e_2) refl,
        )
