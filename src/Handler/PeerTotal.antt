-- ===== src/Handler/PeerTotal.antt =====
-- `handle_peer_msg` on a healthy node.
use on_demand_routing.Base.{
  ℕ, ◌<◌, ◌≡◌, refl, inl, inr, true, false, Option, none, some, List, [], ◌∷◌, CStr, fits, str_eq,
  length, ◌==◌, arith, All, Holds, Bool-cases, ltb→lt,
}
use on_demand_routing.Word.{inc, word_mod}
use on_demand_routing.Frame.{
  convert_net_host_order, convert_host_net_order, inet_addrstrlen, payload_size,
}
use on_demand_routing.Odr.{Odr, World, MapEntry}
use on_demand_routing.Odr.Outcome.{monad}
use on_demand_routing.Odr.Ensures.{Returns, Returns-bind}
use on_demand_routing.System.{gettimeofday}
use on_demand_routing.Ports.{
  serv_port, sun_path_len, is_empty, fetch_entry_port, find_path, get_next_portno, new_entry,
  known_or_new, fetch_entry_path,
}
use on_demand_routing.Routes.{get_r_entry}
use on_demand_routing.Transmit.{send_to_peer_process}
use on_demand_routing.Transmit.Delivery.{IsHealthy, get_name_ip-done, sendto-done}
use on_demand_routing.Handler.Peer.{SendParams, deliver_here, send_or_discover, handle_peer_msg}
use on_demand_routing.Handler.Discovery.{discover-parked, send_or_discover-along}
use on_demand_routing.Handler.Serving.{ArePorts, IsServing, Given, get_r_entry-IsServing}
use on_demand_routing.Handler.Progress.{peer_text-fits}

-- The strings of a message fit, and one for the node itself is for the server.
abbrev pub IsSendable : CStr → SendParams → Type 0
IsSendable self_ip sp =
    (fits inet_addrstrlen sp.destip ≡ true)
    × (fits sun_path_len sp.filename ≡ true)
    × (fits payload_size sp.msg ≡ true)
    × (str_eq self_ip sp.destip ≡ true → sp.destport ≡ serv_port)

not_empty : (portno : ℕ) (ports : List MapEntry) → ArePorts portno ports → is_empty ports ≡ false
unfolding fetch_entry_port
not_empty portno [] ((e, found), _, _) = ground (arith, found)
not_empty portno (e ∷ ports) a = refl

ArePorts-new :
    (portno : ℕ) (ports : List MapEntry) (e : MapEntry)
    → e.portno ≡ portno
    → ArePorts portno ports
    → ArePorts (inc portno) (e ∷ ports)
unfolding fetch_entry_port inc
ArePorts-new portno ports e same (server, small, all) = (
  elim (Bool-cases (e.portno == serv_port)) [
    | inl here ↦ rw here (e, refl)
    | inr there ↦ rw there server
  ],
  omega arith,
  (omega (arith, same, small), all),
)

find_path-Holds :
    (P : MapEntry → Type 0) (ports : List MapEntry) (path : CStr)
    → All P ports
    → Holds P (find_path ports path)
unfolding find_path
find_path-Holds P [] path h = tt
find_path-Holds P (e ∷ ports) path (h, hs) = elim (Bool-cases (str_eq e.sun_path path)) [
  | inl same ↦ rw same h
  | inr other ↦ rw other (find_path-Holds P ports path hs)
]

module _ (w : World) where
  known_or_new-IsServing :
      (path : CStr) (r : Option MapEntry) (s : Odr)
      → fits sun_path_len path ≡ true
      → Holds (λ e. e.portno < word_mod) r
      → IsServing w s
      → Returns (λ e t. (e.portno < word_mod) × IsServing w t) (known_or_new w path r s)
  unfolding known_or_new get_next_portno new_entry gettimeofday fetch_entry_port monad
  known_or_new-IsServing path (some e) s room small v = (small, v)
  known_or_new-IsServing path none s room small v =
      rw room (v.3.1, (v.0, v.1, v.2, ArePorts-new s.portno s.ports _ refl v.3))

  fetch_entry_path-IsServing :
      (path : CStr) (s : Odr)
      → fits sun_path_len path ≡ true
      → IsServing w s
      → Returns
          (λ r t. (e : MapEntry) × (r ≡ some e) × (e.portno < word_mod) × IsServing w t)
          (fetch_entry_path w path s)
  unfolding fetch_entry_path monad
  fetch_entry_path-IsServing path s room v = rw (not_empty s.portno s.ports v.3) (
      Returns-bind (λ e t. (e.portno < word_mod) × IsServing w t)
        (λ r t. (e : MapEntry) × (r ≡ some e) × (e.portno < word_mod) × IsServing w t) _ _
        (known_or_new-IsServing path (find_path s.ports path) s room
          (find_path-Holds (λ e. e.portno < word_mod) s.ports path v.3.2) v)
        λ e t (small, vt). (e, refl, small, vt))

  module _ (self_ip : CStr) (h : IsHealthy w self_ip) (own : fits inet_addrstrlen self_ip ≡ true)
      (sp : SendParams) (ok : IsSendable self_ip sp) (e : MapEntry)
      (small : e.portno < word_mod) where
    deliver_here-IsServing :
        (s : Odr)
        → str_eq self_ip sp.destip ≡ true
        → IsServing w s
        → Returns (λ _ t. IsServing w t) (deliver_here w self_ip e sp s)
    unfolding deliver_here send_to_peer_process monad
    deliver_here-IsServing s here v =
        let (server, found) = v.3.0 in
        rw
          (
            ok.3 here,
            found,
            peer_text-fits self_ip e.portno sp.msg own small (ltb→lt (length sp.msg) _ ok.2),
            sendto-done w self_ip h _ s,
          )
          v

    send_or_discover-IsServing :
        (r : Option ℕ) (s : Odr)
        → Given w s r
        → IsServing w s
        → Returns (λ _ t. IsServing w t) (send_or_discover w self_ip e sp r s)
    unfolding send_or_discover convert_net_host_order convert_host_net_order
    send_or_discover-IsServing none s g v =
        rw (discover-parked w self_ip h e sp s own ok.0 ok.2) (v.0, v.1, ((own, ok.0), v.2), v.3)
    send_or_discover-IsServing (some p) s lt v =
        let (mac, linked) = v.1 p lt in
        rw (send_or_discover-along w self_ip h e sp p mac s own ok.0 ok.2 linked) v

  -- A message that can be sent is always handled, and the next one can be served.
  pub handle_peer_msg-IsServing :
      (self_ip : CStr) (h : IsHealthy w self_ip)
      → fits inet_addrstrlen self_ip ≡ true
      → (sp : SendParams) (s : Odr) → IsSendable self_ip sp
      → IsServing w s
      → Returns (λ _ t. IsServing w t) (handle_peer_msg w sp s)
  unfolding handle_peer_msg monad
  handle_peer_msg-IsServing self_ip h own sp s ok v = rw h.own (
      Returns-bind (λ e t. (e.portno < word_mod) × IsServing w t) _ _ _
        (Returns-bind _ (λ e t. (e.portno < word_mod) × IsServing w t)
          (fetch_entry_path w sp.filename s) _ (fetch_entry_path-IsServing sp.filename s ok.1 v)
          λ r t (e, found, small, vt). rw found (small, vt))
        λ e t (small, vt).
          rw (get_name_ip-done w self_ip h self_ip t, get_name_ip-done w self_ip h sp.destip t)
            (elim (Bool-cases (str_eq self_ip sp.destip)) [
              | inl here ↦ rw here (deliver_here-IsServing self_ip h own sp ok e small t here vt)
              | inr away ↦ rw away (
                  Returns-bind _ _ (get_r_entry w sp.destip sp.route_disc_flag t) _
                    (get_r_entry-IsServing w sp.destip sp.route_disc_flag t vt)
                    λ r u (g, vu, _).
                      send_or_discover-IsServing self_ip h own sp ok e small r u g vu)
            ]))
