-- ===== src/Network/Exchange.antt =====
-- Two neighbours, from a message of a process on one to its delivery on the other: request, reply
-- and data, as handle_peer_msg and handle_ethernet_msg of assign3/odr_and.c exchange them.
use on_demand_routing.Base.{
  ℕ, ◌+◌, ◌<◌, ◌≡◌, refl, ◌∙◌, true, false, none, some, ◌∷◌, CStr, str_eq, str_eq_refl, ==_refl,
  arith,
}
use on_demand_routing.Word.{IsWord, inc, minus_one}
use on_demand_routing.Frame.{Frame, convert_net_host_order, convert_host_net_order}
use on_demand_routing.Frame.Conversion.{convert_net_host_order-convert_host_net_order}
use on_demand_routing.Odr.{Odr, World, Mac, MapEntry, raw, local}
use on_demand_routing.Odr.Outcome.{done, monad}
use on_demand_routing.System.{convert_to_mac}
use on_demand_routing.Ports.{fetch_entry_port, fetch_entry_path}
use on_demand_routing.Routes.{is_nil, learned, store, allocate, link_first}
use on_demand_routing.Routes.Learning.{inserted, learnt}
use on_demand_routing.Transmit.{peer_text}
use on_demand_routing.Transmit.Delivery.{copies, onto, transmitted_all, get_name_ip-done}
use on_demand_routing.Transmit.Replies.{counted, along}
use on_demand_routing.Handler.Peer.{SendParams, send_or_discover, handle_peer_msg}
use on_demand_routing.Handler.Ether.{dispatch, handle_ethernet_msg}
use on_demand_routing.Handler.Requests.{answer_to, destination_replies}
use on_demand_routing.Handler.Discovery.{request_for, parked_for, parked, discover-parked}
use on_demand_routing.Handler.Forwarding.{reply_releases}
use on_demand_routing.Network.Messages.{
  IsStation, IsMessage, nil-All, request-IsFrame, reply-IsFrame, parked-IsFrame,
}
use on_demand_routing.Handler.Arrival.{get_r_entry_empty, empty_dispatches, data_arrives}

module _ (here there : World) (ip : CStr) (sp : SendParams) (intf_here intf_there : ℕ)
    (mac_here mac_there : Mac) (a : IsStation here ip intf_here mac_here)
    (b : IsStation there sp.destip intf_there mac_there) (m : IsMessage sp)
    (apart : str_eq ip sp.destip ≡ false) (client : MapEntry) (port : IsWord client.portno)
    (start : Odr) where
  abbrev pub first_request : Frame
  first_request = request_for (inc start.broadcast_id) client.portno ip sp

  abbrev pub waiting_data : Frame
  waiting_data = parked_for (inc (inc start.broadcast_id)) client.portno ip sp

  waiting : convert_net_host_order (convert_host_net_order waiting_data) ≡ waiting_data
  waiting = convert_net_host_order-convert_host_net_order waiting_data (
      parked-IsFrame (inc start.broadcast_id) client.portno ip sp port m.destport m.msg
        a.address_fits b.address_fits)

  -- The sender has asked for a route, and keeps the message.
  abbrev pub asked : Odr
  asked = parked sp.destip waiting_data (
      counted (
        transmitted_all (copies minus_one (convert_host_net_order first_request) here.interfaces)
          (counted start)))

  -- From the state `before`, in which the daemon finds or makes the entry of the client.
  asks :
      (before : Odr)
      → fetch_entry_path here sp.filename before ≡ done (some client) start
      → is_nil start.routes.order ≡ true
      → handle_peer_msg here sp before ≡ done tt asked
  unfolding handle_peer_msg send_or_discover monad
  asks before fetches empty =
      rw
        (
          a.healthy.own,
          fetches,
          get_name_ip-done here ip a.healthy ip start,
          get_name_ip-done here ip a.healthy sp.destip start,
          apart,
          get_r_entry_empty here sp.destip sp.route_disc_flag start empty,
          discover-parked here ip a.healthy client sp start a.address_fits b.address_fits m.msg,
          waiting,
        )
        refl

  module _ (other : Odr) (none_there : is_nil other.routes.order ≡ true) (hop_here : Mac) where
    abbrev pub reply_frame : Frame
    reply_frame = answer_to first_request (inc other.broadcast_id) 0

    -- The other node has learned the way back, and replied.
    abbrev pub replied : Odr
    replied =
        along mac_there (learned first_request intf_there hop_here (there.clock other.clock_reads))
          reply_frame
          (counted (
            learnt
              (inserted first_request intf_there hop_here (there.clock other.clock_reads)
                other.routes)
              other))

    replies :
        handle_ethernet_msg there (convert_host_net_order first_request) intf_there hop_here other
        ≡ done tt replied
    unfolding dispatch
    replies =
        empty_dispatches there sp.destip b.healthy first_request
          (request-IsFrame start.broadcast_id client.portno ip sp port m.destport m.route_disc_flag
            a.address_fits b.address_fits)
          intf_there hop_here other none_there
        ∙ destination_replies there sp.destip first_request intf_there hop_here b.healthy
            a.address_fits b.address_fits other mac_there none b.linked (str_eq_refl sp.destip)

    -- The reply releases the message.
    module _ (hop_there : Mac) (empty : is_nil start.routes.order ≡ true) where
      abbrev before_reply : Odr
      before_reply = counted (
          transmitted_all (copies minus_one (convert_host_net_order first_request) here.interfaces)
            (counted start))

      abbrev pub released : Odr
      released =
          along mac_here (learned reply_frame intf_here hop_there (here.clock start.clock_reads))
            waiting_data
            (learnt
              (inserted reply_frame intf_here hop_there (here.clock start.clock_reads) start.routes)
              before_reply)

      releases :
          handle_ethernet_msg here (convert_host_net_order reply_frame) intf_here hop_there asked
          ≡ done tt released
      unfolding dispatch
      releases =
          empty_dispatches here ip a.healthy reply_frame
            (reply-IsFrame (inc start.broadcast_id) client.portno other.broadcast_id ip sp port
              m.destport a.address_fits b.address_fits)
            intf_here hop_there asked empty
          ∙ reply_releases here ip a.healthy reply_frame intf_here hop_there b.address_fits
              before_reply waiting_data none mac_here (str_eq_refl ip) refl a.linked

      -- Two healthy nodes with different addresses that fit are linked by an interface of each, no
      -- route is in either table, and no reading of the clock finds an entry stale that the second
      -- node makes at the start. A process of the first, for which the daemon finds or makes an
      -- entry, sends a message that fits to a port of the second on which a process is registered.
      -- Then the first node floods one request and returns; given that request, the second sends
      -- one reply to where it came from; given that reply, the first sends the message as one data
      -- frame to where the reply came from; and given that frame, the second hands to the process
      -- on the port the text of the message with the address of the first node and the port of its
      -- process. At each step the handler returns, and sends nothing else.
      pub message_delivered :
          (before : Odr) (server : MapEntry)
          → fetch_entry_path here sp.filename before ≡ done (some client) start
          → fetch_entry_port other.ports sp.destport ≡ some server
          → ((n : ℕ) → there.clock n < there.clock other.clock_reads + other.stale_param)
          → let request = convert_host_net_order first_request in
            let reply = convert_host_net_order reply_frame in
            let payload = convert_host_net_order waiting_data in
            ((handle_peer_msg here sp before ≡ done tt asked)
              × (asked.sent ≡ onto (copies minus_one request here.interfaces) start.sent))
            × ((handle_ethernet_msg there request intf_there hop_here other ≡ done tt replied)
                × (replied.sent
                    ≡ raw (convert_to_mac mac_there) (convert_to_mac hop_here) intf_there reply
                      ∷ other.sent))
            × ((handle_ethernet_msg here reply intf_here hop_there asked ≡ done tt released)
                × (released.sent
                    ≡ raw (convert_to_mac mac_here) (convert_to_mac hop_there) intf_here payload
                      ∷ asked.sent))
            × ((end : Odr) × (handle_ethernet_msg there payload intf_there hop_here replied
                  ≡ done tt end)
                × (end.sent
                    ≡ local server.sun_path (peer_text ip client.portno sp.msg) ∷ replied.sent))
      unfolding link_first store allocate learned
      message_delivered before server fetches bound steady = (
        (asks before fetches empty, refl),
        (replies, refl),
        (releases, refl),
        data_arrives there sp.destip b.healthy waiting_data
            (parked-IsFrame (inc start.broadcast_id) client.portno ip sp port m.destport m.msg
              a.address_fits b.address_fits)
            intf_there hop_here replied (str_eq_refl sp.destip) server a.address_fits refl refl
            bound (rw (==_refl other.routes.fresh) apart, nil-All _ other.routes.order none_there)
            (
              rw (==_refl other.routes.fresh) (ground (arith, steady (other.clock_reads + 2))),
              nil-All _ other.routes.order none_there,
            ),
      )
