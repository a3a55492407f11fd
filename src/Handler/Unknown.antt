-- ===== src/Handler/Unknown.antt =====
-- Frames whose addresses the table has no entry for: a request for the node itself, and a reply or
-- data for another node.
use on_demand_routing.Base.{
  ℕ, ◌<◌, ◌≡◌, ◌⊎◌, ◌∙◌, refl, ap, inl, inr, Bool, true, false, not, ◌&&◌, none, some, List, [],
  ◌∷◌, map, All, All-mono, CStr, codes, fits, lt→ltb, str_eq, Bool-cases, ◌==◌, ==_refl,
  if◌then◌else◌, arith,
}
use on_demand_routing.Word.{inc, minus_one}
use on_demand_routing.Frame.{
  Frame, IsFrame, convert_host_net_order, inet_addrstrlen, type_rreq, type_rrep, type_data,
}
use on_demand_routing.Frame.Conversion.{convert_net_host_order-convert_host_net_order}
use on_demand_routing.Odr.{Odr, World, Mac, Hwa, Route, Sent, raw}
use on_demand_routing.Odr.Outcome.{done, monad}
use on_demand_routing.System.{get_hwaddr_from_int, convert_to_mac, before_colon}
use on_demand_routing.Routes.{is_broadid_greater, learned, store, allocate, link_first}
use on_demand_routing.Routes.Found.{looked, get_r_entry-find, find_absent}
use on_demand_routing.Routes.Learning.{inserted, learnt, insert_r_entry-done}
use on_demand_routing.Transmit.{is_flooded}
use on_demand_routing.Transmit.Delivery.{
  IsHealthy, copies, onto, frame_of, transmitted_all, get_name_ip-done,
}
use on_demand_routing.Transmit.Replies.{along, counted}
use on_demand_routing.Handler.Discovery.{parked}
use on_demand_routing.Handler.Learn.{learn_source}
use on_demand_routing.Handler.Ether.{is_duplicate, dispatch, handle_frame, handle_ethernet_msg}
use on_demand_routing.Handler.Ether.Rrep.{on_rrep}
use on_demand_routing.Handler.Ether.Payload.{on_data}
use on_demand_routing.Handler.Relay.{below-==}
use on_demand_routing.Handler.Requests.{answer_to, destination_replies}
use on_demand_routing.Handler.Forwarding.{unroutable_waits}

-- A broadcast id is news if no entry is for its source.
absent_greater :
    (entry : ℕ → Route) (ip : CStr) (bid : ℕ) (ps : List ℕ)
    → All (λ p. str_eq (entry p).destip ip ≡ false) ps
    → is_broadid_greater entry ip bid ps ≡ true
unfolding is_broadid_greater
absent_greater entry ip bid [] h = refl
absent_greater entry ip bid (p ∷ ps) (h, hs) = rw h (absent_greater entry ip bid ps hs)

-- The interfaces with some property.
abbrev pub only : (Hwa → Bool) → List Hwa → List Hwa
only keep [] = []
only keep (h ∷ hs) = if keep h then h ∷ only keep hs else only keep hs

-- An interface that is neither loopback nor eth0 nor the one with the index.
abbrev pub is_other_link : ℕ → Hwa → Bool
is_other_link intf_n h =
    not (str_eq (before_colon h.if_name) (codes "lo"))
    && not (str_eq (before_colon h.if_name) (codes "eth0"))
    && not (h.if_index == intf_n)

-- A frame to all on an interface.
abbrev pub broadcast : Frame → Hwa → Sent
broadcast f h =
    raw (convert_to_mac h.if_haddr) (0xff ∷ 0xff ∷ 0xff ∷ 0xff ∷ 0xff ∷ 0xff ∷ []) h.if_index f

copies-only :
    (intf_n : ℕ) (f : Frame) (hs : List Hwa)
    → copies intf_n f hs ≡ map (broadcast f) (only (is_other_link intf_n) hs)
unfolding copies is_flooded convert_to_mac
copies-only intf_n f [] = refl
copies-only intf_n f (h ∷ hs) = elim (Bool-cases (is_other_link intf_n h)) [
  | inl out ↦ rw (out, copies-only intf_n f hs) refl
  | inr kept ↦ rw (kept, copies-only intf_n f hs) refl
]

module _ (w : World) (self_ip : CStr) (h : IsHealthy w self_ip) (f : Frame) (ok : IsFrame f)
    (intf_n : ℕ) (hop : Mac) (s : Odr)
    (unknown : All
      (λ p.
        (p < s.routes.fresh)
        × (str_eq (s.routes.entry p).destip f.src_ip ≡ false)
        × (str_eq (s.routes.entry p).destip f.dest_ip ≡ false))
      s.routes.order) where
  -- The state after both lookups.
  abbrev later : Odr
  later = looked (looked s)

  unknown_dispatches :
      handle_ethernet_msg w (convert_host_net_order f) intf_n hop s
      ≡ dispatch w self_ip f intf_n hop none none later
  unfolding handle_ethernet_msg handle_frame monad
  unknown_dispatches =
      let t = s.routes in
      let no_source = All-mono t.order (λ p u. u.1) unknown in
      let no_dest = All-mono t.order (λ p u. u.2) unknown in
      let new : is_duplicate f s ≡ false =
        ground (arith, absent_greater t.entry f.src_ip f.broadcast_id t.order no_source) in
      rw
        (
          h.own,
          convert_net_host_order-convert_host_net_order f ok,
          new,
          get_r_entry-find w f.dest_ip f.route_disc_flag s
              (All-mono t.order (λ p far same. ground (arith, far, same)) no_dest),
          find_absent t.entry f.dest_ip t.order no_dest,
          get_r_entry-find w f.src_ip 0 (looked s)
              (All-mono t.order (λ p far same. ground (arith, far, same)) no_source),
          find_absent t.entry f.src_ip t.order no_source,
          get_name_ip-done w self_ip h f.src_ip later,
          get_name_ip-done w self_ip h f.dest_ip later,
        )
        refl

  source_room : fits inet_addrstrlen f.src_ip ≡ true
  source_room = lt→ltb _ _ ok.src_ip

  dest_room : fits inet_addrstrlen f.dest_ip ≡ true
  dest_room = lt→ltb _ _ ok.dest_ip

  -- A new entry for the source stands first in the table: over the interface that the frame came in
  -- on and the node that sent it, one hop further. The others are as they were.
  abbrev pub GainsEntry : Odr → Type 0
  GainsEntry t =
      (t.routes.order ≡ s.routes.fresh ∷ s.routes.order)
      × (t.routes.entry s.routes.fresh ≡ record {
        destip = f.src_ip;
        next_hop = hop;
        if_no = intf_n;
        no_hops = inc f.hop_count;
        broadcast_id = f.broadcast_id;
        timestamp = w.clock later.clock_reads;
      })
      × All (λ p. t.routes.entry p ≡ s.routes.entry p) s.routes.order

  abbrev gained : Odr
  gained = learnt (inserted f intf_n hop (w.clock later.clock_reads) later.routes) later

  gained-GainsEntry : GainsEntry gained
  unfolding store allocate link_first learned
  gained-GainsEntry = (
    refl,
    rw (==_refl s.routes.fresh) refl,
    All-mono s.routes.order (λ p u. rw (below-== p s.routes.fresh u.0) refl) unknown,
  )

  -- A healthy node gets a well-formed request whose destination it is, on an interface that it
  -- has, and no entry of its table is for the request's source or for its own address. Then
  -- `handle_ethernet_msg` returns, and has sent exactly one frame more, on that interface to the
  -- address that the request came from: the reply, with addresses and ports swapped, hop count 0,
  -- the next broadcast id and no payload. The table has one entry more, first in its list: for the
  -- request's source, over that interface and address, one hop further than the request says, with
  -- its broadcast id and the time; the other entries are as they were, and so are the waiting
  -- messages and the ports.
  pub request_answered :
      (mac : Mac)
      → f.frame_type ≡ type_rreq
      → str_eq f.dest_ip self_ip ≡ true
      → get_hwaddr_from_int w.interfaces intf_n ≡ some mac
      → (t : Odr) × (handle_ethernet_msg w (convert_host_net_order f) intf_n hop s ≡ done tt t)
        × (t.sent
            ≡ raw (convert_to_mac mac) (convert_to_mac hop) intf_n (
                convert_host_net_order (record {
                  frame_type = type_rrep;
                  broadcast_id = inc s.broadcast_id;
                  hop_count = 0;
                  payload_len = f.payload_len;
                  route_disc_flag = 0;
                  src_port = f.dst_port;
                  dst_port = f.src_port;
                  dest_ip = f.src_ip;
                  src_ip = f.dest_ip;
                  payload = [];
                }))
              ∷ s.sent)
        × GainsEntry t
        × (t.broadcast_id ≡ inc s.broadcast_id)
        × (t.pending ≡ s.pending)
        × (t.ports ≡ s.ports)
  unfolding dispatch learned
  request_answered mac kind mine linked =
      let is_request : (f.frame_type == type_rreq) ≡ true = ground (arith, kind) in
      (
        along mac (learned f intf_n hop (w.clock later.clock_reads))
            (answer_to f (inc s.broadcast_id) 0) (counted gained),
        unknown_dispatches
            ∙ rw is_request (
                destination_replies w self_ip f intf_n hop h source_room dest_room later mac none
                  linked mine),
        refl,
        gained-GainsEntry,
        refl,
        refl,
        refl,
      )

  abbrev asked : Frame
  asked =
      frame_of type_rreq (inc s.broadcast_id) 0 0 0 minus_one f.dst_port f.dest_ip self_ip f.payload

  abbrev waiting : Odr
  waiting =
      transmitted_all (copies intf_n (convert_host_net_order asked) w.interfaces)
        (parked f.dest_ip f (counted gained))

  waits_dispatched :
      (f.frame_type ≡ type_data) ⊎ (f.frame_type ≡ type_rrep)
      → str_eq f.dest_ip self_ip ≡ false
      → fits inet_addrstrlen self_ip ≡ true
      → dispatch w self_ip f intf_n hop none none later ≡ done tt waiting
  unfolding dispatch on_data on_rrep learn_source monad
  waits_dispatched kind elsewhere own =
      let no_request : (f.frame_type == type_rreq) ≡ false = ground (arith, kind) in
      let waits = unroutable_waits w self_ip h f intf_n dest_room gained s.routes.fresh own in
      let learns = insert_r_entry-done w self_ip h f intf_n hop source_room later in
      elim kind [
        | inl payload ↦
            let no_reply : (f.frame_type == type_rrep) ≡ false = ground (arith, payload) in
            let is_payload : (f.frame_type == type_data) ≡ true = ground (arith, payload) in
            rw (no_request, no_reply, is_payload, learns, elsewhere) waits.1
        | inr reply ↦
            let is_reply : (f.frame_type == type_rrep) ≡ true = ground (arith, reply) in
            rw (no_request, is_reply, learns, elsewhere) waits.0
      ]

  -- A healthy node whose own address fits gets a well-formed reply or data for another node, and
  -- no entry of its table is for the frame's source or destination. Then `handle_ethernet_msg`
  -- returns. The frame waits as the newest message, for its destination; a request of the node for
  -- its destination, with hop count 0, the next broadcast id, source port -1 and no payload, has
  -- gone to all on every interface that is neither loopback nor eth0, by its name up to a colon,
  -- nor the one that the frame came in on, in the order of the interfaces, and nothing else was
  -- sent. The table has one entry more, first in its list: for the frame's source, over that
  -- interface and the address that it came from, one hop further than the frame says; the other
  -- entries and the ports are as they were.
  pub stranger_waits :
      (f.frame_type ≡ type_data) ⊎ (f.frame_type ≡ type_rrep)
      → str_eq f.dest_ip self_ip ≡ false
      → fits inet_addrstrlen self_ip ≡ true
      → (t : Odr) × (handle_ethernet_msg w (convert_host_net_order f) intf_n hop s ≡ done tt t)
        × (t.pending ≡ record { destip = f.dest_ip; odrframe = f } ∷ s.pending)
        × (t.sent
            ≡ onto
                (map
                  (broadcast (
                    convert_host_net_order (record {
                      frame_type = type_rreq;
                      broadcast_id = inc s.broadcast_id;
                      hop_count = 0;
                      payload_len = 0;
                      route_disc_flag = 0;
                      src_port = minus_one;
                      dst_port = f.dst_port;
                      dest_ip = f.dest_ip;
                      src_ip = self_ip;
                      payload = [];
                    })))
                  (only (is_other_link intf_n) w.interfaces))
                s.sent)
        × GainsEntry t
        × (t.broadcast_id ≡ inc s.broadcast_id)
        × (t.ports ≡ s.ports)
  stranger_waits kind elsewhere own = (
    waiting,
    unknown_dispatches ∙ waits_dispatched kind elsewhere own,
    refl,
    ap (λ ms. onto ms s.sent) (copies-only intf_n (convert_host_net_order asked) w.interfaces),
    gained-GainsEntry,
    refl,
    refl,
  )
