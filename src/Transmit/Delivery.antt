-- ===== src/Transmit/Delivery.antt =====
-- What is sent where names resolve and every `sendto` succeeds.
use on_demand_routing.Base.{
  length, ap, ◌∙◌, ℕ, ◌+◌, ◌≡◌, refl, inl, inr, true, not, ◌||◌, some, List, [], ◌∷◌, CStr, fits,
  arith, Bool-cases, if◌then◌else◌,
}
use on_demand_routing.Frame.{Frame, convert_host_net_order, inet_addrstrlen, payload_size}
use on_demand_routing.Odr.{Odr, World, Hwa, Mac, Sent, raw}
use on_demand_routing.Odr.Outcome.{Act, done, pure, ◌>>◌, monad}
use on_demand_routing.System.{get_self_ip, convert_to_mac, get_name_ip, sendto}
use on_demand_routing.Transmit.{
  construct_odr, is_data, flood_type, is_flooded, broadcast_mac, send_raw_frame, flood_one, flood,
  send_req_broadcast,
}

-- The node knows its address, every address has a name that fits, and no `sendto` fails.
pub record IsHealthy (w : World) (self_ip : CStr) : Type 0 where
  pub own : get_self_ip w.interfaces ≡ some self_ip
  pub named :
      (ip : CStr)
      → (name : CStr) × (w.host_name ip ≡ some name) × (fits inet_addrstrlen name ≡ true)
  pub sends : (n : ℕ) → w.send_ok n ≡ true

abbrev pub transmitted : Sent → Odr → Odr
transmitted m s = record s { sends = s.sends + 1; sent = m ∷ s.sent }

-- The frame that `construct_odr` builds, in host order.
abbrev pub frame_of :
    (frame_type bid hopcount len rdisc_flag srcport dstport : ℕ) (dstip srcip payload : CStr)
    → Frame
frame_of frame_type bid hopcount len rdisc_flag srcport dstport dstip srcip payload = record {
  frame_type = frame_type;
  broadcast_id = bid;
  hop_count = hopcount;
  payload_len = len;
  route_disc_flag = rdisc_flag;
  src_port = srcport;
  dst_port = dstport;
  dest_ip = dstip;
  src_ip = srcip;
  payload = if is_data frame_type then payload else [];
}

pub construct_odr-done :
    (a b c d e f g : ℕ) (x y z : CStr) (s : Odr)
    → fits inet_addrstrlen x ≡ true
    → fits inet_addrstrlen y ≡ true
    → (not (is_data a) || fits payload_size z) ≡ true
    → construct_odr a b c d e f g x y z s
      ≡ done (convert_host_net_order (frame_of a b c d e f g x y z)) s
unfolding construct_odr monad
construct_odr-done a b c d e f g x y z s hx hy hz = rw (hx, hy, hz) refl

-- The frames that a flood sends, in the order of the interfaces.
unfoldable pub copies : ℕ → Frame → List Hwa → List Sent
copies i f [] = []
copies i f (h ∷ hs) =
    if is_flooded i h
    then raw (convert_to_mac h.if_haddr) (convert_to_mac broadcast_mac) h.if_index f ∷ copies i f hs
    else copies i f hs

-- The record of what was sent, newest first, after the messages of a list.
abbrev pub onto : List Sent → List Sent → List Sent
onto [] sent = sent
onto (m ∷ ms) sent = onto ms (m ∷ sent)

-- A list of messages sent, one after the other.
abbrev pub transmitted_all : List Sent → Odr → Odr
transmitted_all ms s = record s { sends = s.sends + length ms; sent = onto ms s.sent }

transmitted_all-nil : (s : Odr) → s ≡ transmitted_all [] s
transmitted_all-nil s = ground arith

transmitted_all-cons :
    (m : Sent) (ms : List Sent) (s : Odr)
    → transmitted_all ms (transmitted m s) ≡ transmitted_all (m ∷ ms) s
transmitted_all-cons m ms s = ground arith

flood_no_data :
    (asent : ℕ) (payload : CStr)
    → (not (is_data (flood_type asent)) || fits payload_size payload) ≡ true
flood_no_data asent payload = ground arith

module _ (w : World) (self_ip : CStr) (h : IsHealthy w self_ip) where
  pub get_name_ip-done : (ip : CStr) (s : Odr) → get_name_ip w ip s ≡ done (h.named ip).0 s
  unfolding get_name_ip monad
  get_name_ip-done ip s = rw ((h.named ip).1, (h.named ip).2) refl

  pub sendto-done : (m : Sent) (s : Odr) → sendto w m s ≡ done tt (transmitted m s)
  unfolding sendto monad
  sendto-done m s = rw (h.sends s.sends) refl

  pub send_raw_frame-done :
      (src dst : Mac) (i : ℕ) (f : Frame) (s : Odr)
      → send_raw_frame w (some src) dst i f s
        ≡ done tt (transmitted (raw (convert_to_mac src) (convert_to_mac dst) i f) s)
  unfolding send_raw_frame monad
  send_raw_frame-done src dst i f s = rw (h.own, get_name_ip-done self_ip s, sendto-done _ s) refl

  -- The tail of the cases that send a frame and then name its receiver.
  pub send_then_name-done :
      (src dst : Mac) (i : ℕ) (f : Frame) (ip : CStr) (s : Odr)
      → (send_raw_frame w (some src) dst i f >> (get_name_ip w ip >> pure tt)) s
        ≡ done tt (transmitted (raw (convert_to_mac src) (convert_to_mac dst) i f) s)
  unfolding monad
  send_then_name-done src dst i f ip s =
      rw (send_raw_frame-done src dst i f s, get_name_ip-done ip _) refl

  flood-done :
      (i : ℕ) (m : Act Frame) (f : Frame)
      → ((s : Odr) → m s ≡ done f s)
      → (hs : List Hwa) (s : Odr) → flood w i m hs s ≡ done tt (transmitted_all (copies i f hs) s)
  unfolding flood flood_one copies monad
  flood-done i m f built [] s = ap (done tt) (transmitted_all-nil s)
  flood-done i m f built (x ∷ hs) s = elim (Bool-cases (is_flooded i x)) [
    | inl e ↦
        rw (e, built s, send_raw_frame-done x.if_haddr broadcast_mac x.if_index f s)
          (flood-done i m f built hs _ ∙ ap (done tt) (transmitted_all-cons _ _ s))
    | inr e ↦ rw e (flood-done i m f built hs s)
  ]

  -- On a healthy node, a broadcast between addresses that fit sends one copy of the frame on each
  -- interface but loopback, eth0 and the one that the request came in on, in the order of the
  -- interfaces, and nothing else changes.
  pub send_req_broadcast-copies :
      (i bid srcport dstport hops flag : ℕ) (dstip srcip payload : CStr) (asent : ℕ) (s : Odr)
      → fits inet_addrstrlen dstip ≡ true
      → fits inet_addrstrlen srcip ≡ true
      → let f = frame_of (flood_type asent) bid hops 0 flag srcport dstport dstip srcip payload in
        send_req_broadcast w i bid srcport dstport hops flag dstip srcip payload asent s
        ≡ done tt (transmitted_all (copies i (convert_host_net_order f) w.interfaces) s)
  unfolding send_req_broadcast monad
  send_req_broadcast-copies i bid srcport dstport hops flag dstip srcip payload asent s hd hs =
      rw (get_name_ip-done srcip s, get_name_ip-done dstip s)
        (flood-done i _ _
          (λ t.
            construct_odr-done _ bid hops 0 flag srcport dstport dstip srcip payload t hd hs
              (flood_no_data asent payload))
          w.interfaces s)
