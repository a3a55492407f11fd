-- ===== src/Transmit/Quiet.antt =====
-- Sending moves nothing of the daemon's own state.
use on_demand_routing.Base.{ℕ, Option, none, some, List, [], ◌∷◌, CStr}
use on_demand_routing.Frame.{Frame}
use on_demand_routing.Odr.{World, Hwa, Mac, Route}
use on_demand_routing.Odr.Outcome.{Act}
use on_demand_routing.Odr.Keeps.{Keeps, plain}
use on_demand_routing.System.Unmoved.{Unmoved, Unmoved_preorder, asking}
use on_demand_routing.Transmit.{
  construct_odr, send_raw_frame, send_to_peer_process, process_data_message, send_data_message,
  send_rrep_packet, flood_one, flood, send_req_broadcast,
}

pub construct_odr-Keeps :
    (a b c d e f g : ℕ) (x y z : CStr) → Keeps Unmoved (construct_odr a b c d e f g x y z)
unfolding construct_odr
construct_odr-Keeps a b c d e f g x y z = search plain

module _ (w : World) where
  pub send_raw_frame-Keeps :
      (s : Option Mac) (d : Mac) (i : ℕ) (f : Frame) → Keeps Unmoved (send_raw_frame w s d i f)
  unfolding send_raw_frame
  send_raw_frame-Keeps s d i f = search (plain, asking)

  pub send_to_peer_process-Keeps :
      (p i : CStr) (n : ℕ) (m : CStr) → Keeps Unmoved (send_to_peer_process w p i n m)
  unfolding send_to_peer_process
  send_to_peer_process-Keeps p i n m = search (plain, asking)

  pub process_data_message-Keeps : (f : Frame) → Keeps Unmoved (process_data_message w f)
  unfolding process_data_message
  process_data_message-Keeps f = search (plain, asking, send_to_peer_process-Keeps)

  pub send_data_message-Keeps :
      (n r d : ℕ) (i m : CStr) (e : Route) → Keeps Unmoved (send_data_message w n r d i m e)
  unfolding send_data_message
  send_data_message-Keeps n r d i m e =
      search (plain, asking, construct_odr-Keeps, send_raw_frame-Keeps) depth 12

  pub send_rrep_packet-Keeps :
      (f : Frame) (e : Route) (h : ℕ) (swap : on_demand_routing.Base.Bool)
      → Keeps Unmoved (send_rrep_packet w f e h swap)
  unfolding send_rrep_packet
  send_rrep_packet-Keeps f e h swap =
      search (plain, asking, construct_odr-Keeps, send_raw_frame-Keeps) depth 12

  flood_one-Keeps :
      (i : ℕ) (m : Act Frame) (h : Hwa) (k : Act (Unit {0}))
      → Keeps Unmoved m
      → Keeps Unmoved k
      → Keeps Unmoved (flood_one w i m h k)
  unfolding flood_one
  flood_one-Keeps i m h k p q = search (plain, send_raw_frame-Keeps)

  flood-Keeps :
      (i : ℕ) (m : Act Frame) (hs : List Hwa) → Keeps Unmoved m → Keeps Unmoved (flood w i m hs)
  unfolding flood
  flood-Keeps i m [] p = search plain
  flood-Keeps i m (h ∷ hs) p = flood_one-Keeps i m h _ p (flood-Keeps i m hs p)

  pub send_req_broadcast-Keeps :
      (i b s d h r : ℕ) (x y z : CStr) (a : ℕ)
      → Keeps Unmoved (send_req_broadcast w i b s d h r x y z a)
  unfolding send_req_broadcast
  send_req_broadcast-Keeps i b s d h r x y z a =
      search (plain, asking, construct_odr-Keeps, flood-Keeps)

pub ruleset sending = (
  send_raw_frame-Keeps, send_to_peer_process-Keeps, process_data_message-Keeps,
  send_data_message-Keeps, send_rrep_packet-Keeps, send_req_broadcast-Keeps,
)
