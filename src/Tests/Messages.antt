-- ===== src/Tests/Messages.antt =====
-- The theorems on texts and bytes, at concrete messages and frames.
use on_demand_routing.Wire.Received.{AreTerminated, process_recvd_frame-IsFrame}
use on_demand_routing.Base.{
  ℕ, List, drop, ◌≡◌, refl, some, [], ◌∷◌, ◌++◌, codes, replicate, length, arith,
}
use on_demand_routing.Message.{Memory, get_send_params, msg_send, ◌>>=◌}
use on_demand_routing.Message.RoundTrip.{zeroed, get_send_params-msg_send, get_send_params-zeroed}
use on_demand_routing.Frame.{Frame, IsFrame, convert_host_net_order}
use on_demand_routing.Wire.{process_recvd_frame, ether_frame, string_at}
use on_demand_routing.Wire.RoundTrip.{sent_and_received}
use on_demand_routing.Machine.{machine}
use on_demand_routing.Tests.Node.{alice, hello, hop_a, request}

get_send_params-zeroed_example :
    (msg_send alice 5500 (codes "hello world") 0 (codes "/tmp/a") >>= get_send_params zeroed)
    ≡ some hello
unfolding machine
get_send_params-zeroed_example =
    get_send_params-zeroed alice (codes "hello world") (codes "/tmp/a") 5500 0 (omega arith)
      (omega arith) (ground arith) (ground arith) (ground arith) refl

-- Memory in which a longer address stood before.
abbrev used : Memory
used = record {
  destip = codes "10.0.0.123" ++ (0 ∷ []);
  filename = replicate 20 0;
  msg = replicate 20 0;
}

get_send_params-msg_send_example :
    (msg_send alice 5500 (codes "hello world") 0 (codes "/tmp/a") >>= get_send_params used)
    ≡ some (record hello { destip = codes "10.0.0.123" })
unfolding machine
get_send_params-msg_send_example =
    get_send_params-msg_send alice (codes "hello world") (codes "/tmp/a") 5500 0 (omega arith)
      (omega arith) used (codes "23") [] [] (ground arith) (ground arith) (ground arith) refl

request-IsFrame : IsFrame request
request-IsFrame = omega arith

sent_and_received_example :
    (process_recvd_frame [] (ether_frame hop_a hop_a (convert_host_net_order request))
      ≡ some request)
    × (length (ether_frame hop_a hop_a (convert_host_net_order request)) ≡ 1514)
sent_and_received_example =
    sent_and_received hop_a hop_a refl refl request request-IsFrame (ground arith) []

-- No byte of the buffer is a NUL, and there is one after it.
abbrev full : List ℕ
full = replicate 1514 49

process_recvd_frame-IsFrame_example :
    (f : Frame) × (process_recvd_frame (0 ∷ []) full ≡ some f)
    × ((IsFrame f → AreTerminated full) × (AreTerminated full → IsFrame f))
    × (f.dest_ip ≡ string_at (drop 42 (full ++ (0 ∷ []))))
    × (f.src_ip ≡ string_at (drop 58 (full ++ (0 ∷ []))))
    × (f.payload ≡ string_at (drop 74 (full ++ (0 ∷ []))))
process_recvd_frame-IsFrame_example = process_recvd_frame-IsFrame (0 ∷ []) full refl
