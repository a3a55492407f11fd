-- ===== src/Wire.antt =====
-- The bytes of an Ethernet frame: how `send_raw_frame` of assign3/odr_functions.c lays them out,
-- and how `process_recvd_frame` reads them. The host is little-endian.
pub mod Memory
pub mod RoundTrip
pub mod Received
use on_demand_routing.Base.{
  ℕ, ◌+◌, ◌-◌, ◌*◌, ◌/◌, ◌%◌, ◌^◌, Option, none, some, List, [], ◌∷◌, ◌++◌, length, take, drop,
  replicate, CStr, leb, ◌==◌, if◌then◌else◌,
}
use on_demand_routing.Frame.{Frame, convert_net_host_order, inet_addrstrlen, payload_size}
use on_demand_routing.Odr.{Mac}
use on_demand_routing.Transmit.{eth_frame_len}
use on_demand_routing.Message.{guard, ◌>>=◌, ◌>>◌}

-- `ETH_HLEN`: two addresses and the type.
abbrev pub eth_hlen : ℕ
eth_hlen = 14

-- An `int` and a `char` array in memory. `calloc` has filled what follows the string with NULs.
unfoldable pub int_bytes : ℕ → List ℕ
int_bytes x = x % 256 ∷ x / 2 ^ 8 % 256 ∷ x / 2 ^ 16 % 256 ∷ x / 2 ^ 24 % 256 ∷ []

unfoldable pub char_bytes : ℕ → CStr → List ℕ
char_bytes size s = s ++ replicate (size - length s) 0

-- An `odr_frame_t` in memory.
unfoldable pub frame_bytes : Frame → List ℕ
frame_bytes f =
    int_bytes f.frame_type
    ++ (int_bytes f.broadcast_id
        ++ (int_bytes f.hop_count
            ++ (int_bytes f.payload_len
                ++ (int_bytes f.route_disc_flag
                    ++ (int_bytes f.src_port
                        ++ (int_bytes f.dst_port
                            ++ (char_bytes inet_addrstrlen f.dest_ip
                                ++ (char_bytes inet_addrstrlen f.src_ip
                                    ++ char_bytes payload_size f.payload))))))))

-- `USID_PROTO` in network order.
abbrev pub ether_header : Mac → Mac → List ℕ
ether_header dest_mac src_mac = dest_mac ++ (src_mac ++ (0xd7 ∷ 0x7d ∷ []))

-- The buffer that `send_raw_frame` sends.
unfoldable pub ether_frame : Mac → Mac → Frame → List ℕ
ether_frame dest_mac src_mac odrframe = ether_header dest_mac src_mac ++ frame_bytes odrframe

-- The `int` and the array that stand at a pointer, and what follows them.
unfoldable pub read_int : List ℕ → Option (ℕ × List ℕ)
read_int (a ∷ b ∷ c ∷ d ∷ rest) = some (a + b * 2 ^ 8 + c * 2 ^ 16 + d * 2 ^ 24, rest)
read_int _ = none

-- The string at a pointer: what stands there up to the first NUL, whatever array that is in.
unfoldable pub string_at : List ℕ → CStr
string_at [] = []
string_at (b ∷ bs) = let rest = string_at bs in if b == 0 then [] else b ∷ rest

unfoldable pub read_chars : ℕ → List ℕ → CStr × List ℕ
read_chars size bytes = (string_at bytes, drop size bytes)

-- The received bytes, after the header, as a frame in host order. They are copied to a buffer of
-- their own, after which `beyond` stands in memory. `none` stands for fewer bytes than the 1514
-- that `memcpy` reads.
unfoldable pub process_recvd_frame : List ℕ → List ℕ → Option Frame
process_recvd_frame beyond recv_buf = do
  guard (leb eth_frame_len (length recv_buf))
  (frame_type, d1) ← read_int (drop eth_hlen (take eth_frame_len recv_buf ++ beyond))
  (broadcast_id, d2) ← read_int d1
  (hop_count, d3) ← read_int d2
  (payload_len, d4) ← read_int d3
  (route_disc_flag, d5) ← read_int d4
  (src_port, d6) ← read_int d5
  (dst_port, d7) ← read_int d6
  let (dest_ip, d8) = read_chars inet_addrstrlen d7
  let (src_ip, d9) = read_chars inet_addrstrlen d8
  let (payload, _) = read_chars payload_size d9
  some (
      convert_net_host_order (record {
        frame_type = frame_type;
        broadcast_id = broadcast_id;
        hop_count = hop_count;
        payload_len = payload_len;
        route_disc_flag = route_disc_flag;
        src_port = src_port;
        dst_port = dst_port;
        dest_ip = dest_ip;
        src_ip = src_ip;
        payload = payload;
      }))
