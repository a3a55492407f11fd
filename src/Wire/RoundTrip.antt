-- ===== src/Wire/RoundTrip.antt =====
-- Frames as they are laid out and read again.
use on_demand_routing.Base.{
  ℕ, zero, suc, ◌-◌, ◌<◌, ◌≡◌, refl, sym, ap, ◌∙◌, false, ◌==◌, some, List, [], ◌∷◌, ◌++◌, length,
  length-append, length-replicate, take, drop, replicate, CStr, arith, All, le→leb,
}
use mathlib.Core.List.{append-nil, append_assoc}
use on_demand_routing.Word.{IsWord}
use on_demand_routing.Frame.{
  Frame, IsFrame, convert_net_host_order, convert_host_net_order, inet_addrstrlen, payload_size,
}
use on_demand_routing.Frame.Conversion.{
  convert_net_host_order-convert_host_net_order, convert_host_net_order-IsFrame,
}
use on_demand_routing.Odr.{Mac}
use on_demand_routing.Transmit.{eth_frame_len}
use on_demand_routing.Wire.{
  int_bytes, char_bytes, frame_bytes, ether_header, ether_frame, read_int, read_chars, string_at,
  process_recvd_frame,
}

take-append : (n : ℕ) (xs ys : List ℕ) → length xs ≡ n → take n (xs ++ ys) ≡ xs
take-append zero [] ys e = refl
take-append zero (x ∷ xs) ys e = ground (arith, e)
take-append (suc n) [] ys e = ground (arith, e)
take-append (suc n) (x ∷ xs) ys e = ap (λ z. x ∷ z) (take-append n xs ys (omega (arith, e)))

pub take-all : (n : ℕ) (xs : List ℕ) → length xs ≡ n → take n xs ≡ xs
take-all n xs e = ap (take n) (sym (append-nil xs)) ∙ take-append n xs [] e

drop-append : (n : ℕ) (xs ys : List ℕ) → length xs ≡ n → drop n (xs ++ ys) ≡ ys
drop-append zero [] ys e = refl
drop-append zero (x ∷ xs) ys e = ground (arith, e)
drop-append (suc n) [] ys e = ground (arith, e)
drop-append (suc n) (x ∷ xs) ys e = drop-append n xs ys (omega (arith, e))

read_int-int_bytes :
    (x : ℕ) (rest : List ℕ) → IsWord x → read_int (int_bytes x ++ rest) ≡ some (x, rest)
unfolding read_int int_bytes
read_int-int_bytes x rest h = ap (λ n. some (n, rest)) (omega (arith, h))

length-char_bytes : (size : ℕ) (s : CStr) → length s < size → length (char_bytes size s) ≡ size
unfolding char_bytes
length-char_bytes size s h = omega (
  arith,
  length-append s (replicate (size - length s) 0),
  length-replicate {A = ℕ} (size - length s) 0,
  h,
)

string_at-append :
    (s rest : List ℕ) → All (λ c. (c == 0) ≡ false) s → string_at (s ++ (0 ∷ rest)) ≡ s
unfolding string_at
string_at-append [] rest h = refl
string_at-append (c ∷ s) rest (h, hs) = rw (h, string_at-append s rest hs) refl

-- The zeros behind a string begin with its NUL.
zeros_start : (n : ℕ) → 0 < n → replicate {A = ℕ} n 0 ≡ 0 ∷ replicate (n - 1) 0
zeros_start zero h = absurd (omega (arith, h))
zeros_start (suc n) h = ap (λ m. 0 ∷ replicate m 0) (omega arith)

read_chars-char_bytes :
    (size : ℕ) (s : CStr) (rest : List ℕ)
    → All (λ c. (c == 0) ≡ false) s
    → length s < size
    → read_chars size (char_bytes size s ++ rest) ≡ (s, rest)
unfolding read_chars char_bytes
read_chars-char_bytes size s rest n h =
    let zeros = replicate (size - length s) 0 in
    let after = replicate (size - length s - 1) 0 ++ rest in
    let split : (s ++ zeros) ++ rest ≡ s ++ (0 ∷ after) =
      append_assoc s zeros rest
      ∙ ap (λ z. s ++ (z ++ rest)) (zeros_start (size - length s) (omega (arith, h))) in
    let cut : drop size ((s ++ zeros) ++ rest) ≡ rest =
      drop-append size (char_bytes size s) rest (length-char_bytes size s h) in
    rw cut (ap (λ z. (z, rest)) (ap string_at split ∙ string_at-append s after n))

-- The strings of a frame have no NUL.
abbrev pub AreStrings : Frame → Type 0
AreStrings f =
    All (λ c. (c == 0) ≡ false) f.dest_ip
    × All (λ c. (c == 0) ≡ false) f.src_ip
    × All (λ c. (c == 0) ≡ false) f.payload

length-frame_bytes : (f : Frame) → IsFrame f → length (frame_bytes f) ≡ 1500
unfolding frame_bytes int_bytes
length-frame_bytes f k =
    let d = char_bytes inet_addrstrlen f.dest_ip in
    let s = char_bytes inet_addrstrlen f.src_ip in
    let p = char_bytes payload_size f.payload in
    omega (
      arith,
      length-append d (s ++ p),
      length-append s p,
      length-char_bytes inet_addrstrlen f.dest_ip k.dest_ip,
      length-char_bytes inet_addrstrlen f.src_ip k.src_ip,
      length-char_bytes payload_size f.payload k.payload,
    )

module _ (dest_mac src_mac : Mac) (six_dest : length dest_mac ≡ 6)
    (six_src : length src_mac ≡ 6) where
  length-ether_header : length (ether_header dest_mac src_mac) ≡ 14
  length-ether_header = omega (
    arith,
    length-append dest_mac (src_mac ++ (0xd7 ∷ 0x7d ∷ [])),
    length-append src_mac (0xd7 ∷ 0x7d ∷ []),
    six_dest,
    six_src,
  )

  length-ether_frame :
      (f : Frame) → IsFrame f → length (ether_frame dest_mac src_mac f) ≡ eth_frame_len
  unfolding ether_frame
  length-ether_frame f k = omega (
    arith,
    length-append (ether_header dest_mac src_mac) (frame_bytes f),
    length-ether_header,
    length-frame_bytes f k,
  )

  -- The frame and what stands after it in memory.
  frame_then :
      (f : Frame) (beyond : List ℕ)
      → drop 14 (ether_frame dest_mac src_mac f ++ beyond)
        ≡ int_bytes f.frame_type
          ++ (int_bytes f.broadcast_id
              ++ (int_bytes f.hop_count
                  ++ (int_bytes f.payload_len
                      ++ (int_bytes f.route_disc_flag
                          ++ (int_bytes f.src_port
                              ++ (int_bytes f.dst_port
                                  ++ (char_bytes inet_addrstrlen f.dest_ip
                                      ++ (char_bytes inet_addrstrlen f.src_ip
                                          ++ (char_bytes payload_size f.payload ++ beyond)))))))))
  unfolding ether_frame frame_bytes
  frame_then f beyond =
      ap (drop 14) (append_assoc (ether_header dest_mac src_mac) (frame_bytes f) beyond)
      ∙ drop-append 14 (ether_header dest_mac src_mac) (frame_bytes f ++ beyond) length-ether_header
      ∙ simp append_assoc

  process_recvd_frame-ether_frame :
      (beyond : List ℕ) (f : Frame)
      → IsFrame f
      → AreStrings f
      → process_recvd_frame beyond (ether_frame dest_mac src_mac f)
        ≡ some (convert_net_host_order f)
  unfolding process_recvd_frame
  process_recvd_frame-ether_frame beyond f k (nd, ns, np) =
      let bytes = ether_frame dest_mac src_mac f in
      let long = length-ether_frame f k in
      rw
        (
          le→leb eth_frame_len (length bytes) (omega (arith, long)),
          take-all eth_frame_len bytes long,
          frame_then f beyond,
          read_int-int_bytes f.frame_type _ k.frame_type,
          read_int-int_bytes f.broadcast_id _ k.broadcast_id,
          read_int-int_bytes f.hop_count _ k.hop_count,
          read_int-int_bytes f.payload_len _ k.payload_len,
          read_int-int_bytes f.route_disc_flag _ k.route_disc_flag,
          read_int-int_bytes f.src_port _ k.src_port,
          read_int-int_bytes f.dst_port _ k.dst_port,
          read_chars-char_bytes inet_addrstrlen f.dest_ip _ nd k.dest_ip,
          read_chars-char_bytes inet_addrstrlen f.src_ip _ ns k.src_ip,
          read_chars-char_bytes payload_size f.payload beyond np k.payload,
        )
        refl

  -- A well-formed frame that is put into network order and laid out in an Ethernet frame, behind
  -- addresses of six bytes, is what `process_recvd_frame` reads from those bytes, whatever stands
  -- behind its buffer in memory, if its strings have no NUL; and the Ethernet frame has exactly
  -- the 1514 bytes that `send_raw_frame` sends.
  pub sent_and_received :
      (f : Frame)
      → IsFrame f
      → AreStrings f
      → (beyond : List ℕ)
      → (process_recvd_frame beyond (ether_frame dest_mac src_mac (convert_host_net_order f))
          ≡ some f)
        × (length (ether_frame dest_mac src_mac (convert_host_net_order f)) ≡ eth_frame_len)
  unfolding convert_host_net_order
  sent_and_received f k z beyond = (
    process_recvd_frame-ether_frame beyond (convert_host_net_order f)
          (convert_host_net_order-IsFrame f k) z
        ∙ ap some (convert_net_host_order-convert_host_net_order f k),
    length-ether_frame (convert_host_net_order f) (convert_host_net_order-IsFrame f k),
  )
