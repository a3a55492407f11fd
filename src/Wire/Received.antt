-- ===== src/Wire/Received.antt =====
-- Every buffer gives a frame, and which of them are well-formed.
use on_demand_routing.Base.{
  ℕ, ◌+◌, ◌<◌, ◌≤◌, ◌≡◌, refl, subst, some, List, [], ◌∷◌, ◌++◌, length, length-append, take, drop,
  le→leb, true, arith,
}
use on_demand_routing.Word.{IsWord}
use on_demand_routing.Word.Swap.{ntohl, htonl-IsWord}
use on_demand_routing.Frame.{Frame, IsFrame, convert_net_host_order, inet_addrstrlen, payload_size}
use on_demand_routing.Transmit.{eth_frame_len}
use on_demand_routing.Wire.{read_int, read_chars, string_at, process_recvd_frame}
use on_demand_routing.Wire.RoundTrip.{take-all}
use on_demand_routing.Wire.Memory.{has_nul, drop-drop, length-drop, window, length-string_at}

-- Each of the three strings has a NUL within its array.
abbrev pub AreTerminated : List ℕ → Type 0
AreTerminated bytes =
    (has_nul (take inet_addrstrlen (drop 42 bytes)) ≡ true)
    × (has_nul (take inet_addrstrlen (drop 58 bytes)) ≡ true)
    × (has_nul (take payload_size (drop 74 bytes)) ≡ true)

read_int-drop : (bs : List ℕ) → 4 ≤ length bs → (x : ℕ) × (read_int bs ≡ some (x, drop 4 bs))
unfolding read_int
read_int-drop [] h = absurd (omega (arith, h))
read_int-drop (a ∷ []) h = absurd (omega (arith, h))
read_int-drop (a ∷ b ∷ []) h = absurd (omega (arith, h))
read_int-drop (a ∷ b ∷ c ∷ []) h = absurd (omega (arith, h))
read_int-drop (a ∷ b ∷ c ∷ d ∷ rest) h = (_, refl)

ntohl-IsWord : (x : ℕ) → IsWord (ntohl x)
unfolding ntohl
ntohl-IsWord x = htonl-IsWord x

module _ (beyond bytes : List ℕ) (whole : length bytes ≡ eth_frame_len) where
  abbrev memory : List ℕ
  memory = bytes ++ beyond

  -- An int in the buffer.
  int_at :
      (k : ℕ) → k + 4 ≤ 1514 → (x : ℕ) × (read_int (drop k memory) ≡ some (x, drop (k + 4) memory))
  int_at k h =
      let (x, e) =
        read_int-drop (drop k memory)
          (omega (arith, h, whole, length-drop k memory, length-append bytes beyond)) in
      (x, subst (λ d. read_int (drop k memory) ≡ some (x, d)) (drop-drop 4 k memory) e)

  -- A string in the buffer.
  short_iff :
      (k n : ℕ)
      → k + n ≤ 1514
      → (length (string_at (drop k memory)) < n → has_nul (take n (drop k bytes)) ≡ true)
        × (has_nul (take n (drop k bytes)) ≡ true → length (string_at (drop k memory)) < n)
  short_iff k n h =
      subst
        (λ a.
          (length (string_at (drop k memory)) < n → has_nul a ≡ true)
          × (has_nul a ≡ true → length (string_at (drop k memory)) < n))
        (window k n bytes beyond (omega (arith, h, whole)))
        (length-string_at n (drop k memory)
          (omega (arith, h, whole, length-drop k memory, length-append bytes beyond)))

  -- From any 1514 bytes, and whatever stands behind its buffer in memory, `process_recvd_frame`
  -- hands out a frame. Each of its three strings is what stands in memory from the start of the
  -- string's array to the first NUL, and the frame is well-formed, with numbers that are ints and
  -- strings that fit into their arrays, if and only if there is a NUL in each of the three arrays.
  pub process_recvd_frame-IsFrame :
      (f : Frame) × (process_recvd_frame beyond bytes ≡ some f)
      × ((IsFrame f → AreTerminated bytes) × (AreTerminated bytes → IsFrame f))
      × (f.dest_ip ≡ string_at (drop 42 (bytes ++ beyond)))
      × (f.src_ip ≡ string_at (drop 58 (bytes ++ beyond)))
      × (f.payload ≡ string_at (drop 74 (bytes ++ beyond)))
  unfolding process_recvd_frame convert_net_host_order read_chars
  process_recvd_frame-IsFrame =
      let (a, read_a) = int_at 14 (omega arith) in
      let (b, read_b) = int_at 18 (omega arith) in
      let (c, read_c) = int_at 22 (omega arith) in
      let (d, read_d) = int_at 26 (omega arith) in
      let (e, read_e) = int_at 30 (omega arith) in
      let (g, read_g) = int_at 34 (omega arith) in
      let (i, read_i) = int_at 38 (omega arith) in
      let dest = short_iff 42 inet_addrstrlen (omega arith) in
      let src = short_iff 58 inet_addrstrlen (omega arith) in
      let text = short_iff 74 payload_size (omega arith) in
      (
        _,
        rw
            (
              le→leb eth_frame_len (length bytes) (omega (arith, whole)),
              take-all eth_frame_len bytes whole,
              read_a,
              read_b,
              read_c,
              read_d,
              read_e,
              read_g,
              read_i,
              drop-drop inet_addrstrlen 42 memory,
              drop-drop inet_addrstrlen 58 memory,
            )
            refl,
        (
          (λ f. (dest.0 f.dest_ip, src.0 f.src_ip, text.0 f.payload)),
          λ (nul_dest, nul_src, nul_text). record {
            frame_type = ntohl-IsWord a;
            broadcast_id = ntohl-IsWord b;
            hop_count = ntohl-IsWord c;
            payload_len = ntohl-IsWord d;
            route_disc_flag = ntohl-IsWord e;
            src_port = ntohl-IsWord g;
            dst_port = ntohl-IsWord i;
            dest_ip = dest.1 nul_dest;
            src_ip = src.1 nul_src;
            payload = text.1 nul_text;
          },
        ),
        refl,
        refl,
        refl,
      )
