-- ===== src/Message/RoundTrip.antt =====
-- The texts of both directions, written and then read.
use on_demand_routing.Base.{
  ℕ, ◌≤◌, ◌<◌, ◌≡◌, refl, ◌∙◌, true, false, some, List, [], ◌∷◌, ◌++◌, ◌^◌, length, drop, replicate,
  length-replicate, CStr, fits, ◌==◌, lt→ltb, arith, All,
}
use mathlib.Core.List.{append-nil}
use on_demand_routing.Word.{word_mod}
use on_demand_routing.Decimal.{print_int}
use on_demand_routing.Decimal.Numbers.{atoi-print_int, length-print_int, length-print_int_small}
use on_demand_routing.Frame.{payload_size}
use on_demand_routing.Transmit.{peer_text}
use on_demand_routing.Message.{
  maxline, ip_len, string_in, Memory, message_text, get_send_params, msg_send, msg_recv, comma,
  ◌>>=◌,
}
use on_demand_routing.Message.Fields.{
  IsField, field-append, word-append, print_int-Unstopped, copied-append, string_in-zeros,
}

-- A text that is one field and a C string, and after which `g` is left in the array that it is
-- copied to.
abbrev pub Lands : CStr → List ℕ → CStr → Type 0
Lands s array g =
    IsField s
    × All (λ c. (c == 0) ≡ false) s
    × (fits maxline s ≡ true)
    × (length s ≤ length array)
    × (string_in (drop (length s) array) ≡ some g)

fits-print_int : (a size : ℕ) → a < word_mod → 11 < size → fits size (print_int a) ≡ true
fits-print_int a size w h = lt→ltb _ _ (omega (arith, length-print_int a w, h))

fits-small : (a : ℕ) → a < 10 ^ 9 → fits 10 (print_int a) ≡ true
fits-small a h = lt→ltb _ _ (omega (arith, length-print_int_small a h))

module _ (destip msg tempfile : CStr) (destport flag : ℕ) (port_int : destport < word_mod)
    (flag_int : flag < word_mod) where
  -- In memory with any contents, `get_send_params` reads the numbers of such a message as
  -- `msg_send` was given them, and each of the address, the message and the file name followed by
  -- the string that stood in its array from its length on.
  pub get_send_params-msg_send :
      (sp : Memory) (g_ip g_msg g_file : CStr)
      → Lands destip sp.destip g_ip
      → Lands msg sp.msg g_msg
      → Lands tempfile sp.filename g_file
      → fits maxline (message_text destip destport msg tempfile flag) ≡ true
      → (msg_send destip destport msg flag tempfile >>= get_send_params sp)
        ≡ some (record {
          destip = destip ++ g_ip;
          filename = tempfile ++ g_file;
          msg = msg ++ g_msg;
          destport = destport;
          route_disc_flag = flag;
        })
  unfolding get_send_params msg_send comma
  get_send_params-msg_send sp g_ip g_msg g_file (fi, ni, bi, ri, li) (fm, nm, bm, rm, lm)
        (ff, nf, bf, rf, lf) room =
      rw
        (
          room,
          field-append destip _ fi,
          field-append (print_int destport) _ (print_int-Unstopped destport).0,
          field-append msg _ fm,
          field-append tempfile _ ff,
          word-append (print_int flag) [] (print_int-Unstopped flag).1,
          bi,
          fits-print_int destport ip_len port_int (omega arith),
          bm,
          bf,
          fits-print_int flag ip_len flag_int (omega arith),
          copied-append destip sp.destip g_ip ni ri li,
          copied-append msg sp.msg g_msg nm rm lm,
          copied-append tempfile sp.filename g_file nf rf lf,
          atoi-print_int destport port_int,
          atoi-print_int flag flag_int,
        )
        refl

-- A text that is one field and a C string, and shorter than an array of `size` bytes.
abbrev pub IsText : ℕ → CStr → Type 0
IsText size s =
    IsField s × All (λ c. (c == 0) ≡ false) s × (fits maxline s ≡ true) × (length s < size)

Lands-zeroed : (s : CStr) (size : ℕ) → IsText size s → Lands s (replicate size 0) []
Lands-zeroed s size (f, n, b, r) =
    (f, n, b, omega (arith, r, length-replicate {A = ℕ} size 0), string_in-zeros (length s) size r)

-- The memory that `calloc` would give.
abbrev pub zeroed : Memory
zeroed = record {
  destip = replicate maxline 0;
  filename = replicate maxline 0;
  msg = replicate payload_size 0;
}

-- If the memory for the params is zeroed, then what a process sends with `msg_send` is what
-- `get_send_params` reads, provided that the address, the message and the file name are not empty,
-- have no comma, quote or NUL, and are shorter than the arrays, that the numbers are below 2 ^ 32,
-- and that the whole text fits.
pub get_send_params-zeroed :
    (destip msg tempfile : CStr) (destport flag : ℕ)
    → destport < word_mod
    → flag < word_mod
    → IsText maxline destip
    → IsText payload_size msg
    → IsText maxline tempfile
    → fits maxline (message_text destip destport msg tempfile flag) ≡ true
    → (msg_send destip destport msg flag tempfile >>= get_send_params zeroed)
      ≡ some (record {
        destip = destip;
        filename = tempfile;
        msg = msg;
        destport = destport;
        route_disc_flag = flag;
      })
get_send_params-zeroed destip msg tempfile destport flag port_int flag_int i m f room =
    get_send_params-msg_send destip msg tempfile destport flag port_int flag_int zeroed [] [] []
      (Lands-zeroed destip maxline i) (Lands-zeroed msg payload_size m)
      (Lands-zeroed tempfile maxline f) room
    ∙ rw (append-nil destip, append-nil msg, append-nil tempfile) refl

-- `msg_recv` reads the address, port and message that `send_to_peer_process` writes, if address
-- and message are not empty, have no comma or quote, and fit, and the port is below 10 ^ 9.
pub msg_recv-peer_text :
    (ip payload : CStr) (port : ℕ)
    → IsField ip
    → IsField payload
    → fits ip_len ip ≡ true
    → fits maxline payload ≡ true
    → port < 10 ^ 9
    → msg_recv (peer_text ip port payload) ≡ some (ip, (port, payload))
unfolding msg_recv peer_text comma
msg_recv-peer_text ip payload port fi fp bi bp small =
    rw
      (
        field-append ip _ fi,
        field-append (print_int port) _ (print_int-Unstopped port).0,
        field-append payload _ fp,
        bi,
        word-append (b'0' ∷ []) [] (refl, tt),
        fits-small port small,
        bp,
        atoi-print_int port (omega (arith, small)),
      )
      refl
