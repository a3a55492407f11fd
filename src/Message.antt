-- ===== src/Message.antt =====
-- The datagrams between the daemon and the processes of its node: `get_send_params` of
-- assign3/odr_and.c, and `msg_send` and `msg_recv` of assign3/utils.c.
-- `none` is undefined behaviour: a string that is read though nothing was written to it, an array
-- that is too small, or a number that no `int` can hold.
pub mod Fields
pub mod Room
pub mod RoundTrip
use on_demand_routing.Base.{
  ℕ, Bool, true, false, not, ◌||◌, Option, none, some, List, [], ◌∷◌, ◌++◌, length, drop, CStr,
  fits, leb, ◌==◌, if◌then◌else◌,
}
use on_demand_routing.Decimal.{is_space, skip_space, print_int, atoi}
use on_demand_routing.Frame.{payload_size}
use on_demand_routing.Handler.Peer.{SendParams}

abbrev pub maxline : ℕ
maxline = 4096

abbrev pub ip_len : ℕ
ip_len = 50

module _ {A B : Type 0} where
  infixl 5 ◌>>=◌ ◌>>◌
  abbrev pub ◌>>=◌ : Option A → (A → Option B) → Option B
  none >>= k = none
  some a >>= k = k a

  abbrev pub ◌>>◌ : Option A → Option B → Option B
  m >> n = m >>= λ _. n

abbrev pub guard : Bool → Option (Unit {0})
guard b = if b then some tt else none

abbrev pub non_empty : CStr × CStr → Option (CStr × CStr)
non_empty ([], rest) = none
non_empty (c ∷ s, rest) = some (c ∷ s, rest)

-- The set of "%[^',']" has the quote beside the comma.
abbrev pub is_separator : ℕ → Bool
is_separator c = c == b',' || c == b'\''

-- The longest prefix without a separator, or without a space, and the rest.
unfoldable pub until : (ℕ → Bool) → CStr → CStr × CStr
until stops [] = ([], [])
until stops (c ∷ s) =
    let (found, rest) = until stops s in if stops c then ([], c ∷ s) else (c ∷ found, rest)

-- "%[^',']", "," and "%s" of `sscanf`.
unfoldable pub field : CStr → Option (CStr × CStr)
field s = non_empty (until is_separator s)

unfoldable pub comma : CStr → Option CStr
comma [] = none
comma (c ∷ s) = if c == b',' then some s else none

unfoldable pub word : CStr → Option (CStr × CStr)
word s = non_empty (until is_space (skip_space s))

-- The string that stands in an array.
unfoldable pub string_in : List ℕ → Option CStr
string_in [] = none
string_in (b ∷ bs) =
    let rest = string_in bs in if b == 0 then some [] else (do s ← rest; some (b ∷ s))

-- `strncpy (array, s, strlen (s))`, which writes no NUL, and the string in the array afterwards.
unfoldable pub copied : CStr → List ℕ → Option CStr
copied s array = do guard (leb (length s) (length array)); string_in (s ++ drop (length s) array)

-- The arrays of the `send_params_t` that `malloc` gives, with what they held before.
pub record Memory : Type 0 where
  pub destip : List ℕ
  pub filename : List ℕ
  pub msg : List ℕ

-- The params of the message, from the string that a process sent.
unfoldable pub get_send_params : Memory → CStr → Option SendParams
get_send_params sp str = do
  (dstip, s1) ← field str
  (dstport, s2) ← (do field (← comma s1))
  (msg, s3) ← (do field (← comma s2))
  (filename, s4) ← (do field (← comma s3))
  (flag, _) ← (do word (← comma s4))
  guard (fits maxline dstip)
  guard (fits ip_len dstport)
  guard (fits maxline msg)
  guard (fits maxline filename)
  guard (fits ip_len flag)
  sp_destip ← copied dstip sp.destip
  sp_msg ← copied msg sp.msg
  sp_filename ← copied filename sp.filename
  destport ← atoi dstport
  route_disc_flag ← atoi flag
  some (record {
    destip = sp_destip;
    filename = sp_filename;
    msg = sp_msg;
    destport = destport;
    route_disc_flag = route_disc_flag;
  })

-- "%s,%d,%s,%s,%d\n".
abbrev pub message_text : CStr → ℕ → CStr → CStr → ℕ → CStr
message_text destip destport msg tempfile route_disc_flag =
    destip
    ++ (b','
        ∷ (print_int destport
            ++ (b','
                ∷ (msg
                    ++ (b','
                        ∷ (tempfile ++ (b',' ∷ (print_int route_disc_flag ++ (b'\n' ∷ [])))))))))

-- The datagram that `msg_send` sends to the daemon.
unfoldable pub msg_send : CStr → ℕ → CStr → ℕ → CStr → Option CStr
msg_send destip destport msg route_disc_flag tempfile = do
  let str_seq = message_text destip destport msg tempfile route_disc_flag
  guard (fits maxline str_seq)
  some str_seq

-- The address, the port and the message that `msg_recv` reads from the daemon's datagram.
unfoldable pub msg_recv : CStr → Option (CStr × (ℕ × CStr))
msg_recv buff = do
  (ip, s1) ← field buff
  (port, s2) ← (do field (← comma s1))
  (msg, s3) ← (do field (← comma s2))
  (flag, _) ← (do word (← comma s3))
  guard (fits ip_len ip)
  guard (fits 10 port)
  guard (fits maxline msg)
  guard (fits 2 flag)
  destport ← atoi port
  some (ip, (destport, msg))
