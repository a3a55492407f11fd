-- ===== src/Message/Room.antt =====
-- When the text of a message fits into its array.
use on_demand_routing.Base.{
  ℕ, ◌+◌, ◌<◌, ◌≡◌, true, CStr, length, length-append, fits, lt→ltb, arith,
}
use on_demand_routing.Word.{word_mod}
use on_demand_routing.Decimal.{print_int}
use on_demand_routing.Decimal.Numbers.{length-print_int}
use on_demand_routing.Message.{maxline, message_text}

length-message_text :
    (destip msg tempfile : CStr) (destport flag : ℕ)
    → length (message_text destip destport msg tempfile flag)
      ≡ length destip
        + length (print_int destport)
        + length msg
        + length tempfile
        + length (print_int flag)
        + 5
length-message_text destip msg tempfile destport flag = simp length-append (omega arith)

pub message_text-fits :
    (destip msg tempfile : CStr) (destport flag : ℕ)
    → destport < word_mod
    → flag < word_mod
    → length destip + length msg + length tempfile < 4069
    → fits maxline (message_text destip destport msg tempfile flag) ≡ true
message_text-fits destip msg tempfile destport flag p f h = lt→ltb _ _ (
    omega (
      arith,
      h,
      length-message_text destip msg tempfile destport flag,
      length-print_int destport p,
      length-print_int flag f,
    ))
