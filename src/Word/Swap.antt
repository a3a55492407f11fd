-- ===== src/Word/Swap.antt =====
-- `htonl` and `ntohl` on a little-endian host: the four bytes in reverse order.
use on_demand_routing.Base.{ℕ, ◌+◌, ◌*◌, ◌/◌, ◌%◌, ◌^◌, ◌≡◌, refl, arith}
use on_demand_routing.Word.{IsWord}

unfoldable pub htonl : ℕ → ℕ
htonl x = x % 256 * 2 ^ 24 + x / 2 ^ 8 % 256 * 2 ^ 16 + x / 2 ^ 16 % 256 * 2 ^ 8 + x / 2 ^ 24 % 256

unfoldable pub ntohl : ℕ → ℕ
unfolding htonl
ntohl x = htonl x

pub htonl-IsWord : (x : ℕ) → IsWord (htonl x)
unfolding htonl
htonl-IsWord x = omega arith

pub ntohl-htonl : (x : ℕ) → IsWord x → ntohl (htonl x) ≡ x
unfolding ntohl htonl
ntohl-htonl x h = omega arith

htonl_bytes : htonl 0x0102_0304 ≡ 0x0403_0201
unfolding htonl
htonl_bytes = refl
