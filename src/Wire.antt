-- ===== src/Wire.antt =====
-- What both proxies put on the wire: byte order, the ack's decimal text, the constants of
-- src/include/globalUtils.c, and the standard library's functions for them, on a little-endian host.
pub mod Decimal
pub mod Ack
use gproxy.Common.{
  ℕ, zero, suc, ◌+◌, ◌-◌, ◌*◌, ◌/◌, ◌%◌, ◌^◌, Bool, true, false, not, ◌&&◌, Option, none, some,
  List, [], ◌∷◌, ◌++◌, ltb, leb, ◌==◌, if◌then◌else◌,
}
use Decimal.{print_int, atoi, to_int, to_uint}
use gproxy.Common.Int.{ℤ, pos, negsuc}

-- `IP_ADDR_STRLEN`
abbrev pub ip_addr_strlen : ℕ
ip_addr_strlen = 16

abbrev pub header_size : ℕ
header_size = 5

-- `'B'` and `'I'`
abbrev pub body_type : ℕ
body_type = b'B'

-- `endingBody`, with its final NUL
abbrev pub ending_body : List ℕ
ending_body =
    b'i' ∷ b'n' ∷ b'a' ∷ b'n' ∷ b'i' ∷ b's' ∷ b'o' ∷ b'n' ∷ b'o' ∷ b'b' ∷ b'l' ∷ b'u' ∷ 0 ∷ []

-- The four bytes in the other order: `htonl` and `ntohl`.
unfoldable pub htonl : ℕ → ℕ
htonl x = x % 256 * 2 ^ 24 + x / 256 % 256 * 2 ^ 16 + x / 2 ^ 16 % 256 * 256 + x / 2 ^ 24 % 256

unfoldable pub ntohl : ℕ → ℕ
unfolding htonl
ntohl x = htonl x

-- A result of `getSocketAddress`, with what it leaves in `sharedError`.
pub record Address : Type 0 where
  pub host : Option ℕ  -- the parsed address; `none` leaves zeros
  pub port : ℕ

-- `host` is what `inet_aton` makes of the text, `none` if it is no address.
unfoldable pub get_socket_address : Option ℕ → ℕ → Address × Bool
get_socket_address host port =
    let shared_error : Bool = elim host [ none ↦ true | some a ↦ false ] in
    let shared_error = false in (record { host = host; port = port % 2 ^ 16 }, shared_error)

-- The text that `ackPkt` writes for an id with `sprintf(ack.body, "%d%c", htonl(id), '\0')`: two
-- NULs, and behind them what the stack held.
unfoldable pub ack_body : ℕ → List ℕ → List ℕ
ack_body id stack = print_int (to_int (htonl id)) (0 ∷ 0 ∷ stack)

-- `ntohl(atoi(currentAck.body))`
unfoldable pub acked_id : List ℕ → ℕ
acked_id body = ntohl (to_uint (atoi body))
