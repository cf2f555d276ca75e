-- ===== src/Wire/Ack.antt =====
-- The ack's text brings the id back.
use gproxy.Common.{ℕ, ◌^◌, ◌<◌, ◌≡◌, refl, List, ◌∷◌, ◌++◌, arith, ap, ◌∙◌}
use gproxy.Wire.Decimal.{IsInt, atoi-print_int, print_int-append, to_int, to_uint}
use gproxy.Wire.{htonl, ntohl, ack_body, acked_id}

-- Swapping the bytes twice gives the number back, and every result fits a word.
pub ntohl-htonl : (x : ℕ) → x < 2 ^ 32 → (ntohl (htonl x) ≡ x) × (htonl x < 2 ^ 32)
unfolding ntohl
ntohl-htonl x lt = omega arith

to_int-IsInt : (w : ℕ) → w < 2 ^ 32 → IsInt (to_int w)
to_int-IsInt w lt = ground arith

to_uint-to_int : (w : ℕ) → w < 2 ^ 32 → to_uint (to_int w) ≡ w
to_uint-to_int w lt = ground arith

-- What stands behind an ack's text is part of what the stack held.
pub ack_body-append :
    (id : ℕ) (stack more : List ℕ) → ack_body id stack ++ more ≡ ack_body id (stack ++ more)
unfolding ack_body
ack_body-append id stack more = print_int-append (to_int (htonl id)) (0 ∷ 0 ∷ stack) more

-- For an id that fits a word, what the psender reads from an ack's text is the id that the preceiver has put there, whatever
-- the stack held behind it.
pub acked_id-ack_body : (id : ℕ) (stack : List ℕ) → id < 2 ^ 32 → acked_id (ack_body id stack) ≡ id
unfolding acked_id ack_body
acked_id-ack_body id stack lt =
    let (back, word) = ntohl-htonl id lt in
    ap (λ z. ntohl (to_uint z))
      (atoi-print_int (to_int (htonl id)) (0 ∷ 0 ∷ stack) refl (to_int-IsInt (htonl id) word))
    ∙ ap ntohl (to_uint-to_int (htonl id) word)
    ∙ back
