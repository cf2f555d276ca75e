-- ===== src/Ritardatore/Util/Vector.antt =====
-- src/ritardatore/Util.c: the generator's seed, and vectors of digits with their sums.
use gproxy.Common.{
  ℕ, zero, suc, ◌+◌, ◌-◌, ◌%◌, ◌^◌, ◌<◌, ◌≡◌, ◌≢◌, refl, ap, sym, ◌∙◌, List, [], ◌∷◌, ◌++◌, arith,
  length, ltb, if◌then◌else◌,
}
use gproxy.Common.Int.{ℤ, pos, negsuc}
use gproxy.Wire.Decimal.{to_uint}
use gproxy.Wire.Decimal.{print_digits, print_int}

-- `init_random`: what `srandom` is given.
unfoldable pub init_random : (pid : ℕ) (seme : ℤ) → ℕ
init_random pid (negsuc n) = pid % 2 ^ 32
init_random pid (pos n) = to_uint (pos n)

-- The digit of a draw, as `random()` gives it.
abbrev pub draw : ℕ → ℕ
draw r = b'0' + r % 10

-- `n` bytes are left, and `i` is the next index.
unfoldable pub digits_loop : (draws : ℕ → ℕ) (n i sum : ℕ) → List ℕ × ℕ
digits_loop draws zero i sum = ([], sum)
digits_loop draws (suc n) i sum =
    let (buf, total) = digits_loop draws n (suc i) ((sum + (draw (draws i) - b'0')) % 2 ^ 32) in
    (draw (draws i) ∷ buf, total)

-- The buffer and the sum.
unfoldable pub inizializza : (draws : ℕ → ℕ) (len : ℕ) → List ℕ × ℕ
inizializza draws len = digits_loop draws len 0 0

-- `buf[i]` as the signed `char` that it is
abbrev pub as_char : ℕ → ℤ
as_char b = if ltb b 128 then pos b else negsuc (255 - b)

-- `buf[i] - '0'`, as it is added to an unsigned number
abbrev pub digit_value : ℕ → ℕ
digit_value b = if ltb b 128 then (2 ^ 32 + b - b'0') % 2 ^ 32 else 2 ^ 32 + b - 256 - b'0'

unfoldable pub sum_loop : List ℕ → ℕ → ℕ
sum_loop [] sum = sum
sum_loop (b ∷ buf) sum = sum_loop buf ((sum + digit_value b) % 2 ^ 32)

unfoldable pub sommavet : List ℕ → ℕ
sommavet buf = sum_loop buf 0

-- The text, in front of what follows, and the sum.
unfoldable pub print_loop : List ℕ → (sum : ℕ) → (rest : List ℕ) → List ℕ × ℕ
print_loop [] sum rest = (
  b' '
      ∷ b' '
      ∷ b' '
      ∷ b's'
      ∷ b'o'
      ∷ b'm'
      ∷ b'm'
      ∷ b'a'
      ∷ b' '
      ∷ print_digits 10 sum (b' ' ∷ 10 ∷ rest),
  sum,
)
print_loop (b ∷ buf) sum rest =
    let (text, total) = print_loop buf ((sum + digit_value b) % 2 ^ 32) rest in
    (b' ' ∷ print_int (as_char b) (b' ' ∷ text), total)

unfoldable pub stampavet : List ℕ → List ℕ → List ℕ × ℕ
stampavet buf rest = let (text, sum) = print_loop buf 0 rest in (10 ∷ text, sum)

digits_loop-sum :
    (draws : ℕ → ℕ) (n i sum : ℕ)
    → sum_loop (digits_loop draws n i sum).0 sum ≡ (digits_loop draws n i sum).1
unfolding digits_loop sum_loop
digits_loop-sum draws zero i sum = refl
digits_loop-sum draws (suc n) i sum =
    let e : digit_value (draw (draws i)) ≡ draw (draws i) - b'0' = ground arith in
    ap
      (λ v.
        sum_loop (digits_loop draws n (suc i) ((sum + (draw (draws i) - b'0')) % 2 ^ 32)).0
          ((sum + v) % 2 ^ 32))
      e
    ∙ digits_loop-sum draws n (suc i) ((sum + (draw (draws i) - b'0')) % 2 ^ 32)

digits_loop-length : (draws : ℕ → ℕ) (n i sum : ℕ) → length (digits_loop draws n i sum).0 ≡ n
unfolding digits_loop
digits_loop-length draws zero i sum = refl
digits_loop-length draws (suc n) i sum = ap suc (digits_loop-length draws n (suc i) _)

digits_loop-word :
    (draws : ℕ → ℕ) (n i sum : ℕ) → sum < 2 ^ 32 → (digits_loop draws n i sum).1 < 2 ^ 32
unfolding digits_loop
digits_loop-word draws zero i sum lt = lt
digits_loop-word draws (suc n) i sum lt = digits_loop-word draws n (suc i) _ (omega arith)

-- A vector that `inizializza` fills has the length asked for, and `sommavet` finds the sum that
-- was returned with it, a word.
pub sommavet-inizializza :
    (draws : ℕ → ℕ) (len : ℕ)
    → (sommavet (inizializza draws len).0 ≡ (inizializza draws len).1)
      × (length (inizializza draws len).0 ≡ len)
      × ((inizializza draws len).1 < 2 ^ 32)
unfolding sommavet inizializza
sommavet-inizializza draws len = (
  digits_loop-sum draws len 0 0,
  digits_loop-length draws len 0 0,
  digits_loop-word draws len 0 0 (omega arith),
)

print_loop-sum :
    (buf : List ℕ) (sum : ℕ) (rest : List ℕ) → (print_loop buf sum rest).1 ≡ sum_loop buf sum
unfolding print_loop sum_loop
print_loop-sum [] sum rest = refl
print_loop-sum (b ∷ buf) sum rest = print_loop-sum buf _ rest

sum_loop-append :
    (xs ys : List ℕ) (sum : ℕ) → sum_loop (xs ++ ys) sum ≡ sum_loop ys (sum_loop xs sum)
unfolding sum_loop
sum_loop-append [] ys sum = refl
sum_loop-append (x ∷ xs) ys sum = sum_loop-append xs ys _

sum_loop-word : (buf : List ℕ) (sum : ℕ) → sum < 2 ^ 32 → sum_loop buf sum < 2 ^ 32
unfolding sum_loop
sum_loop-word [] sum lt = lt
sum_loop-word (b ∷ buf) sum lt = sum_loop-word buf _ (omega arith)

same_start : (n m d : ℕ) → n < 2 ^ 32 → m < 2 ^ 32 → (n + d) % 2 ^ 32 ≡ (m + d) % 2 ^ 32 → n ≡ m
same_start n m d lt lt' e = omega arith

same_digit :
    (n b c : ℕ)
    → b < 256
    → c < 256
    → (n + digit_value b) % 2 ^ 32 ≡ (n + digit_value c) % 2 ^ 32
    → b ≡ c
same_digit n b c lt lt' e = ground arith

-- The sum of a vector tells the sum that it started from.
sum_loop-start :
    (buf : List ℕ) (n m : ℕ) → n < 2 ^ 32 → m < 2 ^ 32 → sum_loop buf n ≡ sum_loop buf m → n ≡ m
unfolding sum_loop
sum_loop-start [] n m lt lt' e = e
sum_loop-start (b ∷ buf) n m lt lt' e =
    let d = digit_value b in
    let next =
      sum_loop-start buf ((n + d) % 2 ^ 32) ((m + d) % 2 ^ 32) (omega arith) (omega arith) e in
    same_start n m d lt lt' next

-- `stampavet` returns the sum that `sommavet` finds.
pub stampavet-sommavet : (buf rest : List ℕ) → (stampavet buf rest).1 ≡ sommavet buf
unfolding sommavet stampavet
stampavet-sommavet buf rest = print_loop-sum buf 0 rest

same_sum :
    (xs : List ℕ) (b c : ℕ) (ys : List ℕ)
    → b < 256
    → c < 256
    → sommavet (xs ++ b ∷ ys) ≡ sommavet (xs ++ c ∷ ys)
    → b ≡ c
unfolding sommavet sum_loop
same_sum xs b c ys lt lt' e =
    let start = sum_loop xs 0 in
    let inner : sum_loop (b ∷ ys) start ≡ sum_loop (c ∷ ys) start =
      sym (sum_loop-append xs (b ∷ ys) 0) ∙ e ∙ sum_loop-append xs (c ∷ ys) 0 in
    same_digit start b c lt lt' (sum_loop-start ys _ _ (omega arith) (omega arith) inner)

-- Two vectors of bytes that differ in one place only have different sums.
pub sommavet-detects :
    (xs : List ℕ) (b c : ℕ) (ys : List ℕ)
    → b < 256
    → c < 256
    → b ≢ c
    → sommavet (xs ++ b ∷ ys) ≢ sommavet (xs ++ c ∷ ys)
sommavet-detects xs b c ys lt lt' ne e = ne (same_sum xs b c ys lt lt' e)
