-- ===== src/Wire/Decimal.antt =====
-- `sprintf` with `%d`, and `atoi`, over bytes.
use gproxy.Common.{
  ℕ, zero, suc, ◌+◌, ◌-◌, ◌*◌, ◌/◌, ◌%◌, ◌^◌, ◌<◌, ◌≤◌, ◌≡◌, refl, Bool, true, false, ◌&&◌, ◌||◌,
  List, [], ◌∷◌, ◌++◌, arith, ltb, leb, ◌==◌, if◌then◌else◌, Bool-cases, inl, inr, ap, sym, ◌∙◌,
}
use native.Mathlib.Numerals.{add-one}
use native.Mathlib.Nat.{pow-suc}
use gproxy.Common.Int.{ℤ, pos, negsuc}

-- The digits of a number, in front of what follows; the fuel bounds their number.
unfoldable pub print_digits : ℕ → ℕ → List ℕ → List ℕ
print_digits zero n rest = rest
print_digits (suc fuel) n rest =
    let more = print_digits fuel (n / 10) ((b'0' + n % 10) ∷ rest) in
    if ltb n 10 then (b'0' + n) ∷ rest else more

-- Ten digits are enough for an `int`.
unfoldable pub print_int : ℤ → List ℕ → List ℕ
print_int (pos n) rest = print_digits 10 n rest
print_int (negsuc n) rest = b'-' ∷ print_digits 10 (n + 1) rest

abbrev pub is_digit : ℕ → Bool
is_digit c = leb b'0' c && leb c b'9'

unfoldable pub parse_digits : ℕ → List ℕ → ℕ
parse_digits acc [] = acc
parse_digits acc (c ∷ cs) =
    let more = parse_digits (acc * 10 + (c - b'0')) cs in if is_digit c then more else acc

abbrev pub is_space : ℕ → Bool
is_space c = (c == b' ') || (leb 9 c && leb c 13)

abbrev pub negate : ℕ → ℤ
negate zero = pos 0
negate (suc n) = negsuc n

-- `strtol` in base 10, before it is held to the values of a `long`
unfoldable pub read_number : List ℕ → ℤ
read_number [] = pos 0
read_number (c ∷ cs) =
    let skipped = read_number cs in
    if is_space c
    then skipped
    else if c == b'-'
    then negate (parse_digits 0 cs)
    else if c == b'+'
    then pos (parse_digits 0 cs)
    else pos (parse_digits 0 (c ∷ cs))

-- `strtol` stops at `LONG_MIN` and `LONG_MAX`.
abbrev pub to_long : ℤ → ℤ
to_long (pos n) = pos (if ltb n (2 ^ 63) then n else 2 ^ 63 - 1)
to_long (negsuc n) = negsuc (if ltb n (2 ^ 63) then n else 2 ^ 63 - 1)

-- The conversions between `int` and `uint32_t`.
abbrev pub to_int : ℕ → ℤ
to_int w = if ltb w (2 ^ 31) then pos w else negsuc (2 ^ 32 - w - 1)

abbrev pub to_uint : ℤ → ℕ
to_uint (pos n) = n % 2 ^ 32
to_uint (negsuc n) = 2 ^ 32 - 1 - n % 2 ^ 32

-- `atoi`, which is `(int) strtol(text, NULL, 10)`: the low 32 bits of the `long`.
unfoldable pub atoi : List ℕ → ℤ
atoi text = to_int (to_uint (to_long (read_number text)))

-- the values of an `int`
abbrev pub IsInt : ℤ → Type 0
IsInt (pos n) = n < 2 ^ 31
IsInt (negsuc n) = n < 2 ^ 31

print_digits-append :
    (fuel n : ℕ) (rest more : List ℕ)
    → print_digits fuel n rest ++ more ≡ print_digits fuel n (rest ++ more)
unfolding print_digits
print_digits-append zero n rest more = refl
print_digits-append (suc fuel) n rest more = elim (Bool-cases (ltb n 10)) [
  | inl one ↦ rw one
  | inr many ↦ rw many (print_digits-append fuel (n / 10) ((b'0' + n % 10) ∷ rest) more)
]

pub print_int-append :
    (z : ℤ) (rest more : List ℕ) → print_int z rest ++ more ≡ print_int z (rest ++ more)
unfolding print_int
print_int-append (pos n) rest more = print_digits-append 10 n rest more
print_int-append (negsuc n) rest more =
    ap (λ l. b'-' ∷ l) (print_digits-append 10 (n + 1) rest more)

-- The text starts with no digit.
abbrev pub Stops : List ℕ → Type 0
Stops [] = Unit {0}
Stops (c ∷ cs) = is_digit c ≡ false

parse_digits-stop : (acc : ℕ) (rest : List ℕ) → Stops rest → parse_digits acc rest ≡ acc
unfolding parse_digits
parse_digits-stop acc [] s = refl
parse_digits-stop acc (c ∷ cs) s = rw s

-- one digit read
parse_digits-digit :
    (acc d : ℕ) (rest : List ℕ)
    → d < 10
    → parse_digits acc ((b'0' + d) ∷ rest) ≡ parse_digits (acc * 10 + d) rest
unfolding parse_digits
parse_digits-digit acc d rest lt =
    let e : is_digit (b'0' + d) ≡ true = ground arith in
    let e' : acc * 10 + (b'0' + d - b'0') ≡ acc * 10 + d = omega arith in rw (e, e')

-- The digits of `n` take what was read before to a multiple of it plus `n`.
parse-print_digits :
    (fuel n : ℕ) (rest : List ℕ)
    → n < 10 ^ fuel
    → 0 < fuel
    → (k : ℕ) × ((acc : ℕ)
        → parse_digits acc (print_digits fuel n rest) ≡ parse_digits (acc * k + n) rest)
unfolding print_digits
parse-print_digits zero n rest lt p = absurd (omega arith)
parse-print_digits (suc fuel) n rest lt p = elim (Bool-cases (ltb n 10)) [
  | inl one ↦ (10, λ acc. rw one (parse_digits-digit acc n rest (ground arith)))
  | inr more ↦
      let big : 10 ≤ n = ground arith in
      let (k, ih) =
        parse-print_digits fuel (n / 10) ((b'0' + n % 10) ∷ rest) (omega (arith, pow-suc 10 fuel))
          (fuel_left fuel n lt big) in
      (
        k * 10,
        λ acc. rw more (
            ih acc
            ∙ parse_digits-digit (acc * k + n / 10) (n % 10) rest (omega arith)
            ∙ ap (λ m. parse_digits m rest) (split acc k n)),
      )
]
  where
    split : (acc k n : ℕ) → (acc * k + n / 10) * 10 + n % 10 ≡ acc * (k * 10) + n
    split acc k n = omega arith

    fuel_left : (fuel n : ℕ) → n < 10 ^ suc fuel → 10 ≤ n → 0 < fuel
    fuel_left zero n lt big = absurd (omega arith)
    fuel_left (suc fuel) n lt big = omega arith

parse-print :
    (n : ℕ) (rest : List ℕ) → n < 10 ^ 10 → Stops rest → parse_digits 0 (print_digits 10 n rest) ≡ n
parse-print n rest lt stop =
    let (k, read) = parse-print_digits 10 n rest lt (omega arith) in
    read 0 ∙ parse_digits-stop (0 * k + n) rest stop ∙ omega arith

-- The text of a number begins with a digit.
record Head (text : List ℕ) : Type 0 where
  digit : ℕ
  more : List ℕ
  split : text ≡ digit ∷ more
  range : (b'0' ≤ digit) × (digit ≤ b'9')

print_digits-Head : (fuel n : ℕ) (rest : List ℕ) → Head (print_digits (suc fuel) n rest)
unfolding print_digits
print_digits-Head zero n rest = elim (Bool-cases (ltb n 10)) [
  | inl one ↦ record { digit = b'0' + n; more = rest; split = rw one; range = ground arith }
  | inr more ↦ record { digit = b'0' + n % 10; more = rest; split = rw more; range = omega arith }
]
print_digits-Head (suc fuel) n rest = elim (Bool-cases (ltb n 10)) [
  | inl one ↦ record { digit = b'0' + n; more = rest; split = rw one; range = ground arith }
  | inr more ↦
      let h = print_digits-Head fuel (n / 10) ((b'0' + n % 10) ∷ rest) in
      record { digit = h.digit; more = h.more; split = rw more h.split; range = h.range }
]

read_number-digit :
    (d : ℕ) (cs : List ℕ)
    → b'0' ≤ d
    → d ≤ b'9'
    → read_number (d ∷ cs) ≡ pos (parse_digits 0 (d ∷ cs))
unfolding read_number
read_number-digit d cs lo hi = ground arith

read_number-minus : (cs : List ℕ) → read_number (b'-' ∷ cs) ≡ negate (parse_digits 0 cs)
unfolding read_number
read_number-minus cs = refl

negate-suc : (n : ℕ) → negate (n + 1) ≡ negsuc n
negate-suc n = rw add-one

read_number-print_int :
    (z : ℤ) (rest : List ℕ) → Stops rest → IsInt z → read_number (print_int z rest) ≡ z
unfolding print_int
read_number-print_int (pos n) rest stop i =
    let h = print_digits-Head 9 n rest in
    rw h.split (read_number-digit h.digit h.more h.range.0 h.range.1)
    ∙ ap (λ t. pos (parse_digits 0 t)) (sym h.split)
    ∙ ap pos (parse-print n rest (omega arith) stop)
read_number-print_int (negsuc n) rest stop i =
    read_number-minus (print_digits 10 (n + 1) rest)
    ∙ ap negate (parse-print (n + 1) rest (omega arith) stop)
    ∙ negate-suc n

-- A value of an `int` goes through the conversions as it is.
to_int-to_uint-to_long : (z : ℤ) → IsInt z → to_int (to_uint (to_long z)) ≡ z
to_int-to_uint-to_long (pos n) i =
    let long : ltb n (2 ^ 63) ≡ true = ground arith in
    let low : n % 2 ^ 32 ≡ n = omega arith in
    let int : ltb n (2 ^ 31) ≡ true = ground arith in rw (long, low, int)
to_int-to_uint-to_long (negsuc n) i =
    let long : ltb n (2 ^ 63) ≡ true = ground arith in
    let low : n % 2 ^ 32 ≡ n = omega arith in
    let int : ltb (2 ^ 32 - 1 - n) (2 ^ 31) ≡ false = ground arith in
    let back : 2 ^ 32 - (2 ^ 32 - 1 - n) - 1 ≡ n = omega arith in rw (long, low, int, back)

-- `atoi` reads back what `sprintf` has printed of an `int`, if no digit follows.
pub atoi-print_int : (z : ℤ) (rest : List ℕ) → Stops rest → IsInt z → atoi (print_int z rest) ≡ z
unfolding atoi
atoi-print_int z rest stop i =
    ap (λ y. to_int (to_uint (to_long y))) (read_number-print_int z rest stop i)
    ∙ to_int-to_uint-to_long z i
