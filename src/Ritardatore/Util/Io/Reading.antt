-- ===== src/Ritardatore/Util/Io/Reading.antt =====
-- `Readn`: what has been read when it ends.
use gproxy.Common.{
  ℕ, zero, suc, ◌-◌, ◌≤◌, ◌<◌, ◌≡◌, refl, ap, sym, ◌∙◌, ◌⊎◌, inl, inr, Bool, true, false, List, [],
  ◌∷◌, ◌++◌, length, take, drop, arith, Bool-cases, ◌==◌, length-append,
}
use mathlib.Core.Path.{subst}
use gproxy.Common.{Used, Used-none, Used-more}
use mathlib.Core.List.{append_assoc, append-nil}
use gproxy.Common.Int.{ℤ, pos, negsuc}
use gproxy.Common.Outcome.Ends.{Ends, ends, waits, Ends-mono}
use gproxy.Ritardatore.Util.Io.{ReadAnswer, gives, Connection, minimum, read_loop, readn}

-- no error in the script but interruptions
unfoldable pub clean : List ReadAnswer → Bool
clean [] = true
clean (gives n ∷ rest) = clean rest
clean (ReadAnswer.interrupted ∷ rest) = clean rest
clean (ReadAnswer.failed ∷ rest) = false

-- These bytes were the next to come, and nothing but the input has changed.
pub record Took (s : Connection) (bytes : List ℕ) (t : Connection) : Type 0 where
  pub split : bytes ++ t.incoming ≡ s.incoming
  pub same : t ≡ record s { reads = t.reads; incoming = t.incoming }
  pub clean : clean s.reads ≡ true → clean t.reads ≡ true

-- an error ends the read
abbrev pub goes_on : ReadAnswer → Bool
goes_on (gives n) = true
goes_on ReadAnswer.interrupted = true
goes_on ReadAnswer.failed = false

-- what is left of the answers with a result: behind -1 the first error, behind another no error
abbrev pub left_with : ℤ → List ReadAnswer → List ReadAnswer
left_with (pos n) rest = rest
left_with (negsuc n) rest = ReadAnswer.failed ∷ rest

-- How a read of `left` bytes more ends, with the result `n` when it has got them: the bytes it has
-- got by then were the next to come. It returns 0 at the end of the input, with fewer bytes, and
-- -1 after an error.
pub record Result (n left : ℕ) (s : Connection) (r : ℤ) (bytes : List ℕ) (t : Connection)
    : Type 0 where
  pub took : Took s bytes t
  pub result :
      ((r ≡ pos n) × (length bytes ≡ left))
      ⊎ (((r ≡ pos 0) × (length bytes < left) × (t.incoming ≡ []))
          ⊎ ((r ≡ negsuc 0) × (clean s.reads ≡ false)))
  pub answers : Used goes_on s.reads (left_with r t.reads)

length-take : {A : Type 0} (n : ℕ) (xs : List A) → length (take n xs) ≤ n
length-take zero xs = omega arith
length-take (suc n) [] = omega arith
length-take (suc n) (x ∷ xs) = omega (arith, length-take n xs)

take-none : {A : Type 0} (n : ℕ) (xs : List A) → 0 < n → length (take n xs) ≡ 0 → xs ≡ []
take-none n [] lt e = refl
take-none zero (x ∷ xs) lt e = absurd (omega arith)
take-none (suc n) (x ∷ xs) lt e = absurd (omega arith)

minimum-le : (n m : ℕ) → (minimum (suc n) (suc m) ≤ suc m) × (0 < minimum (suc n) (suc m))
minimum-le n m = ground arith

take-behind : {A : Type 0} (n : ℕ) (xs : List A) → take n xs ++ drop (length (take n xs)) xs ≡ xs
take-behind zero xs = refl
take-behind (suc n) [] = refl
take-behind (suc n) (x ∷ xs) = ap (λ l. x ∷ l) (take-behind n xs)

-- the same connection with these answers to come
abbrev at : Connection → List ReadAnswer → Connection
at s script = record s { reads = script }

Took-nothing :
    (s : Connection) (script rest : List ReadAnswer)
    → (clean script ≡ true → clean rest ≡ true)
    → Took (at s script) [] (at s rest)
Took-nothing s script rest keeps = record { split = refl; same = refl; clean = keeps }

-- Behind a chunk that was read.
Took-more :
    (s : Connection) (k m : ℕ) (script : List ReadAnswer) {bytes : List ℕ} {t : Connection}
    → Took
        (at (record s { incoming = drop (length (take m s.incoming)) s.incoming }) script)
        bytes
        t
    → Took (at s (gives k ∷ script)) (take m s.incoming ++ bytes) t
unfolding clean
Took-more s k m script {bytes} {t} took = record {
  split =
      append_assoc (take m s.incoming) bytes t.incoming
      ∙ ap (λ l. take m s.incoming ++ l) took.split
      ∙ take-behind m s.incoming;
  same = took.same;
  clean = took.clean;
}

-- What the loop returns, with what it had got before.
abbrev Looped : ℕ → ℕ → Connection → List ℕ → ℤ × List ℕ → Connection → Type 0
Looped n left s got result t =
    (bytes : List ℕ) × (result.1 ≡ got ++ bytes) × Result n left s result.0 bytes t

abbrev pub Waited : Connection → Connection → Type 0
Waited s t = (bytes : List ℕ) × Took s bytes t × Used goes_on s.reads [] × (t.reads ≡ [])

-- The result of the rest of a read, told of the whole.
with_chunk :
    {r : ℤ} {n : ℕ} {incoming : List ℕ} {c : Bool} (chunk bytes : List ℕ) (left : ℕ)
    → length chunk ≤ suc left
    → ((r ≡ pos n) × (length bytes ≡ suc left - length chunk))
      ⊎ (((r ≡ pos 0) × (length bytes < suc left - length chunk) × (incoming ≡ []))
          ⊎ ((r ≡ negsuc 0) × (c ≡ false)))
    → ((r ≡ pos n) × (length (chunk ++ bytes) ≡ suc left))
      ⊎ (((r ≡ pos 0) × (length (chunk ++ bytes) < suc left) × (incoming ≡ []))
          ⊎ ((r ≡ negsuc 0) × (c ≡ false)))
with_chunk chunk bytes left le result = elim result [
  | inl (e, len) ↦ inl (e, omega (arith, length-append chunk bytes))
  | inr (inl (e, less, over)) ↦ inr (inl (e, omega (arith, length-append chunk bytes), over))
  | inr (inr error) ↦ inr (inr error)
]

read_loop-Ends :
    (n : ℕ) (script : List ReadAnswer) (left : ℕ) (got : List ℕ) (s : Connection)
    → Ends
        (Looped n left (at s script) got)
        (λ _ _. ⊥)
        (Waited (at s script))
        (read_loop n script left got s)
unfolding read_loop clean
read_loop-Ends n script zero got s = ends (
  [],
  sym (append-nil got),
  record {
    took = Took-nothing s script script (λ c. c);
    result = inl (refl, refl);
    answers = Used-none script;
  },
)
read_loop-Ends n [] (suc left) got s = waits ([], Took-nothing s [] [] (λ c. c), Used-none [], refl)
read_loop-Ends n (ReadAnswer.interrupted ∷ script) (suc left) got s =
    Ends-mono (read_loop-Ends n script (suc left) got s)
      (λ r t (bytes, e, result). (
        bytes,
        e,
        record {
          took = record {
            split = result.took.split;
            same = result.took.same;
            clean = result.took.clean;
          };
          result = result.result;
          answers = Used-more refl result.answers;
        },
      ))
      (λ _ _ no. no)
      (λ t (bytes, took, used, over). (
        bytes,
        record { split = took.split; same = took.same; clean = took.clean },
        Used-more refl used,
        over,
      ))
read_loop-Ends n (ReadAnswer.failed ∷ script) (suc left) got s = ends (
  [],
  sym (append-nil got),
  record {
    took = Took-nothing s (ReadAnswer.failed ∷ script) script (λ c. absurd (cc));
    result = inr (inr (refl, refl));
    answers = Used-none _;
  },
)
read_loop-Ends n (gives k ∷ script) (suc left) got s =
    let m = minimum (suc k) (suc left) in
    let chunk = take m s.incoming in
    let (most, some) = minimum-le k left in
    elim (Bool-cases (length chunk == 0)) [
      | inl none_left ↦ rw none_left (
          ends (
            [],
            sym (append-nil got),
            record {
              took = Took-nothing s (gives k ∷ script) script (λ c. c);
              result = inr (inl (refl, omega arith, take-none m s.incoming some (ground arith)));
              answers = Used-more refl (Used-none script);
            },
          ))
      | inr more ↦ rw more (
          Ends-mono
            (read_loop-Ends n script (suc left - length chunk) (got ++ chunk)
              (record s { incoming = drop (length chunk) s.incoming }))
            (λ r t (bytes, e, result). (
              chunk ++ bytes,
              e ∙ append_assoc got chunk bytes,
              record {
                took = Took-more s k m script result.took;
                result =
                    with_chunk chunk bytes left (omega (arith, length-take m s.incoming, most))
                      result.result;
                answers = Used-more refl result.answers;
              },
            ))
            (λ _ _ no. no)
            (λ t (bytes, took, used, over).
              (chunk ++ bytes, Took-more s k m script took, Used-more refl used, over)))
    ]

-- `Readn` returns the number of bytes that it was asked for when it has got that many, 0 when the
-- input has ended before, in both cases with no error among the answers of `read` so far; -1 at the
-- first error; or it waits for ever behind the last answer, with no error among them. What it has
-- got are the bytes that were next to come, in order, and no others are taken.
pub readn-Result :
    (nbytes : ℕ) (s : Connection)
    → Ends
        (λ result. Result nbytes nbytes s result.0 result.1)
        (λ _ _. ⊥)
        (Waited s)
        (readn nbytes s)
unfolding readn
readn-Result nbytes s =
    Ends-mono (read_loop-Ends nbytes s.reads nbytes [] s)
      (λ r t (bytes, e, result). subst (λ l. Result nbytes nbytes s r.0 l t) (sym e) result)
      (λ _ _ no. no) (λ t waited. waited)
