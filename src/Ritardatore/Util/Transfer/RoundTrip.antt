-- ===== src/Ritardatore/Util/Transfer/RoundTrip.antt =====
-- What the one thread sends, the other accepts.
use gproxy.Common.{
  ℕ, zero, suc, ◌^◌, ◌<◌, ◌≡◌, refl, ap, sym, ◌∙◌, inl, inr, true, false, List, [], ◌++◌, length,
  length-append, append-cancel, some, arith, ◌==◌,
}
use mathlib.Core.Path.{subst}
use mathlib.Core.List.{append_assoc, append-nil}
use gproxy.Common.Outcome.{ok, Cmd, and_then}
use gproxy.Common.Outcome.Exits.{require}
use gproxy.Common.Outcome.Ends.{Ends, ends, exits, Ends-mono, Ends-bind, Ends-ok}
use gproxy.Wire.{htonl, ntohl}
use gproxy.Wire.Ack.{ntohl-htonl}
use gproxy.Ritardatore.Util.Io.{Connection, writen, readn}
use gproxy.Ritardatore.Util.Io.Writing.{Wrote, WrotePart, Cut-WrotePart, writen-Result}
use gproxy.Ritardatore.Util.Io.Reading.{clean, readn-Result}
use gproxy.Ritardatore.Util.Vector.{inizializza, sommavet, sommavet-inizializza}
use gproxy.Ritardatore.Util.Transfer.{
  lenvet, numvolte, word_bytes, word_of, is_count, write_rounds, thread_for_write, read_rounds,
  thread_for_read,
}

-- what stands on the connection: the sum in network order, and the vector
abbrev frame : ℕ → List ℕ → List ℕ
frame sum buf = word_bytes (htonl sum) ++ buf

pub frames : ℕ → (sum : ℕ) (buf : List ℕ) → List ℕ
frames zero sum buf = []
frames (suc n) sum buf = frame sum buf ++ frames n sum buf

Wrote-append :
    (s : Connection) (xs ys : List ℕ) (t u : Connection)
    → Wrote s xs t
    → Wrote t ys u
    → Wrote s (xs ++ ys) u
Wrote-append s xs ys t u w w' =
    w'
    ∙ ap (λ (v : Connection). record v { sends = u.sends; taken = v.taken ++ ys }) w
    ∙ ap (λ (l : List ℕ). record s { sends = u.sends; taken = l }) (append_assoc s.taken xs ys)

WrotePart-append :
    (s : Connection) (xs ys : List ℕ) (t u : Connection)
    → Wrote s xs t
    → WrotePart t ys u
    → WrotePart s (xs ++ ys) u
WrotePart-append s xs ys t u w (done, rest, split, w') = (
  xs ++ done,
  rest,
  append_assoc xs done rest ∙ ap (λ l. xs ++ l) split,
  Wrote-append s xs done t u w w',
)

WrotePart-more :
    (s : Connection) (xs ys : List ℕ) (t : Connection) → WrotePart s xs t → WrotePart s (xs ++ ys) t
WrotePart-more s xs ys t (done, rest, split, w) =
    (done, rest ++ ys, sym (append_assoc done rest ys) ∙ ap (λ l. l ++ ys) split, w)

-- `Writen` with the check behind it, and what follows when all was written.
after_writen :
    {B : Type 0} {R : B → Connection → Type 0} {Q : ℕ → Connection → Type 0}
    {W : Connection → Type 0} (bytes : List ℕ) (m : ℕ) (s : Connection) (k : Cmd Connection B)
    → length bytes ≡ m
    → ((t : Connection) → Wrote s bytes t → Ends R Q W (k t))
    → ((n : ℕ) (t : Connection) → WrotePart s bytes t → Q n t)
    → ((t : Connection) → WrotePart s bytes t → W t)
    → Ends R Q W (and_then (writen bytes s) (λ n t. and_then (require 3 (is_count n m) t) (λ _. k)))
after_writen bytes m s k len next exit wait =
    Ends-bind
      (Ends-mono (writen-Result bytes s) (λ _ _ r. r)
        (λ n t (e, cut, met). exit n t (Cut-WrotePart s bytes t cut))
        (λ t (cut, used, over). wait t (Cut-WrotePart s bytes t cut)))
      λ r t result. elim result [
        | inl (e, wrote, used) ↦
            let all : is_count r m ≡ true = ap (λ n. is_count n m) e ∙ ground arith in
            rw all (next t wrote)
        | inr (e, cut, a, stops, met) ↦
            let short : is_count r m ≡ false = ap (λ n. is_count n m) e in
            rw short (exits (exit 3 t (Cut-WrotePart s bytes t cut)))
      ]

word_bytes-length : (w : ℕ) → length (word_bytes w) ≡ 4
unfolding word_bytes
word_bytes-length w = refl

write_rounds-frames :
    (n sum : ℕ) (buf : List ℕ) (s : Connection)
    → length buf ≡ lenvet
    → Ends
        (λ _. Wrote s (frames n sum buf))
        (λ _. WrotePart s (frames n sum buf))
        (WrotePart s (frames n sum buf))
        (write_rounds n sum buf s)
unfolding write_rounds frames
write_rounds-frames zero sum buf s len =
    ends (ap (λ (l : List ℕ). record s { taken = l }) (sym (append-nil s.taken)))
write_rounds-frames (suc n) sum buf s len =
    let word = word_bytes (htonl sum) in
    let later = frames n sum buf in
    after_writen word 4 s _ (word_bytes-length (htonl sum))
      (λ t w.
        after_writen buf lenvet t _ len
          (λ u w'.
            let both = Wrote-append s word buf t u w w' in
            Ends-mono (write_rounds-frames n sum buf u len)
              (λ _ v w''. Wrote-append s (frame sum buf) later u v both w'')
              (λ _ v p. WrotePart-append s (frame sum buf) later u v both p)
              (λ v p. WrotePart-append s (frame sum buf) later u v both p))
          (λ _ u p. WrotePart-more s (frame sum buf) later u (WrotePart-append s word buf t u w p))
          (λ u p. WrotePart-more s (frame sum buf) later u (WrotePart-append s word buf t u w p)))
      (λ _ t p. WrotePart-more s (frame sum buf) later t (WrotePart-more s word buf t p))
      (λ t p. WrotePart-more s (frame sum buf) later t (WrotePart-more s word buf t p))

-- what `thread_For_Write` sends in all
abbrev pub sent_by : (draws : ℕ → ℕ) → List ℕ
sent_by draws = frames numvolte (inizializza draws lenvet).1 (inizializza draws lenvet).0

-- `thread_For_Write`, with both its allocations, either returns 1 and has sent the sum and the
-- vector a hundred times, or ends or waits after a first part of that.
thread_for_write-frames :
    (draws : ℕ → ℕ) (s : Connection)
    → Ends
        (λ r t. (r ≡ some 1) × Wrote s (sent_by draws) t)
        (λ _. WrotePart s (sent_by draws))
        (WrotePart s (sent_by draws))
        (thread_for_write true true draws s)
unfolding thread_for_write
thread_for_write-frames draws s =
    Ends-bind
      (write_rounds-frames numvolte _ (inizializza draws lenvet).0 s
        (sommavet-inizializza draws lenvet).1)
      (λ _ t w. ends (refl, w))

word_of-word_bytes : (w : ℕ) → w < 2 ^ 32 → word_of (word_bytes w) ≡ w
unfolding word_of word_bytes
word_of-word_bytes w lt = omega arith

-- `Readn` with the check behind it, when the bytes are to come and no read fails.
after_readn :
    {B : Type 0} {R : B → Connection → Type 0} {W : Connection → Type 0} (bytes rest : List ℕ)
    (m : ℕ) (s : Connection) (k : List ℕ → Cmd Connection B)
    → length bytes ≡ m
    → s.incoming ≡ bytes ++ rest
    → clean s.reads ≡ true
    → ((t : Connection)
        → t.incoming ≡ rest
        → clean t.reads ≡ true
        → Ends R (λ _ _. ⊥) W (k bytes t))
    → ((t : Connection) → W t)
    → Ends R
        (λ _ _. ⊥)
        W
        (and_then (readn m s) (λ p t. and_then (require 3 (is_count p.0 m) t) (λ _. k p.1)))
after_readn {R} {W} bytes rest m s k len e c next wait =
    Ends-bind (Ends-mono (readn-Result m s) (λ _ _ r. r) (λ _ _ no. no) (λ t _. wait t)) λ p t read.
      let split : p.1 ++ t.incoming ≡ bytes ++ rest = read.took.split ∙ e in
      elim read.result [
        | inl (count, got) ↦
            let all : is_count p.0 m ≡ true = ap (λ n. is_count n m) count ∙ ground arith in
            let same = append-cancel p.1 bytes t.incoming rest (got ∙ sym len) split in
            rw all (
              subst (λ l. Ends R (λ _ _. ⊥) W (k l t)) (sym same.0)
                (next t same.1 (read.took.clean c)))
        | inr (inl (none_read, less, over)) ↦ absurd (
            omega (
              arith,
              ap length split,
              length-append p.1 t.incoming,
              length-append bytes rest,
              ap length over,
            ))
        | inr (inr (error, dirty)) ↦ absurd (cc)
      ]

read_rounds-frames :
    (n sum : ℕ) (buf rest : List ℕ) (s : Connection)
    → length buf ≡ lenvet
    → sommavet buf ≡ sum
    → sum < 2 ^ 32
    → s.incoming ≡ frames n sum buf ++ rest
    → clean s.reads ≡ true
    → Ends (λ _ t. t.incoming ≡ rest) (λ _ _. ⊥) (λ _. Unit {0}) (read_rounds n s)
unfolding read_rounds frames
read_rounds-frames zero sum buf rest s len check lt e c = ends e
read_rounds-frames (suc n) sum buf rest s len check lt e c =
    let word = word_bytes (htonl sum) in
    let later = frames n sum buf ++ rest in
    let (back, swapped) = ntohl-htonl sum lt in
    let found : ntohl (word_of word) ≡ sum =
      ap ntohl (word_of-word_bytes (htonl sum) swapped) ∙ back in
    let test : (sommavet buf == ntohl (word_of word)) ≡ true = ground arith in
    after_readn word (buf ++ later) 4 s _ (word_bytes-length (htonl sum))
      (e ∙ append_assoc (word ++ buf) (frames n sum buf) rest ∙ append_assoc word buf later) c
      (λ t e' c'.
        after_readn buf later lenvet t _ len e' c'
          (λ u e'' c''. rw test (read_rounds-frames n sum buf rest u len check lt e'' c''))
          (λ _. tt))
      (λ _. tt)

-- With memory for both buffers of each thread: once `thread_For_Write` has returned 1 on a
-- connection that had taken nothing before, a `thread_For_Read` for which those bytes are the
-- next to come, whatever comes behind them, and whose reads do not fail, returns 1 with exactly
-- those bytes read, or waits for ever; it never exits.
pub thread_for_read-thread_for_write :
    (draws : ℕ → ℕ) (s t : Connection) (rest : List ℕ) (r : Connection)
    → s.taken ≡ []
    → thread_for_write true true draws s ≡ ok (some 1) t
    → r.incoming ≡ t.taken ++ rest
    → clean r.reads ≡ true
    → Ends
        (λ result u. (result ≡ some 1) × (u.incoming ≡ rest))
        (λ _ _. ⊥)
        (λ _. Unit {0})
        (thread_for_read true true r)
unfolding thread_for_read
thread_for_read-thread_for_write draws s t rest r empty writes comes c =
    let wrote = (Ends-ok (thread_for_write-frames draws s) writes).1 in
    let taken : t.taken ≡ sent_by draws =
      ap Connection.taken wrote ∙ ap (λ l. l ++ sent_by draws) empty in
    let vector = sommavet-inizializza draws lenvet in
    Ends-bind
      (read_rounds-frames numvolte (inizializza draws lenvet).1 (inizializza draws lenvet).0 rest r
        vector.1 vector.0 vector.2 (comes ∙ ap (λ l. l ++ rest) taken) c)
      (λ _ u e. ends (refl, e))
