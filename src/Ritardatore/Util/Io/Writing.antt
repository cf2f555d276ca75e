-- ===== src/Ritardatore/Util/Io/Writing.antt =====
-- `Writen` and `Sendn`: what the system has taken when they end.
use gproxy.Common.{
  ℕ, ◌≡◌, refl, ap, sym, ◌∙◌, ◌⊎◌, inl, inr, Bool, true, false, List, [], ◌∷◌, ◌++◌, length, take,
  drop, take-drop,
}
use gproxy.Common.{Used, Used-none, Used-more}
use mathlib.Core.List.{append_assoc, append-nil}
use gproxy.Common.Int.{ℤ, pos, negsuc}
use gproxy.Common.Outcome.Ends.{Ends, ends, exits, waits, Ends-mono}
use gproxy.Ritardatore.Util.Io.{
  SendAnswer, takes, broken_pipe, Connection, write_loop, writen, sendn,
}

-- the system has taken these bytes more, and nothing else has changed
abbrev pub Wrote : Connection → List ℕ → Connection → Type 0
Wrote s sent t = t ≡ record s { sends = t.sends; taken = s.taken ++ sent }

-- it has taken a first part of them
abbrev pub WrotePart : Connection → List ℕ → Connection → Type 0
WrotePart s bytes t = (done : List ℕ) × (rest : List ℕ) × (done ++ rest ≡ bytes) × Wrote s done t

-- it has taken a first part of them, and at least one is missing
abbrev pub Cut : Connection → List ℕ → Connection → Type 0
Cut s bytes t =
    (done : List ℕ) × (b : ℕ) × (rest : List ℕ) × (done ++ b ∷ rest ≡ bytes) × Wrote s done t

pub Cut-WrotePart :
    (s : Connection) (bytes : List ℕ) (t : Connection) → Cut s bytes t → WrotePart s bytes t
Cut-WrotePart s bytes t (done, b, rest, split, wrote) = (done, b ∷ rest, split, wrote)

-- the answers behind which the loop goes on
abbrev pub goes_on : SendAnswer → Bool
goes_on (takes k) = true
goes_on SendAnswer.interrupted = true
goes_on broken_pipe = false
goes_on SendAnswer.failed = false

-- the answers behind which it returns -1
abbrev pub gives_up : (no_signal : Bool) → SendAnswer → Bool
gives_up no_signal (takes k) = false
gives_up no_signal SendAnswer.interrupted = false
gives_up no_signal broken_pipe = no_signal
gives_up no_signal SendAnswer.failed = true

-- the first answer behind which it does not go on is `a`
abbrev pub Met : List SendAnswer → SendAnswer → Connection → Type 0
Met script a t = Used goes_on script (a ∷ t.sends)

-- How a loop with the result `n` ends, on this script.
abbrev pub Result : Bool → List SendAnswer → ℕ → Connection → List ℕ → ℤ → Connection → Type 0
Result no_signal script n s bytes r t =
    ((r ≡ pos n) × Wrote s bytes t × Used goes_on script t.sends)
    ⊎ ((r ≡ negsuc 0)
        × Cut s bytes t
        × (a : SendAnswer) × (gives_up no_signal a ≡ true)
        × Met script a t)

abbrev pub Waited : List SendAnswer → Connection → List ℕ → Connection → Type 0
Waited script s bytes t = Cut s bytes t × Used goes_on script [] × (t.sends ≡ [])

Cut-behind :
    (s : Connection) (k : ℕ) (bytes : List ℕ) (t : Connection)
    → Cut (record s { taken = s.taken ++ take k bytes }) (drop k bytes) t
    → Cut s bytes t
Cut-behind s k bytes t (done, b, rest, split, wrote) = (
  take k bytes ++ done,
  b,
  rest,
  append_assoc (take k bytes) done (b ∷ rest)
      ∙ ap (λ l. take k bytes ++ l) split
      ∙ take-drop k bytes,
  wrote
      ∙ ap (λ (l : List ℕ). record s { sends = t.sends; taken = l })
          (append_assoc s.taken (take k bytes) done),
)

Wrote-behind :
    (s : Connection) (k : ℕ) (bytes : List ℕ) (t : Connection)
    → Wrote (record s { taken = s.taken ++ take k bytes }) (drop k bytes) t
    → Wrote s bytes t
Wrote-behind s k bytes t wrote =
    wrote
    ∙ ap (λ (l : List ℕ). record s { sends = t.sends; taken = l })
        (append_assoc s.taken (take k bytes) (drop k bytes)
          ∙ ap (λ l. s.taken ++ l) (take-drop k bytes))

nothing_yet :
    (s : Connection) (b : ℕ) (bytes : List ℕ) (script : List SendAnswer)
    → Cut s (b ∷ bytes) (record s { sends = script })
nothing_yet s b bytes script = (
  [],
  b,
  bytes,
  refl,
  ap (λ (l : List ℕ). record s { sends = script; taken = l }) (sym (append-nil s.taken)),
)

write_loop-Ends :
    (no_signal : Bool) (n : ℕ) (script : List SendAnswer) (left : List ℕ) (s : Connection)
    → Ends
        (Result no_signal script n s left)
        (λ code t. (code ≡ 141) × (no_signal ≡ false) × Cut s left t × Met script broken_pipe t)
        (Waited script s left)
        (write_loop no_signal n script left s)
unfolding write_loop
write_loop-Ends no_signal n script [] s = ends (
    inl (
      refl,
      ap (λ (l : List ℕ). record s { sends = script; taken = l }) (sym (append-nil s.taken)),
      Used-none script,
    ))
write_loop-Ends no_signal n [] (b ∷ left) s = waits (nothing_yet s b left [], Used-none [], refl)
write_loop-Ends no_signal n (takes k ∷ script) (b ∷ left) s =
    Ends-mono
      (write_loop-Ends no_signal n script (drop k (b ∷ left))
        (record s { taken = s.taken ++ take k (b ∷ left) }))
      (λ r t result. elim result [
        | inl (e, wrote, used) ↦ inl (e, Wrote-behind s k (b ∷ left) t wrote, Used-more refl used)
        | inr (e, cut, a, stops, met) ↦
            inr (e, Cut-behind s k (b ∷ left) t cut, a, stops, Used-more refl met)
      ])
      (λ code t (e, e', cut, met). (e, e', Cut-behind s k (b ∷ left) t cut, Used-more refl met))
      (λ t (cut, used, over). (Cut-behind s k (b ∷ left) t cut, Used-more refl used, over))
write_loop-Ends no_signal n (SendAnswer.interrupted ∷ script) (b ∷ left) s =
    Ends-mono (write_loop-Ends no_signal n script (b ∷ left) s)
      (λ r t result. elim result [
        | inl (e, wrote, used) ↦ inl (e, wrote, Used-more refl used)
        | inr (e, cut, a, stops, met) ↦ inr (e, cut, a, stops, Used-more refl met)
      ])
      (λ code t (e, e', cut, met). (e, e', cut, Used-more refl met))
      (λ t (cut, used, over). (cut, Used-more refl used, over))
write_loop-Ends true n (broken_pipe ∷ script) (b ∷ left) s =
    ends (inr (refl, nothing_yet s b left script, broken_pipe, refl, Used-none _))
write_loop-Ends false n (broken_pipe ∷ script) (b ∷ left) s =
    exits (refl, refl, nothing_yet s b left script, Used-none _)
write_loop-Ends no_signal n (SendAnswer.failed ∷ script) (b ∷ left) s =
    ends (inr (refl, nothing_yet s b left script, SendAnswer.failed, refl, Used-none _))

-- Whatever `send` answers, what `Writen` does is decided by the first answer that is neither a
-- number of bytes nor an interruption. It returns the number of its bytes when the system has taken
-- all of them, in order and once, before such an answer. At least one byte is missing when it
-- returns -1, behind an error; when the signal of a broken pipe kills the process; and when it waits
-- for ever, with no answer left. Nothing but the connection's output changes.
pub writen-Result :
    (bytes : List ℕ) (s : Connection)
    → Ends
        (Result false s.sends (length bytes) s bytes)
        (λ code t. (code ≡ 141) × Cut s bytes t × Met s.sends broken_pipe t)
        (Waited s.sends s bytes)
        (writen bytes s)
unfolding writen
writen-Result bytes s =
    Ends-mono (write_loop-Ends false (length bytes) s.sends bytes s) (λ _ _ r. r)
      (λ _ _ (e, e', cut, met). (e, cut, met)) (λ _ w. w)

-- `Sendn` does the same, and no signal ends it.
pub sendn-Result :
    (bytes : List ℕ) (s : Connection)
    → Ends
        (Result true s.sends (length bytes) s bytes)
        (λ _ _. ⊥)
        (Waited s.sends s bytes)
        (sendn bytes s)
unfolding sendn
sendn-Result bytes s =
    Ends-mono (write_loop-Ends true (length bytes) s.sends bytes s) (λ _ _ r. r)
      (λ _ _ (e, e', cut, met). absurd (cc)) (λ _ w. w)
