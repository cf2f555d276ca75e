-- ===== src/Common/Outcome/Run.antt =====
-- A run without fault and with fuel left: one fact for the state that it goes on with, another for
-- the state in which the process has stopped or waits for ever.
use gproxy.Common.{ℕ}
use gproxy.Common.Outcome.{Outcome, ok, halt, starve, Cmd, and_then}
use gproxy.Common.Outcome.Returns.{Returns, returns}

pub data Run {S A : Type 0} (P Q : S → Type 0) : Outcome S A → Type 0 where
  goes : {a : A} {s : S} → P s → Run P Q (ok a s)
  stops : {n : ℕ} {s : S} → Q s → Run P Q (halt n s)
  waits : {s : S} → Q s → Run P Q (starve s)

module _ {S A : Type 0} {P Q : S → Type 0} where
  pub chain :
      {B : Type 0} {R : S → Type 0} {r : Outcome S A} {k : A → Cmd S B}
      → Run P Q r
      → ((a : A) (s : S) → P s → Run R Q (k a s))
      → Run R Q (and_then r k)
  chain (goes p) next = next _ _ p
  chain (stops q) next = stops q
  chain (waits q) next = waits q

  pub Returns-Run :
      {F : A → S → Type 0} {r : Outcome S A}
      → Returns F r
      → ((a : A) (s : S) → F a s → P s)
      → Run P Q r
  Returns-Run (returns f) weaken = goes (weaken _ _ f)

  pub Run-mono : {R : S → Type 0} {r : Outcome S A} → Run P Q r → ((s : S) → P s → R s) → Run R Q r
  Run-mono (goes p) weaken = goes (weaken _ p)
  Run-mono (stops q) weaken = stops q
  Run-mono (waits q) weaken = waits q

-- However the run ends, the weaker fact holds.
pub Run-both :
    {S A : Type 0} {P R : S → Type 0} {r : Outcome S A}
    → Run P P r
    → ((s : S) → P s → R s)
    → Run R R r
Run-both (goes p) weaken = goes (weaken _ p)
Run-both (stops p) weaken = stops (weaken _ p)
Run-both (waits p) weaken = waits (weaken _ p)

-- A run that cannot stop or wait returns.
pub Run-Returns :
    {S A : Type 0} {P : S → Type 0} {r : Outcome S A} → Run P (λ _. ⊥) r → Returns (λ _. P) r
Run-Returns (goes p) = returns p
Run-Returns (stops q) = absurd q
Run-Returns (waits q) = absurd q

-- The run leaves the process in a state: running on, stopped or waiting.
pub data Leaves {S A : Type 0} (s : S) : Outcome S A → Type 0 where
  running : {a : A} → Leaves s (ok a s)
  stopped : {n : ℕ} → Leaves s (halt n s)
  waiting : Leaves s (starve s)

-- What holds however a run ends holds in the state it leaves.
pub Run-Leaves :
    {S A : Type 0} {P : S → Type 0} {r : Outcome S A} {s : S} → Run P P r → Leaves s r → P s
Run-Leaves (goes p) running = p
Run-Leaves (stops p) stopped = p
Run-Leaves (waits p) waiting = p
