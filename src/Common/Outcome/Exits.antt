-- ===== src/Common/Outcome/Exits.antt =====
-- A run that ends as it should or stops the process with a given code, in a state with a fact of
-- its own.
use gproxy.Common.{ℕ, ◌≡◌, refl, Bool, true, false, Option, none, some}
use gproxy.Common.Outcome.{Outcome, ok, halt, Cmd, and_then}
use gproxy.Common.Outcome.Returns.{Returns, returns}
use gproxy.Common.Outcome.Run.{Run, goes, stops}

pub data ReturnsOrExits {S A : Type 0} (n : ℕ) (P : A → S → Type 0) (E : S → Type 0)
    : Outcome S A → Type 0 where
  returned : {o : Outcome S A} → Returns P o → ReturnsOrExits n P E o
  exited : {s : S} → E s → ReturnsOrExits n P E (halt n s)

-- `if (!b) exit(n);`
abbrev pub require : {S : Type 0} → ℕ → Bool → Cmd S (Unit {0})
require n true s = ok tt s
require n false s = halt n s

-- The result of a call, or the exit when it has none.
abbrev pub or_exit : {S A : Type 0} → ℕ → Option A → Cmd S A
or_exit n none s = halt n s
or_exit n (some a) s = ok a s

module _ {S : Type 0} {n : ℕ} {B : Type 0} {P : B → S → Type 0} {E : S → Type 0} (s : S)
    (e : E s) where
  pub require_lem :
      (b : Bool) (k : Unit {0} → Cmd S B)
      → (b ≡ true → ReturnsOrExits n P E (k tt s))
      → ReturnsOrExits n P E (and_then (require n b s) k)
  require_lem true k next = next refl
  require_lem false k next = exited e

  pub or_exit_lem :
      {A : Type 0} (o : Option A) (k : A → Cmd S B)
      → ((a : A) → o ≡ some a → ReturnsOrExits n P E (k a s))
      → ReturnsOrExits n P E (and_then (or_exit n o s) k)
  or_exit_lem none k next = exited e
  or_exit_lem (some a) k next = next a refl

-- As a run, with the weaker facts that a caller needs.
pub ReturnsOrExits-Run :
    {S A : Type 0} {n : ℕ} {F : A → S → Type 0} {E P Q : S → Type 0} {r : Outcome S A}
    → ReturnsOrExits n F E r
    → ((a : A) (s : S) → F a s → P s)
    → ((s : S) → E s → Q s)
    → Run P Q r
ReturnsOrExits-Run (returned (returns f)) weaken after = goes (weaken _ _ f)
ReturnsOrExits-Run (exited e) weaken after = stops (after _ e)
