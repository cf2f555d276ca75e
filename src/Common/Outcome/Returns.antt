-- ===== src/Common/Outcome/Returns.antt =====
-- Total correctness of a run: it ends without fault and with fuel left, and a postcondition holds.
use mathlib.Core.Path.{◌≡◌, refl}
use gproxy.Common.Outcome.{Outcome, ok, Cmd, and_then}

pub data Returns {S A : Type 0} (P : A → S → Type 0) : Outcome S A → Type 0 where
  returns : {a : A} {s : S} → P a s → Returns P (ok a s)

module _ {S A : Type 0} {P : A → S → Type 0} where
  pub bind :
      {B : Type 0} {Q : B → S → Type 0} {r : Outcome S A} {k : A → Cmd S B}
      → Returns P r
      → ((a : A) (s : S) → P a s → Returns Q (k a s))
      → Returns Q (and_then r k)
  bind (returns p) next = next _ _ p

  pub mono :
      {Q : A → S → Type 0} {r : Outcome S A}
      → Returns P r
      → ((a : A) (s : S) → P a s → Q a s)
      → Returns Q r
  mono (returns p) weaken = returns (weaken _ _ p)

  -- The run as an equation, for `rw`.
  pub result : {r : Outcome S A} → Returns P r → (a : A) × (s : S) × (r ≡ ok a s) × P a s
  result (returns p) = (_, _, refl, p)
