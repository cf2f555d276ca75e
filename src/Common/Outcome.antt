-- ===== src/Common/Outcome.antt =====
-- Commands over a state: how a stretch of C code can end.
pub mod Returns
pub mod Exits
pub mod Run
pub mod Ends
use Prim.Native.Nat.{ℕ}
use mathlib.Core.Bool.{Bool, true, false}

-- `fault` is undefined behaviour: a read or a write through a pointer to no live object, or past
-- the end of one. `starve` waits for ever in a blocking call, since the run's script has no
-- further answer of the system. `halt` is `exit` with its code.
pub data Outcome (S A : Type 0) : Type 0 where
  ok : A → S → Outcome S A
  halt : ℕ → S → Outcome S A
  fault : Outcome S A
  starve : S → Outcome S A
  out_of_fuel : Outcome S A

abbrev pub Cmd : Type 0 → Type 0 → Type 0
Cmd S A = S → Outcome S A

abbrev pub pure : {S A : Type 0} → A → Cmd S A
pure a s = ok a s

module _ {S A B : Type 0} where
  abbrev pub and_then : Outcome S A → (A → Cmd S B) → Outcome S B
  and_then (ok a s) k = k a s
  and_then (halt n s) k = halt n s
  and_then fault k = fault
  and_then (starve s) k = starve s
  and_then out_of_fuel k = out_of_fuel

  infixl 5 ◌>>=◌ ◌>>◌
  abbrev pub ◌>>=◌ : Cmd S A → (A → Cmd S B) → Cmd S B
  ◌>>=◌ m k s = and_then (m s) k

  abbrev pub ◌>>◌ : Cmd S A → Cmd S B → Cmd S B
  ◌>>◌ m n s = and_then (m s) (λ _. n)

abbrev pub fails : {S A : Type 0} → Cmd S A
fails s = fault

abbrev pub spent : {S A : Type 0} → Cmd S A
spent s = out_of_fuel

abbrev pub read : {S A : Type 0} → (S → A) → Cmd S A
read f s = ok (f s) s

abbrev pub modify : {S : Type 0} → (S → S) → Cmd S (Unit {0})
modify f s = ok tt (f s)

-- `if (b) m`
abbrev pub when : {S : Type 0} → Bool → Cmd S (Unit {0}) → Cmd S (Unit {0})
when true m = m
when false m = λ s. ok tt s

-- A command over one part of the state.
module _ {S T A : Type 0} (get : S → T) (put : S → T → S) where
  abbrev pub replace : S → Outcome T A → Outcome S A
  replace s (ok a t) = ok a (put s t)
  replace s (halt n t) = halt n (put s t)
  replace s fault = fault
  replace s (starve t) = starve (put s t)
  replace s out_of_fuel = out_of_fuel

  abbrev pub zoom : Cmd T A → Cmd S A
  zoom m s = replace s (m (get s))
