-- ===== src/Common/Outcome/Ends.antt =====
-- A run without fault and with fuel left, told apart by how it ends: with a result, in an exit, or
-- waiting for ever.
use gproxy.Common.{ℕ, ◌≡◌, refl}
use mathlib.Core.Path.{subst}
use gproxy.Common.Outcome.{
  Outcome, ok, halt, fault, starve, out_of_fuel, Cmd, and_then, zoom, replace,
}

pub data Ends {S A : Type 0} (P : A → S → Type 0) (Q : ℕ → S → Type 0) (W : S → Type 0)
    : Outcome S A → Type 0 where
  ends : {a : A} {s : S} → P a s → Ends P Q W (ok a s)
  exits : {n : ℕ} {s : S} → Q n s → Ends P Q W (halt n s)
  waits : {s : S} → W s → Ends P Q W (starve s)

module _ {S A : Type 0} {P : A → S → Type 0} {Q : ℕ → S → Type 0} {W : S → Type 0} where
  pub Ends-mono :
      {P' : A → S → Type 0} {Q' : ℕ → S → Type 0} {W' : S → Type 0} {r : Outcome S A}
      → Ends P Q W r
      → ((a : A) (s : S) → P a s → P' a s)
      → ((n : ℕ) (s : S) → Q n s → Q' n s)
      → ((s : S) → W s → W' s)
      → Ends P' Q' W' r
  Ends-mono (ends p) f g h = ends (f _ _ p)
  Ends-mono (exits q) f g h = exits (g _ _ q)
  Ends-mono (waits w) f g h = waits (h _ w)

  pub Ends-bind :
      {B : Type 0} {R : B → S → Type 0} {r : Outcome S A} {k : A → Cmd S B}
      → Ends P Q W r
      → ((a : A) (s : S) → P a s → Ends R Q W (k a s))
      → Ends R Q W (and_then r k)
  Ends-bind (ends p) next = next _ _ p
  Ends-bind (exits q) next = exits q
  Ends-bind (waits w) next = waits w

  -- A run that is known to end with a result.
  Ends-result : {a : A} {s : S} → Ends P Q W (ok a s) → P a s
  Ends-result (ends p) = p

  pub Ends-ok : {a : A} {s : S} {r : Outcome S A} → Ends P Q W r → r ≡ ok a s → P a s
  Ends-ok run e = Ends-result (subst (Ends P Q W) e run)

pub Ends-assoc :
    {S A B C : Type 0} {P : C → S → Type 0} {Q : ℕ → S → Type 0} {W : S → Type 0} (r : Outcome S A)
    (f : A → Cmd S B) (k : B → Cmd S C)
    → Ends P Q W (and_then r (λ a s. and_then (f a s) k))
    → Ends P Q W (and_then (and_then r f) k)
Ends-assoc (ok a s) f k run = run
Ends-assoc (halt n s) f k run = elim run [ exits q ↦ exits q ]
Ends-assoc fault f k run = elim run [ ]
Ends-assoc (starve s) f k run = elim run [ waits w ↦ waits w ]
Ends-assoc out_of_fuel f k run = elim run [ ]

-- A command over one part of the state, with what the part's run says.
pub Ends-zoom :
    {S T A : Type 0} {P : A → T → Type 0} {Q : ℕ → T → Type 0} {W : T → Type 0} (get : S → T)
    (put : S → T → S) (m : Cmd T A) (s : S)
    → Ends P Q W (m (get s))
    → Ends
        (λ a t. (k : T) × (t ≡ put s k) × P a k)
        (λ n t. (k : T) × (t ≡ put s k) × Q n k)
        (λ t. (k : T) × (t ≡ put s k) × W k)
        (zoom get put m s)
Ends-zoom {T} {A} {P} {Q} {W} get put m s run = by_outcome (m (get s)) run
  where
    by_outcome :
        (r : Outcome T A)
        → Ends P Q W r
        → Ends
            (λ a t. (k : T) × (t ≡ put s k) × P a k)
            (λ n t. (k : T) × (t ≡ put s k) × Q n k)
            (λ t. (k : T) × (t ≡ put s k) × W k)
            (replace get put s r)
    by_outcome (ok a k) (ends p) = ends (k, refl, p)
    by_outcome (halt n k) (exits q) = exits (k, refl, q)
    by_outcome (starve k) (waits w) = waits (k, refl, w)
    by_outcome fault run = elim run [ ]
    by_outcome out_of_fuel run = elim run [ ]
