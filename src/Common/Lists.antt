-- ===== src/Common/Lists.antt =====
-- Lists measured by native numbers, under the library's names.
use Prim.Native.Nat.{ℕ, zero, suc, ◌+◌}
use mathlib.Core.Path.{◌≡◌, refl, ap, sym, ◌∙◌}
use mathlib.Core.List.{List, [], ◌∷◌, ◌++◌}
use mathlib.Core.Bool.{Bool, true}
use native.Mathlib.Omega.{arith}

module _ {ℓ} {A : Type ℓ} where
  abbrev pub length : List A → ℕ
  length [] = 0
  length (x ∷ xs) = suc (length xs)

  abbrev pub take : ℕ → List A → List A
  take zero xs = []
  take (suc n) [] = []
  take (suc n) (x ∷ xs) = x ∷ take n xs

  abbrev pub drop : ℕ → List A → List A
  drop zero xs = xs
  drop (suc n) [] = []
  drop (suc n) (x ∷ xs) = drop n xs

  pub length-append : (xs ys : List A) → length (xs ++ ys) ≡ length xs + length ys
  length-append [] ys = omega arith
  length-append (x ∷ xs) ys = omega (arith, length-append xs ys)

  pub take-drop : (n : ℕ) (xs : List A) → take n xs ++ drop n xs ≡ xs
  take-drop zero xs = refl
  take-drop (suc n) [] = refl
  take-drop (suc n) (x ∷ xs) = ap (λ l. x ∷ l) (take-drop n xs)

  pub take-append : (xs ys : List A) → take (length xs) (xs ++ ys) ≡ xs
  take-append [] ys = refl
  take-append (x ∷ xs) ys = ap (λ l. x ∷ l) (take-append xs ys)

  drop-append : (xs ys : List A) → drop (length xs) (xs ++ ys) ≡ ys
  drop-append [] ys = refl
  drop-append (x ∷ xs) ys = drop-append xs ys

  pub append-cancel :
      (xs ys zs ws : List A) → length xs ≡ length ys → xs ++ zs ≡ ys ++ ws → (xs ≡ ys) × (zs ≡ ws)
  append-cancel xs ys zs ws same e = (
    sym (take-append xs zs)
        ∙ ap (take (length xs)) e
        ∙ ap (λ n. take n (ys ++ ws)) same
        ∙ take-append ys ws,
    sym (drop-append xs zs)
        ∙ ap (drop (length xs)) e
        ∙ ap (λ n. drop n (ys ++ ws)) same
        ∙ drop-append ys ws,
  )

  -- a test that all of a list pass
  abbrev pub AllPass : (A → Bool) → List A → Type 0
  AllPass test [] = Unit
  AllPass test (x ∷ xs) = (test x ≡ true) × AllPass test xs

  -- `rest` is left of the list, and what was taken off in front of it passes the test
  abbrev pub Used : (A → Bool) → (list rest : List A) → Type ℓ
  Used test list rest = (used : List A) × (used ++ rest ≡ list) × AllPass test used

  pub Used-none : {test : A → Bool} (list : List A) → Used test list list
  Used-none list = ([], refl, tt)

  pub Used-more :
      {test : A → Bool} {x : A} {list rest : List A}
      → test x ≡ true
      → Used test list rest
      → Used test (x ∷ list) rest
  Used-more {x} t (used, e, all) = (x ∷ used, ap (λ l. x ∷ l) e, (t, all))
