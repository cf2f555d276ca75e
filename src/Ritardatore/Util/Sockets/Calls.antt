-- ===== src/Ritardatore/Util/Sockets/Calls.antt =====
-- How far the calls of a set-up have come in the script of their answers.
use gproxy.Common.{
  ℕ, zero, suc, ◌+◌, ◌≡◌, refl, ◌∙◌, ap, sym, Bool, true, false, not, ◌&&◌, List, [], ◌∷◌, drop,
  arith,
}
use mathlib.Core.Path.{subst}
use gproxy.Ritardatore.Util.Sockets.{CallAnswer, done, interrupted, failed}

-- the next call is refused; with the script spent, calls are done
abbrev pub refused : List CallAnswer → Bool
refused [] = false
refused (done ∷ rest) = false
refused (interrupted ∷ rest) = true
refused (failed ∷ rest) = true

-- the next `n` calls are done
abbrev pub done_for : ℕ → List CallAnswer → Bool
done_for zero script = true
done_for (suc n) script = not (refused script) && done_for n (drop 1 script)

-- `n` calls were done, and leave the answers `rest`
abbrev pub Went : ℕ → (script rest : List CallAnswer) → Type 0
Went n script rest = (done_for n script ≡ true) × (drop n script ≡ rest)

-- `n` calls were done, and the next one was refused
abbrev pub Refused : ℕ → List CallAnswer → Type 0
Refused n script = (done_for n script ≡ true) × (refused (drop n script) ≡ true)

drop-suc : {A : Type 0} (n : ℕ) (xs : List A) → drop (suc n) xs ≡ drop n (drop 1 xs)
drop-suc zero [] = refl
drop-suc zero (x ∷ xs) = refl
drop-suc (suc n) [] = refl
drop-suc (suc n) (x ∷ xs) = refl

pub Went-append : (n m : ℕ) (a b c : List CallAnswer) → Went n a b → Went m b c → Went (n + m) a c
Went-append zero m a b c (fine, e) w =
    subst (λ l. Went (0 + m) l c) (sym e) (subst (λ k. Went k b c) (omega arith) w)
Went-append (suc n) m a b c (fine, e) w =
    let (more, e') = Went-append n m (drop 1 a) b c (ground arith, sym (drop-suc n a) ∙ e) w in
    let same : suc (n + m) ≡ suc n + m = omega arith in
    subst (λ k. Went k a c) same (the_more n m a c (ground arith) more e')
  where
    the_more :
        (n m : ℕ) (a c : List CallAnswer)
        → refused a ≡ false
        → done_for (n + m) (drop 1 a) ≡ true
        → drop (n + m) (drop 1 a) ≡ c
        → Went (suc (n + m)) a c
    the_more n m a c r more e = (ground arith, drop-suc (n + m) a ∙ e)

-- A refusal behind calls that were done.
pub Went-Refused : (n m : ℕ) (a b : List CallAnswer) → Went n a b → Refused m b → Refused (n + m) a
Went-Refused n m a b w (fine, r) =
    let (all, e) = Went-append n m a b (drop m b) w (fine, refl) in (all, ap refused e ∙ r)

-- some calls were done, and leave the answers `rest`; some call is refused, and all before it done
abbrev pub SomeWent : (script rest : List CallAnswer) → Type 0
SomeWent script rest = (n : ℕ) × Went n script rest

abbrev pub SomeRefused : List CallAnswer → Type 0
SomeRefused script = (n : ℕ) × Refused n script

pub SomeWent-trans : (a b c : List CallAnswer) → SomeWent a b → SomeWent b c → SomeWent a c
SomeWent-trans a b c (n, w) (m, w') = (n + m, Went-append n m a b c w w')

pub SomeWent-SomeRefused : (a b : List CallAnswer) → SomeWent a b → SomeRefused b → SomeRefused a
SomeWent-SomeRefused a b (n, w) (m, r) = (n + m, Went-Refused n m a b w r)
