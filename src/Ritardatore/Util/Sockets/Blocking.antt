-- ===== src/Ritardatore/Util/Sockets/Blocking.antt =====
-- The blocking mode, set and read.
use gproxy.Common.{ℕ, ◌≡◌, refl, ap, ◌∙◌, true, false, some, [], arith, if◌then◌else◌}
use mathlib.Core.Path.{fun_ext}
use gproxy.Common.Outcome.{ok}
use gproxy.Ritardatore.Util.Sockets.{
  Sockets, put, set_no_blocking, set_blocking, is_blocking, has_nonblock, with_nonblock,
  without_nonblock,
}

-- the state with other flags for a descriptor
abbrev pub flagged : Sockets → ℕ → ℕ → Sockets
flagged s fd f = record s { calls = []; flags = put s.flags fd f }

set_no_blocking-flagged :
    (fd : ℕ) (s : Sockets)
    → s.calls ≡ []
    → set_no_blocking fd s ≡ ok true (flagged s fd (with_nonblock (s.flags fd)))
unfolding set_no_blocking
set_no_blocking-flagged fd s e = rw e refl

set_blocking-flagged :
    (fd : ℕ) (s : Sockets)
    → s.calls ≡ []
    → set_blocking fd s ≡ ok true (flagged s fd (without_nonblock (s.flags fd)))
unfolding set_blocking
set_blocking-flagged fd s e = rw e refl

is_blocking-flag :
    (fd : ℕ) (s : Sockets)
    → s.calls ≡ []
    → is_blocking fd s
      ≡ ok (if has_nonblock (s.flags fd) then some 0 else some 1) (record s { calls = [] })
unfolding is_blocking
is_blocking-flag fd s e = rw e refl

with_nonblock-has : (f : ℕ) → has_nonblock (with_nonblock f) ≡ true
with_nonblock-has f = ground arith

without_nonblock-has : (f : ℕ) → has_nonblock (without_nonblock f) ≡ false
without_nonblock-has f = ground arith

without-with : (f : ℕ) → without_nonblock (with_nonblock f) ≡ without_nonblock f
without-with f = ground arith

-- While no call fails: `SetNoBlocking` succeeds and `IsBlocking` then gives 0; `SetBlocking` behind
-- it succeeds and `IsBlocking` then gives 1; if the descriptor was blocking before, its flags and
-- those of every other descriptor are again what they were.
pub set_blocking-set_no_blocking :
    (fd : ℕ) (s : Sockets)
    → s.calls ≡ []
    → (t : Sockets) × (u : Sockets) × (set_no_blocking fd s ≡ ok true t)
      × (is_blocking fd t ≡ ok (some 0) t)
      × (set_blocking fd t ≡ ok true u)
      × (is_blocking fd u ≡ ok (some 1) u)
      × (has_nonblock (s.flags fd) ≡ false → u ≡ record s { calls = [] })
set_blocking-set_no_blocking fd s e =
    let t = flagged s fd (with_nonblock (s.flags fd)) in
    let u = flagged t fd (without_nonblock (t.flags fd)) in
    let set : t.flags fd ≡ with_nonblock (s.flags fd) = ground arith in
    let cleared : u.flags fd ≡ without_nonblock (with_nonblock (s.flags fd)) = ground arith in
    (
      t,
      u,
      set_no_blocking-flagged fd s e,
      is_blocking-flag fd t refl ∙ rw (set, with_nonblock-has (s.flags fd)) refl,
      set_blocking-flagged fd t refl,
      is_blocking-flag fd u refl
          ∙ rw (cleared, without_nonblock-has (with_nonblock (s.flags fd))) refl,
      λ blocking.
          ap (λ (l : ℕ → ℕ). record s { calls = []; flags = l })
            (fun_ext λ q. ground (arith, set, cleared, without-with (s.flags fd))),
    )
