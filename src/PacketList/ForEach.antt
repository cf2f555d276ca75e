-- ===== src/PacketList/ForEach.antt =====
-- `forEach` visits the nodes in order, as many as `maxScans` lets it.
use gproxy.Common.{
  ℕ, zero, suc, ◌+◌, ◌-◌, ◌<◌, ◌≡◌, ◌≢◌, refl, Bool, true, false, not, ◌&&◌, [], ◌∷◌, ◌++◌, arith,
  ◌==◌, if◌then◌else◌, length, drop, ap, Bool-cases, inl, inr,
}
use native.Mathlib.Nat.{zero-sub}
use gproxy.Common.Int.{ℤ, pos, negsuc, is_zero, ltb_ℤ, pos_part}
use gproxy.Common.Outcome.{Cmd}
use gproxy.Common.Outcome.Returns.{Returns}
use gproxy.Common.Outcome.Run.{Run, goes, chain, Returns-Run, Run-Returns}
use gproxy.PacketList.Heap.{Ptr, Memory}
use gproxy.PacketList.Spec.{Cell, Cells, has, Links, nil, cons, Owned, IsList}
use gproxy.PacketList.{for_each_loop, for_each}

-- where the walk stands with the cells still before it
abbrev pub first : Ptr → Cells → Ptr
first hd [] = hd
first hd (c ∷ cs) = c.at

-- The walk can follow the cells to the head.
abbrev pub Trail : Memory → Ptr → Cells → Type 0
Trail h hd [] = Unit {0}
Trail h hd (c ∷ cs) =
    (c.at ≢ hd) × (h.live c.at ≡ true) × (h.next c.at ≡ first hd cs) × Trail h hd cs

-- the cells that the bound on the scans keeps from a visit
abbrev pub unscanned : ℤ → (scans : ℕ) → Cells → Cells
unscanned max_scans scans cs =
    if is_zero max_scans then [] else drop (pos_part max_scans - scans) cs

Links-Trail :
    (h : Memory) (hd : Ptr) {a : Ptr} {cs : Cells}
    → Links h.next h.prev hd a cs
    → has hd cs ≡ false
    → Owned h hd cs
    → (h.next a ≡ first hd cs) × Trail h hd cs
Links-Trail h hd (nil f g) out o = (f, tt)
Links-Trail h hd (cons {c} f g l) out o =
    let (e, t) = Links-Trail h hd l (ground arith) o.2 in (f, (ground arith, o.0.live, e, t))

pub IsList-Trail :
    {h : Memory} {hd : Ptr} {cs : Cells}
    → IsList h hd cs
    → (h.next hd ≡ first hd cs) × Trail h hd cs
IsList-Trail {h} {hd} is = Links-Trail h hd is.links is.head_out is.owned

pub Trail-append : (h : Memory) (hd : Ptr) (xs ys : Cells) → Trail h hd (xs ++ ys) → Trail h hd ys
Trail-append h hd [] ys t = t
Trail-append h hd (x ∷ xs) ys t = Trail-append h hd xs ys t.3

-- the bound is reached
abbrev full : ℤ → (scans : ℕ) → Bool
full max_scans scans = not (is_zero max_scans) && not (ltb_ℤ (pos scans) max_scans)

drop-nil : (n : ℕ) → ◌≡◌ {A = Cells} (drop n []) []
drop-nil zero = refl
drop-nil (suc n) = refl

drop-cons : (n : ℕ) (c : Cell) (cs : Cells) → 0 < n → drop n (c ∷ cs) ≡ drop (n - 1) cs
drop-cons zero c cs h = absurd (omega arith)
drop-cons (suc n) c cs h = ap (λ k. drop k cs) (omega arith)

unscanned-nil : (max_scans : ℤ) (scans : ℕ) → unscanned max_scans scans [] ≡ []
unscanned-nil max_scans scans = ground (arith, drop-nil (pos_part max_scans - scans))

unscanned-full :
    (max_scans : ℤ) (scans : ℕ) (cs : Cells)
    → full max_scans scans ≡ true
    → unscanned max_scans scans cs ≡ cs
unscanned-full (negsuc m) scans cs h = rw (zero-sub)
unscanned-full (pos m) scans cs h = let e : m - scans ≡ 0 = ground arith in rw e (ground arith)

unscanned-cons :
    (max_scans : ℤ) (scans : ℕ) (c : Cell) (cs : Cells)
    → full max_scans scans ≡ false
    → unscanned max_scans (scans + 1) cs ≡ unscanned max_scans scans (c ∷ cs)
unscanned-cons (negsuc m) scans c cs h = cc
unscanned-cons (pos m) scans c cs h =
    ground (arith, drop-cons (m - scans) c cs, ap (λ k. drop k cs) (next m scans))
  where
    next : (m scans : ℕ) → m - scans - 1 ≡ m - (scans + 1)
    next m scans = omega arith

==-refl : (n : ℕ) → (n == n) ≡ true
==-refl n = ground arith

-- The rule for a walk: `P` says what holds with the given cells still to be visited, and `Q` what
-- holds if the callback stops the process or waits for ever.
module _ {S : Type 0} (memory : S → Memory) (hd : Ptr) (callback : Ptr → Cmd S (Unit {0}))
    (P : Cells → S → Type 0) (Q : S → Type 0)
    (trail : (cs : Cells) (s : S) → P cs s → Trail (memory s) hd cs)
    (step : (c : Cell) (cs : Cells) (s : S) → P (c ∷ cs) s → Run (P cs) Q (callback c.at s)) where
  for_each_loop-Run :
      (fuel : ℕ) (cs : Cells) (scans : ℕ) (max_scans : ℤ) (s : S)
      → length cs < fuel
      → P cs s
      → Run
          (P (unscanned max_scans scans cs))
          Q
          (for_each_loop memory fuel hd (first hd cs) callback scans max_scans s)
  unfolding for_each_loop
  for_each_loop-Run zero cs scans max_scans s f p = absurd (omega arith)
  for_each_loop-Run (suc fuel) [] scans max_scans s f p = rw (unscanned-nil, ==-refl) (goes p)
  for_each_loop-Run (suc fuel) (c ∷ cs) scans max_scans s f p =
      let (apart, alive, next, rest) = trail (c ∷ cs) s p in
      let ne : (c.at == hd) ≡ false = ground arith in
      elim (Bool-cases (full max_scans scans)) [
        | inl stop ↦ rw (ne, stop, unscanned-full max_scans scans (c ∷ cs) stop) (goes p)
        | inr go ↦
            rw (ne, go, alive, next, ← unscanned-cons max_scans scans c cs go)
              (chain (step c cs s p)
                λ _ s' p'. for_each_loop-Run fuel cs (scans + 1) max_scans s' (omega arith) p')
      ]

  pub for_each-Run :
      (cs : Cells) (max_scans : ℤ) (s : S)
      → IsList (memory s) hd cs
      → P cs s
      → Run (P (unscanned max_scans 0 cs)) Q (for_each memory hd callback max_scans s)
  unfolding for_each
  for_each-Run cs max_scans s is p =
      rw (is.head_live, is.counted, (IsList-Trail is).0)
        (for_each_loop-Run (suc (length cs)) cs 0 max_scans s (omega arith) p)

-- A walk over a list whose count is right, with a callback that returns, visits its nodes in
-- order, up to the bound.
pub for_each_rule :
    {S : Type 0} (memory : S → Memory) (hd : Ptr) (callback : Ptr → Cmd S (Unit {0}))
    (P : Cells → S → Type 0)
    → ((cs : Cells) (s : S) → P cs s → Trail (memory s) hd cs)
    → ((c : Cell) (cs : Cells) (s : S) → P (c ∷ cs) s → Returns (λ _. P cs) (callback c.at s))
    → (cs : Cells) (max_scans : ℤ) (s : S) → IsList (memory s) hd cs
    → P cs s
    → Returns (λ _. P (unscanned max_scans 0 cs)) (for_each memory hd callback max_scans s)
for_each_rule memory hd callback P trail step cs max_scans s is p = Run-Returns (
    for_each-Run memory hd callback P (λ _. ⊥) trail
      (λ c rest t q. Returns-Run (step c rest t q) (λ _ u q'. q')) cs max_scans s is p)
