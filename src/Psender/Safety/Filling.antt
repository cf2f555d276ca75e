-- ===== src/Psender/Safety/Filling.antt =====
-- The loop of src/psender.c that fills the list.
use gproxy.Common.{
  ℕ, zero, suc, ◌+◌, ◌<◌, ◌≡◌, inl, inr, Bool, true, false, ◌&&◌, not, List, length, arith,
  Bool-cases,
}
use gproxy.Common.Int.{ltb_ℤ}
use gproxy.Common.Outcome.Run.{Run, goes, chain}
use gproxy.Psender.{Psender}
use gproxy.Psender.Main.{fill_loop, fill}
use gproxy.Psender.Safety.{Good, Sound}
use gproxy.Psender.Safety.Reading.{receive_from_sender-Run}

and-not : (a b : Bool) → (a && not b) ≡ true → b ≡ false
and-not a b e = ground arith

fill_loop-Run :
    (fuel : ℕ) {chunks : List (List ℕ)} {s : Psender}
    → Good chunks s
    → length s.tcp < fuel
    → Run (Good chunks) (Sound chunks) (fill_loop fuel s)
unfolding fill_loop
fill_loop-Run zero good lt = absurd (omega arith)
fill_loop-Run (suc fuel) {chunks} {s} good lt =
    rw good.holds.list.head_live
      (elim (Bool-cases (ltb_ℤ (s.memory.length s.to_send) s.max_packets && not s.ending_read)) [
        | inl go_on ↦ rw go_on (
            chain (receive_from_sender-Run good (and-not _ s.ending_read go_on))
              λ _ t (good', less). fill_loop-Run fuel good' (omega arith))
        | inr stop ↦ rw stop (goes good)
      ])

-- The fuel is enough for the loop that fills the list.
pub fill-Run :
    {chunks : List (List ℕ)} {s : Psender}
    → Good chunks s
    → Run (Good chunks) (Sound chunks) (fill s)
fill-Run {s} good = fill_loop-Run (length s.tcp + 2) good (omega arith)
