-- ===== src/Psender/Safety/Reading.antt =====
-- `receiveFromSender` against any answer of the connection.
use gproxy.Common.{
  ℕ, suc, ◌+◌, ◌-◌, ◌%◌, ◌^◌, ◌≤◌, ◌<◌, ◌≡◌, refl, ap, sym, ◌∙◌, inl, inr, false, List, [], ◌∷◌,
  ◌++◌, length, length-append, arith,
}
use mathlib.Core.Path.{subst}
use mathlib.Core.List.{append_assoc}
use gproxy.Common.Outcome.Run.{Run, goes, waits, Returns-Run}
use gproxy.Wire.{body_type}
use gproxy.PacketList.Heap.{Pkt}
use gproxy.PacketList.Spec.{Cell, Cells}
use gproxy.PacketList.Order.{All}
use gproxy.Psender.{
  Psender, TcpAnswer, bytes, closed, interrupted, recv_loop, on_received, receive_from_sender,
  payload,
}
use gproxy.Psender.Steps.{after_failures, recv_loop-after_failures}
use gproxy.Psender.Receive.{receive_from_sender-bytes, receive_from_sender-closed}
use gproxy.Psender.Stream.{
  reads, source_of, AllFit, reads-after_failures, after_failures-AllFit, source_of-next,
}
use gproxy.Psender.Safety.{IsSendable, IsReading, Good, Sound}

All-snoc : (P : Cell → Type 0) (cs : Cells) (c : Cell) → All P cs → P c → All P (cs ++ c ∷ [])
All-snoc P [] c a p = (p, tt)
All-snoc P (x ∷ cs) c a p = (a.0, All-snoc P cs c a.1 p)

-- the state after a read, and the script shorter
abbrev pub Shorter : List (List ℕ) → Psender → Psender → Type 0
Shorter chunks s t = Good chunks t × (length t.tcp < length s.tcp)

count_few :
    (done : List (List ℕ)) (b : List ℕ) (later : List (List ℕ))
    → length done + 1 ≤ length (done ++ b ∷ later)
count_few done b later = omega (arith, length-append done (b ∷ later))

after_failures-head :
    (script rest : List TcpAnswer) → after_failures script ≡ TcpAnswer.failed ∷ rest → ⊥
unfolding after_failures
after_failures-head [] rest e = cc
after_failures-head (TcpAnswer.failed ∷ script) rest e = after_failures-head script rest e
after_failures-head (bytes b ∷ script) rest e = cc
after_failures-head (closed ∷ script) rest e = cc
after_failures-head (interrupted ∷ script) rest e = cc

module _ {chunks : List (List ℕ)} {s : Psender} (good : Good chunks s) where
  going-IsReading : s.ending_read ≡ false → IsReading chunks s
  going-IsReading going = elim good.reading [ inl over ↦ absurd (cc) | inr r ↦ r ]

  -- the number of the next chunk fits a word
  next_few :
      (r : IsReading chunks s) {b : List ℕ} {later : List (List ℕ)}
      → reads s.tcp ≡ b ∷ later
      → (s.current_id ≡ suc (length r.done))
        × (suc (length r.done) < 2 ^ 32 - 1)
        × (source_of chunks (suc (length r.done)) ≡ b)
  next_few r {b} {later} e =
      let split : r.done ++ b ∷ later ≡ chunks = ap (λ l. r.done ++ l) (sym e) ∙ r.split in
      (
        r.next,
        omega (arith, count_few r.done b later, ap length split, good.few),
        ap (λ l. source_of l (suc (length r.done))) (sym split) ∙ source_of-next r.done b later,
      )

  new-IsSendable :
      (c : Cell) (n : ℕ) {b : List ℕ}
      → payload c.size c.packet ≡ record { id = s.current_id % 2 ^ 32; type = body_type; body = b }
      → (s.current_id ≡ suc n) × (suc n < 2 ^ 32 - 1) × (source_of chunks (suc n) ≡ b)
      → 0 < length b
      → IsSendable (source_of chunks) c
  new-IsSendable c n {b} e (next, few, chunk) filled =
      let id : c.packet.id ≡ suc n = omega (arith, ap Pkt.id e, next, few) in
      let body = ap Pkt.body e in
      (
        omega (arith, id, few),
        inr (
          body ∙ sym chunk ∙ ap (source_of chunks) (sym id),
          subst (λ (l : List ℕ). 0 < length l) (sym body) filled,
          omega (arith, id, few),
        ),
      )

  read_bytes :
      {b : List ℕ} {rest : List TcpAnswer}
      → after_failures s.tcp ≡ bytes b ∷ rest
      → s.ending_read ≡ false
      → Run (Shorter chunks s) (Sound chunks) (receive_from_sender s)
  unfolding reads
  read_bytes {b} {rest} e going =
      let (fits, short) = after_failures-AllFit s.tcp good.fit in
      let fit : AllFit (bytes b ∷ rest) = subst AllFit e fits in
      let less : suc (length rest) ≤ length s.tcp = omega (arith, ap length e, short) in
      let r = going-IsReading going in
      let first : reads s.tcp ≡ b ∷ reads rest = sym (reads-after_failures s.tcp) ∙ ap reads e in
      let next = next_few r first in
      Returns-Run (receive_from_sender-bytes good.holds (omega (arith, less, good.room)) e fit.0.1)
        λ _ t (new, held, sends, grown, same).
          let tcp : t.tcp ≡ rest = ap Psender.tcp same in
          (
            record {
              cells = good.cells ++ new ∷ [];
              holds = held;
              sendable =
                  All-snoc (IsSendable (source_of chunks)) good.cells new good.sendable
                    (new-IsSendable new (length r.done) sends next fit.0.0);
              room = omega (arith, grown.0, grown.1, ap length tcp, less, good.room);
              fit = subst AllFit (sym tcp) fit.1;
              reading = inr (record {
                done = r.done ++ b ∷ [];
                split =
                    ap (λ l. (r.done ++ b ∷ []) ++ reads l) tcp
                    ∙ append_assoc r.done (b ∷ []) (reads rest)
                    ∙ ap (λ l. r.done ++ l) (sym first)
                    ∙ r.split;
                next = omega (
                  arith,
                  ap Psender.current_id same,
                  next.0,
                  next.1,
                  length-append r.done (b ∷ []),
                );
              });
              few = good.few;
              sent =
                  subst (λ l. Sound chunks (record s { sent = l })) (sym (ap Psender.sent same))
                    good.sent;
              behind =
                  subst (λ (l : List ℕ). 5 ≤ length l) (sym (ap Psender.behind_ending same))
                    good.behind;
            },
            omega (arith, ap length tcp, less),
          )

  read_closed :
      {rest : List TcpAnswer}
      → after_failures s.tcp ≡ closed ∷ rest
      → Run (Shorter chunks s) (Sound chunks) (receive_from_sender s)
  read_closed {rest} e =
      let (fits, short) = after_failures-AllFit s.tcp good.fit in
      let fit : AllFit (closed ∷ rest) = subst AllFit e fits in
      let less : suc (length rest) ≤ length s.tcp = omega (arith, ap length e, short) in
      Returns-Run
        (receive_from_sender-closed good.holds (omega (arith, less, good.room)) e good.behind)
        λ _ t (new, held, sends, grown, same).
          let tcp : t.tcp ≡ rest = ap Psender.tcp same in
          let id : new.packet.id ≡ 0 = ap Pkt.id sends in
          (
            record {
              cells = good.cells ++ new ∷ [];
              holds = held;
              sendable =
                  All-snoc (IsSendable (source_of chunks)) good.cells new good.sendable
                    (omega (arith, id), inl id);
              room = omega (arith, grown.0, grown.1, ap length tcp, less, good.room);
              fit = subst AllFit (sym tcp) fit;
              reading = inl (ap Psender.ending_read same);
              few = good.few;
              sent =
                  subst (λ l. Sound chunks (record s { sent = l })) (sym (ap Psender.sent same))
                    good.sent;
              behind =
                  subst (λ (l : List ℕ). 5 ≤ length l) (sym (ap Psender.behind_ending same))
                    good.behind;
            },
            omega (arith, ap length tcp, less),
          )

  -- Interrupted, `receiveFromSender` returns with nothing done.
  read_interrupted :
      {rest : List TcpAnswer}
      → after_failures s.tcp ≡ interrupted ∷ rest
      → s.ending_read ≡ false
      → Run (Shorter chunks s) (Sound chunks) (receive_from_sender s)
  unfolding receive_from_sender on_received recv_loop reads
  read_interrupted {rest} e going =
      let (fits, short) = after_failures-AllFit s.tcp good.fit in
      let fit : AllFit (interrupted ∷ rest) = subst AllFit e fits in
      let less : suc (length rest) ≤ length s.tcp = omega (arith, ap length e, short) in
      let r = going-IsReading going in
      let first : reads s.tcp ≡ reads rest = sym (reads-after_failures s.tcp) ∙ ap reads e in
      rw (recv_loop-after_failures s.tcp s, e)
        (goes (
          record {
            cells = good.cells;
            holds = record { sound = good.holds.sound; list = good.holds.list };
            sendable = good.sendable;
            room = omega (arith, less, good.room);
            fit = fit;
            reading = inr (record {
              done = r.done;
              split = ap (λ l. r.done ++ l) (sym first) ∙ r.split;
              next = r.next;
            });
            few = good.few;
            sent = good.sent;
            behind = good.behind;
          },
          less,
        ))

  read_by_answer :
      (script : List TcpAnswer)
      → after_failures s.tcp ≡ script
      → s.ending_read ≡ false
      → Run (Shorter chunks s) (Sound chunks) (receive_from_sender s)
  unfolding receive_from_sender recv_loop
  read_by_answer [] e going = rw (recv_loop-after_failures s.tcp s, e) (waits good.sent)
  read_by_answer (bytes b ∷ rest) e going = read_bytes e going
  read_by_answer (closed ∷ rest) e going = read_closed e
  read_by_answer (interrupted ∷ rest) e going = read_interrupted e going
  read_by_answer (TcpAnswer.failed ∷ rest) e going = absurd (after_failures-head s.tcp rest e)

-- One read: it waits for ever, or takes an answer from the script.
pub receive_from_sender-Run :
    {chunks : List (List ℕ)} {s : Psender}
    → Good chunks s
    → s.ending_read ≡ false
    → Run (Shorter chunks s) (Sound chunks) (receive_from_sender s)
receive_from_sender-Run {s} good going = read_by_answer good (after_failures s.tcp) refl going
