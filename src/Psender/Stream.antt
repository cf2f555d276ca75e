-- ===== src/Psender/Stream.antt =====
-- What the psender reads from the sender, as chunks with ids.
use gproxy.Common.{
  ℕ, zero, suc, ◌+◌, ◌≤◌, ◌<◌, ◌≡◌, refl, ap, sym, ◌∙◌, List, [], ◌∷◌, ◌++◌, arith, length,
}
use mathlib.Core.List.{append_assoc, append-nil}
use gproxy.Source.{delivered}
use gproxy.Wire.{header_size}
use gproxy.PacketList.{payload_size}
use gproxy.Psender.{TcpAnswer, bytes, closed, interrupted}
use gproxy.Psender.Steps.{after_failures}

-- What the reads of the connection bring, up to its end.
unfoldable pub reads : List TcpAnswer → List (List ℕ)
reads [] = []
reads (bytes b ∷ rest) = b ∷ reads rest
reads (closed ∷ rest) = []
reads (interrupted ∷ rest) = reads rest
reads (TcpAnswer.failed ∷ rest) = reads rest

-- each read brings something, and leaves the header's size free in a packet
abbrev pub Fits : List ℕ → Type 0
Fits b = (0 < length b) × (length b + header_size ≤ payload_size)

abbrev pub AllFit : List TcpAnswer → Type 0
AllFit [] = Unit {0}
AllFit (bytes b ∷ rest) = Fits b × AllFit rest
AllFit (closed ∷ rest) = AllFit rest
AllFit (interrupted ∷ rest) = AllFit rest
AllFit (TcpAnswer.failed ∷ rest) = AllFit rest

-- The chunk of an id; the id 0 has none.
unfoldable pub source_of : List (List ℕ) → ℕ → List ℕ
source_of chunks zero = []
source_of [] (suc n) = []
source_of (c ∷ chunks) (suc zero) = c
source_of (c ∷ chunks) (suc (suc n)) = source_of chunks (suc n)

-- All the bytes, in order.
unfoldable pub joined : List (List ℕ) → List ℕ
joined [] = []
joined (c ∷ chunks) = c ++ joined chunks

pub reads-after_failures : (script : List TcpAnswer) → reads (after_failures script) ≡ reads script
unfolding reads after_failures
reads-after_failures [] = refl
reads-after_failures (TcpAnswer.failed ∷ rest) = reads-after_failures rest
reads-after_failures (bytes b ∷ rest) = refl
reads-after_failures (closed ∷ rest) = refl
reads-after_failures (interrupted ∷ rest) = refl

pub after_failures-AllFit :
    (script : List TcpAnswer)
    → AllFit script
    → AllFit (after_failures script) × (length (after_failures script) ≤ length script)
unfolding after_failures
after_failures-AllFit [] f = (tt, omega arith)
after_failures-AllFit (TcpAnswer.failed ∷ rest) f =
    let (a, b) = after_failures-AllFit rest f in (a, omega arith)
after_failures-AllFit (bytes b ∷ rest) f = (f, omega arith)
after_failures-AllFit (closed ∷ rest) f = (f, omega arith)
after_failures-AllFit (interrupted ∷ rest) f = (f, omega arith)

-- The chunk behind those that were read before.
pub source_of-next :
    (done : List (List ℕ)) (b : List ℕ) (later : List (List ℕ))
    → source_of (done ++ b ∷ later) (suc (length done)) ≡ b
unfolding source_of
source_of-next [] b later = refl
source_of-next (c ∷ done) b later = source_of-next done b later

source_of-nil : (id : ℕ) → source_of [] id ≡ []
unfolding source_of
source_of-nil zero = refl
source_of-nil (suc n) = refl

delivered-nil : (n : ℕ) → delivered (source_of []) n ≡ []
unfolding delivered
delivered-nil zero = refl
delivered-nil (suc n) = rw (delivered-nil n, source_of-nil (suc n)) refl

delivered-first :
    (c : List ℕ) (chunks : List (List ℕ)) (n : ℕ)
    → delivered (source_of (c ∷ chunks)) (suc n) ≡ c ++ delivered (source_of chunks) n
unfolding delivered source_of
delivered-first c chunks zero = sym (append-nil c)
delivered-first c chunks (suc n) =
    ap (λ l. l ++ source_of chunks (suc n)) (delivered-first c chunks n)
    ∙ append_assoc c (delivered (source_of chunks) n) (source_of chunks (suc n))

-- The first chunks are the beginning of the stream.
pub delivered-joined :
    (n : ℕ) (chunks : List (List ℕ))
    → (rest : List ℕ) × (delivered (source_of chunks) n ++ rest ≡ joined chunks)
unfolding joined delivered
delivered-joined n [] = ([], append-nil (delivered (source_of []) n) ∙ delivered-nil n)
delivered-joined zero (c ∷ chunks) = (c ++ joined chunks, refl)
delivered-joined (suc n) (c ∷ chunks) =
    let (rest, e) = delivered-joined n chunks in
    (
      rest,
      ap (λ l. l ++ rest) (delivered-first c chunks n)
          ∙ append_assoc c (delivered (source_of chunks) n) rest
          ∙ ap (λ l. c ++ l) e,
    )
