-- ===== src/PacketList/Scan.antt =====
-- What a walk over an ascending list leaves behind it, against a next id.
use gproxy.Common.{ℕ, ◌≤◌, ◌<◌, ◌≡◌, ◌≢◌, [], ◌∷◌, ◌++◌, arith}
use gproxy.PacketList.Spec.{Cell, Cells}
use gproxy.PacketList.Order.{Above, AtLeast, Ascending}

pub Above-append :
    (id : ℕ) (kept : Cells) (c : Cell)
    → Above id kept
    → id < c.packet.id
    → Above id (kept ++ c ∷ [])
Above-append id [] c a lt = (lt, tt)
Above-append id (k ∷ ks) c a lt = (a.0, Above-append id ks c a.1 lt)

pub AtLeast-middle :
    (id : ℕ) (kept rest : Cells) (c : Cell) → AtLeast id (kept ++ c ∷ rest) → id ≤ c.packet.id
AtLeast-middle id [] rest c a = a.0
AtLeast-middle id (k ∷ ks) rest c a = AtLeast-middle id ks rest c a.1

Above-middle :
    (id : ℕ) (kept rest : Cells) (c : Cell) → Above id (kept ++ c ∷ rest) → id < c.packet.id
Above-middle id [] rest c a = a.0
Above-middle id (k ∷ ks) rest c a = Above-middle id ks rest c a.1

pub beyond : {last id : ℕ} → last ≤ id → id ≢ last → last < id
beyond le ne = omega arith

-- Before the node whose turn it is, in the order of the ids, no node was kept.
pub none_kept :
    (last next : ℕ) (kept rest : Cells) (c : Cell)
    → Ascending (kept ++ c ∷ rest)
    → c.packet.id ≡ last
    → Above last kept
    → Above next kept
none_kept last next [] rest c ascending e later = tt
none_kept last next (k ∷ ks) rest c ascending e later =
    let early = Above-middle k.packet.id ks rest c ascending.0 in
    absurd (omega (arith, early, later.0, e))
