-- ===== src/PacketList/Order.antt =====
-- The order of the ids in a list: `insertNodeById` keeps it, and then its walk decides membership.
use gproxy.Common.{
  ℕ, ◌+◌, ◌≤◌, ◌<◌, ◌≡◌, refl, Bool, false, ◌||◌, [], ◌∷◌, ◌++◌, arith, ltb, ◌==◌, Bool-cases, inl,
  inr,
}
use gproxy.PacketList.Spec.{Cell, Cells}
use gproxy.PacketList.Place.{meets, insert}

abbrev pub has_id : ℕ → Cells → Bool
has_id id [] = false
has_id id (c ∷ cs) = (c.packet.id == id) || has_id id cs

pub has_id-append : (id : ℕ) (xs ys : Cells) → has_id id (xs ++ ys) ≡ (has_id id xs || has_id id ys)
has_id-append id [] ys = refl
has_id-append id (x ∷ xs) ys = ground (arith, has_id-append id xs ys)

-- every id of the list is greater
abbrev pub Above : ℕ → Cells → Type 0
Above id [] = Unit {0}
Above id (c ∷ cs) = (id < c.packet.id) × Above id cs

-- the ids ascend strictly
abbrev pub Ascending : Cells → Type 0
Ascending [] = Unit {0}
Ascending (c ∷ cs) = Above c.packet.id cs × Ascending cs

pub Above-trans : (i j : ℕ) (cs : Cells) → i < j → Above j cs → Above i cs
Above-trans i j [] lt a = tt
Above-trans i j (c ∷ cs) lt a = (omega arith, Above-trans i j cs lt a.1)

Above-insert :
    (id : ℕ) (n : Cell) (cs : Cells) → id < n.packet.id → Above id cs → Above id (insert n cs)
unfolding insert
Above-insert id n [] lt a = (lt, tt)
Above-insert id n (c ∷ cs) lt a = ground (arith, Above-insert id n cs)

Above-not-has_id : (i id : ℕ) (cs : Cells) → id < i + 1 → Above i cs → has_id id cs ≡ false
Above-not-has_id i id [] lt a = refl
Above-not-has_id i id (c ∷ cs) lt a = ground (arith, Above-not-has_id i id cs)

pub insert-Ascending : (n : Cell) (cs : Cells) → Ascending cs → Ascending (insert n cs)
unfolding insert
insert-Ascending n [] a = (tt, tt)
insert-Ascending n (c ∷ cs) a = ground (
  arith,
  insert-Ascending n cs,
  Above-insert c.packet.id n cs,
  Above-trans n.packet.id c.packet.id cs,
)

pub meets-has_id : (id : ℕ) (cs : Cells) → Ascending cs → meets id cs ≡ has_id id cs
unfolding meets
meets-has_id id [] a = refl
meets-has_id id (c ∷ cs) a = ground (arith, meets-has_id id cs, Above-not-has_id c.packet.id id cs)

pub has_id-insert :
    (id : ℕ) (n : Cell) (cs : Cells)
    → has_id id (insert n cs) ≡ ((n.packet.id == id) || has_id id cs)
unfolding insert
has_id-insert id n [] = refl
has_id-insert id n (c ∷ cs) = ground (arith, has_id-insert id n cs)

-- A property of every cell.
abbrev pub All {ℓ} : (Cell → Type ℓ) → Cells → Type ℓ
All P [] = Unit
All P (c ∷ cs) = P c × All P cs

module _ {ℓ} (P : Cell → Type ℓ) where
  pub All-drop : (xs ys : Cells) (c : Cell) → All P (xs ++ c ∷ ys) → P c × All P (xs ++ ys)
  All-drop [] ys c a = a
  All-drop (x ∷ xs) ys c a = let (p, q) = All-drop xs ys c a.1 in (p, (a.0, q))

  pub All-insert : (n : Cell) (cs : Cells) → P n → All P cs → All P (insert n cs)
  unfolding insert
  All-insert n [] p a = (p, a)
  All-insert n (c ∷ cs) p a = elim (Bool-cases (c.packet.id == n.packet.id)) [
    | inl same ↦ rw same a
    | inr ne ↦ elim (Bool-cases (ltb n.packet.id c.packet.id)) [
      | inl lt ↦ rw (ne, lt) (p, a)
      | inr ge ↦ rw (ne, ge) (a.0, All-insert n cs p a.1)
    ]
  ]

Above-drop : (id : ℕ) (xs ys : Cells) (c : Cell) → Above id (xs ++ c ∷ ys) → Above id (xs ++ ys)
Above-drop id [] ys c a = a.1
Above-drop id (x ∷ xs) ys c a = (a.0, Above-drop id xs ys c a.1)

pub Ascending-drop : (xs ys : Cells) (c : Cell) → Ascending (xs ++ c ∷ ys) → Ascending (xs ++ ys)
Ascending-drop [] ys c a = a.1
Ascending-drop (x ∷ xs) ys c a = (Above-drop x.packet.id xs ys c a.0, Ascending-drop xs ys c a.1)

-- no id of the list is below
abbrev pub AtLeast : ℕ → Cells → Type 0
AtLeast id [] = Unit {0}
AtLeast id (c ∷ cs) = (id ≤ c.packet.id) × AtLeast id cs

Above-AtLeast : (id : ℕ) (cs : Cells) → Above id cs → AtLeast (id + 1) cs
Above-AtLeast id [] a = tt
Above-AtLeast id (c ∷ cs) a = (omega arith, Above-AtLeast id cs a.1)

Above-member : (id : ℕ) (xs ys : Cells) (c : Cell) → Above id (xs ++ c ∷ ys) → id < c.packet.id
Above-member id [] ys c a = a.0
Above-member id (x ∷ xs) ys c a = Above-member id xs ys c a.1

-- Without its least id, an ascending list starts above it.
pub AtLeast-drop :
    (id : ℕ) (xs ys : Cells) (c : Cell)
    → Ascending (xs ++ c ∷ ys)
    → AtLeast id (xs ++ c ∷ ys)
    → c.packet.id ≡ id
    → AtLeast (id + 1) (xs ++ ys)
AtLeast-drop id [] ys c a l e = rw (← e) (Above-AtLeast c.packet.id ys a.0)
AtLeast-drop id (x ∷ xs) ys c a l e = absurd (omega (arith, Above-member x.packet.id xs ys c a.0))

pub AtLeast-insert :
    (id : ℕ) (n : Cell) (cs : Cells) → id ≤ n.packet.id → AtLeast id cs → AtLeast id (insert n cs)
unfolding insert
AtLeast-insert id n [] le a = (le, tt)
AtLeast-insert id n (c ∷ cs) le a = ground (arith, AtLeast-insert id n cs)
