-- ===== src/PacketList/Links.antt =====
-- Chains of links: cut, joined, extended, and what updates elsewhere leave alone.
use gproxy.Common.{◌≡◌, refl, true, false, ◌||◌, [], ◌∷◌, ◌++◌, arith, ◌==◌}
use gproxy.PacketList.Heap.{Ptr, update}
use gproxy.PacketList.Spec.{Cell, Cells, has, Distinct, Links, nil, cons}

pub has-append : (p : Ptr) (xs ys : Cells) → has p (xs ++ ys) ≡ (has p xs || has p ys)
has-append p [] ys = refl
has-append p (x ∷ xs) ys = ground (arith, has-append p xs ys)

module _ {nx pv : Ptr → Ptr} {b : Ptr} where
  pub Links-cut :
      {a : Ptr} (xs : Cells) (c : Cell) (ys : Cells)
      → Links nx pv b a (xs ++ c ∷ ys)
      → Links nx pv c.at a xs × Links nx pv b c.at ys
  Links-cut [] c ys (cons f g l) = (nil f g, l)
  Links-cut (x ∷ xs) c ys (cons f g l) =
      let (front, back) = Links-cut xs c ys l in (cons f g front, back)

  pub Links-join :
      (c : Cell) {q a : Ptr} {xs ys : Cells}
      → q ≡ c.at
      → Links nx pv q a xs
      → Links nx pv b c.at ys
      → Links nx pv b a (xs ++ c ∷ ys)
  Links-join c e (nil f g) m = cons (ground arith) (ground arith) m
  Links-join c e (cons f g l) m = cons f g (Links-join c e l m)

  -- The predecessor of the end is the last node, or the start.
  pub last-has : {a : Ptr} {xs : Cells} → Links nx pv b a xs → ((pv b == a) || has (pv b) xs) ≡ true
  last-has (nil f g) = ground arith
  last-has (cons f g l) = ground (arith, last-has l)

  -- The successor of the start is the first node, or the end.
  pub first-has :
      {a : Ptr} {xs : Cells} → Links nx pv b a xs → ((nx a == b) || has (nx a) xs) ≡ true
  first-has (nil f g) = ground arith
  first-has (cons f g l) = ground arith

  -- The chain reads `next` at its start and nodes, and `prev` at its nodes and end.
  pub Links-frame :
      {mx qv : Ptr → Ptr} {a : Ptr} {xs : Cells}
      → Links nx pv b a xs
      → ((p : Ptr) → ((p == a) || has p xs) ≡ true → mx p ≡ nx p)
      → ((p : Ptr) → ((p == b) || has p xs) ≡ true → qv p ≡ pv p)
      → Links mx qv b a xs
  Links-frame {a} (nil e e') f g = nil (ground (arith, f a)) (ground (arith, g b))
  Links-frame {a} (cons {c} e e' l) f g =
      cons (ground (arith, f a)) (ground (arith, g c.at))
        (Links-frame l (λ p i. f p (ground arith)) (λ p i. g p (ground arith)))

-- The link from `a` over the node `c` to the chain behind it becomes a link from `a`.
module _ {nx pv : Ptr → Ptr} {b : Ptr} where
  Links-skip :
      {a q : Ptr} {ys : Cells}
      → pv q ≡ a
      → Links nx pv b q ys
      → has a ys ≡ false
      → has b ys ≡ false
      → Distinct ys
      → Links (update nx a (nx q)) (update pv (nx q) a) b a ys
  Links-skip e (nil f g) out end d = nil (ground arith) (ground arith)
  Links-skip e (cons f g l) out end d =
      cons (ground arith) (ground arith) (Links-frame l (λ p i. ground arith) (λ p i. ground arith))

  pub Links-bridge :
      {q a : Ptr} {xs ys : Cells}
      → Links nx pv q a xs
      → Links nx pv b q ys
      → has a (xs ++ ys) ≡ false
      → has b (xs ++ ys) ≡ false
      → Distinct (xs ++ ys)
      → Links (update nx (pv q) (nx q)) (update pv (nx q) (pv q)) b a (xs ++ ys)
  Links-bridge (nil f g) m out end d = rw g (Links-skip g m out end d)
  Links-bridge {a} {ys} (cons {c} {cs = xs} f g l) m out end d =
      cons (ground (arith, last-has l, has-append a xs ys))
        (ground (arith, first-has m, has-append c.at xs ys))
        (Links-bridge l m d.0 (ground arith) d.1)

-- A new node before `q`.
module _ {nx pv : Ptr → Ptr} (n : Cell) where
  pub Links-extend :
      {q a : Ptr} {xs : Cells}
      → Links nx pv q a xs
      → has a (n ∷ xs) ≡ false
      → has q (n ∷ xs) ≡ false
      → Distinct (n ∷ xs)
      → Links
          (update (update nx n.at q) (pv q) n.at)
          (update (update pv n.at (pv q)) q n.at)
          q
          a
          (xs ++ n ∷ [])
  Links-extend (nil f g) out end d =
      cons (ground arith) (ground arith) (nil (ground arith) (ground arith))
  Links-extend {a} (cons {c} f g l) out end d =
      cons (ground (arith, last-has l)) (ground arith)
        (Links-extend l (ground arith) (ground arith) (ground arith))
