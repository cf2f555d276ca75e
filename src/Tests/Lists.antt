-- ===== src/Tests/Lists.antt =====
-- src/include/listUtils.c at a list of one node.
use gproxy.Common.{true, not, ℕ, ◌≡◌, refl, false, [], ◌∷◌, not, ◌||◌, ◌==◌, inr}
use gproxy.Common.Outcome.Returns.{Returns}
use gproxy.PacketList.{append_node, remove_node, remove_node_by_id, insert_node_by_id, clear_node}
use gproxy.PacketList.Heap.{Pkt, Memory}
use gproxy.PacketList.Spec.{Cells, SameRoom, IsList, within, Frame, Relinked}
use gproxy.PacketList.Append.{append_node_lem}
use gproxy.PacketList.Remove.{remove_node_lem}
use gproxy.PacketList.Search.{find, erase, remove_node_by_id_lem}
use gproxy.PacketList.Insert.{insert_node_by_id_lem}
use gproxy.PacketList.Place.{meets, insert}
use gproxy.PacketList.Order.{Ascending, has_id}
use gproxy.PacketList.Sorted.{insert_node_by_id-Ascending}
use gproxy.PacketList.Alloc.{IsSound, clear_node_lem}
use gproxy.Tests.Fixtures.{two_lists, cell, first-IsList, two_lists-IsSound, second-Node}

abbrev seven : Pkt
seven = record { id = 7; type = 66; body = 1 ∷ 2 ∷ [] }

abbrev nine : Pkt
nine = record { id = 9; type = 66; body = 3 ∷ 4 ∷ [] }

abbrev start : Memory
start = two_lists seven nine

append_example :
    Returns
      (λ _ g.
        IsList g 1 (cell 3 seven ∷ cell 4 nine ∷ [])
        × Frame (within 1 (cell 4 nine ∷ cell 3 seven ∷ [])) start g
        × Relinked start g)
      (append_node 1 4 start)
append_example =
    append_node_lem (cell 4 nine) (first-IsList seven nine) (second-Node seven nine) refl

remove_example :
    Returns
      (λ r g.
        (r ≡ 3) × IsList g 1 [] × Frame (within 1 (cell 3 seven ∷ [])) start g × Relinked start g)
      (remove_node 3 start)
remove_example = remove_node_lem [] (cell 3 seven) [] (first-IsList seven nine)

remove_by_id_example :
    Returns
      (λ r g.
        (r ≡ find 7 (cell 3 seven ∷ []))
        × IsList g 1 (erase 7 (cell 3 seven ∷ []))
        × Frame (within 1 (cell 3 seven ∷ [])) start g
        × Relinked start g)
      (remove_node_by_id 1 7 start)
remove_by_id_example = remove_node_by_id_lem 7 (first-IsList seven nine)

insert_example :
    Returns
      (λ done g.
        (done ≡ not (meets 9 (cell 3 seven ∷ [])))
        × IsList g 1 (insert (cell 4 nine) (cell 3 seven ∷ []))
        × Frame (within 1 (cell 4 nine ∷ cell 3 seven ∷ [])) start g
        × Relinked start g)
      (insert_node_by_id 1 4 start)
insert_example =
    insert_node_by_id_lem (cell 4 nine) (first-IsList seven nine) (second-Node seven nine) refl

order_example :
    Returns
      (λ done g.
        (done ≡ true)
        × (new : Cells) × IsList g 1 new
        × Ascending new
        × ((id : ℕ) → has_id id new ≡ ((9 == id) || has_id id (cell 3 seven ∷ []))))
      (insert_node_by_id 1 4 start)
order_example =
    insert_node_by_id-Ascending (cell 4 nine) (first-IsList seven nine) (second-Node seven nine)
      refl (tt, tt)

clear_example :
    Returns
      (λ _ g. IsSound g × IsList g 1 (cell 3 seven ∷ []) × (g.live 4 ≡ false) × SameRoom start g)
      (clear_node 4 start)
clear_example =
    clear_node_lem 4 (two_lists-IsSound seven nine) (first-IsList seven nine) refl (inr refl)
