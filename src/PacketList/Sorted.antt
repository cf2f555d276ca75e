-- ===== src/PacketList/Sorted.antt =====
-- `insertNodeById` on a list with ascending ids.
use gproxy.Common.{◌≡◌, ◌∙◌, ap, ℕ, false, not, ◌||◌, ◌==◌}
use gproxy.Common.Outcome.Returns
use gproxy.Common.Outcome.Returns.{Returns}
use gproxy.PacketList.{insert_node_by_id}
use gproxy.PacketList.Heap.{Ptr, Memory}
use gproxy.PacketList.Spec.{Cell, Cells, Node, IsList, within}
use gproxy.PacketList.Place.{insert}
use gproxy.PacketList.Order.{Ascending, has_id, insert-Ascending, has_id-insert, meets-has_id}
use gproxy.PacketList.Insert.{insert_node_by_id_lem}

-- On a list with ascending ids `insertNodeById` of a node that is in no list says whether its id was
-- new, and leaves a list whose ids ascend: those that were there, and the node's.
pub insert_node_by_id-Ascending :
    {h : Memory} {hd : Ptr} {cs : Cells} (n : Cell)
    → IsList h hd cs
    → Node h n
    → within hd cs n.at ≡ false
    → Ascending cs
    → Returns
        (λ done g.
          (done ≡ not (has_id n.packet.id cs))
          × (new : Cells) × IsList g hd new
          × Ascending new
          × ((id : ℕ) → has_id id new ≡ ((n.packet.id == id) || has_id id cs)))
        (insert_node_by_id hd n.at h)
insert_node_by_id-Ascending {cs} n is node out ascending =
    Returns.mono (insert_node_by_id_lem n is node out) λ done g (said, list, frame, relinked). (
      said ∙ ap not (meets-has_id n.packet.id cs ascending),
      insert n cs,
      list,
      insert-Ascending n cs ascending,
      λ id. has_id-insert id n cs,
    )
