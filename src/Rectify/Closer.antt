-- ===== src/Rectify/Closer.antt =====
-- A live predecessor gives way only to a node that lies closer.
use chord_dht.Base.{ℕ, ◌<◌, ◌≡◌, ◌⊎◌, ◌↔◌, Bool, true, false, Option, none, some, arith}
use chord_dht.Id.{ring_size, id_to_big, in_range_open_open}
use chord_dht.Id.Arc.{arc}
use chord_dht.Id.Digits.{id_to_big-lt}
use chord_dht.Id.Fingers.{in_range_open_open_iff}
use chord_dht.Node.{Node, emit_topology_change}
use chord_dht.Types.{NodeInfo}
use chord_dht.Rectify.{accepts, set_predecessor, decide_candidate, list_size, with_previous}

-- A place strictly between `a` and `s` is nearer to `s`.
arc-between :
    (s a x : ℕ)
    → s < ring_size
    → a < ring_size
    → x < ring_size
    → arc a x < arc a s
    → arc x s < arc a s
arc-between s a x hs ha hx h = ground arith

-- If the predecessor of a node answered its ping, a candidate is accepted only if the walk from the
-- candidate to the node is shorter than the walk from the predecessor.
pub decide_candidate-closer :
    (candidate old : NodeInfo) (n : Node) {s a x : ℕ} (pinged : Option NodeInfo)
    → id_to_big n.self.node_id ≡ some s
    → id_to_big old.node_id ≡ some a
    → id_to_big candidate.node_id ≡ some x
    → n.predecessor ≡ some old
    → (decide_candidate candidate pinged true n).0.accepted ≡ true
    → arc x s < arc a s
unfolding decide_candidate accepts
decide_candidate-closer candidate old n {s} {a} {x} pinged hs ha hx hp h =
    let inside = in_range_open_open_iff candidate.node_id old.node_id n.self.node_id hx ha hs in
    arc-between s a x (id_to_big-lt n.self.node_id s hs) (id_to_big-lt old.node_id a ha)
      (id_to_big-lt candidate.node_id x hx) (inside.0 (ground arith))

-- A candidate is accepted exactly when the node has no predecessor, when the predecessor that it
-- has is the one that was pinged and is dead, or when the candidate lies strictly between the
-- predecessor and the node. Acceptance makes the candidate the predecessor and the head of the
-- predecessor list, in front of the one before if the list has room; a rejection changes nothing.
pub decide_candidate_iff :
    (candidate : NodeInfo) (pinged : Option NodeInfo) (alive : Bool) (n : Node)
    → (((decide_candidate candidate pinged alive n).0.accepted ≡ true) ↔ (
        (n.predecessor ≡ none)
        ⊎ ((old : NodeInfo) × (n.predecessor ≡ some old)
            × ((((q : NodeInfo) × (pinged ≡ some q) × (old.node_id ≡ q.node_id)) × (alive ≡ false))
                ⊎ (in_range_open_open candidate.node_id old.node_id n.self.node_id ≡ true)))))
      × ((decide_candidate candidate pinged alive n).0.accepted ≡ true
          → ((decide_candidate candidate pinged alive n).1.predecessor ≡ some candidate)
            × ((decide_candidate candidate pinged alive n).1.predecessor_list
                ≡ with_previous (list_size n.options) candidate n.predecessor))
      × ((decide_candidate candidate pinged alive n).0.accepted ≡ false
          → (decide_candidate candidate pinged alive n).1 ≡ n)
unfolding decide_candidate accepts set_predecessor emit_topology_change
decide_candidate_iff candidate pinged alive n =
    ((λ h. ground arith, λ h. ground arith), λ h. ground arith, λ h. ground arith)
