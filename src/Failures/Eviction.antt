-- ===== src/Failures/Eviction.antt =====
-- What an eviction and a suspicion do to the routing state.
use chord_dht.Base.{◌≡◌, ◌≢◌, ◌⊎◌, true, false, List, [], ◌∷◌, Bytes, arith, All, map}
use chord_dht.Node.{Node}
use chord_dht.Types.{NodeInfo, FingerEntry, suspicious}
use chord_dht.Failures.{mark_failure, forget, suspect, without}

forget-ne :
    (id : Bytes) (self : NodeInfo) (fs : List FingerEntry)
    → self.node_id ≢ id
    → All (λ f. f.node.node_id ≢ id) (map (forget id self) fs)
unfolding forget
forget-ne id self [] h = tt
forget-ne id self (f ∷ fs) h = (ground arith, forget-ne id self fs h)

without-ne : (id : Bytes) (l : List NodeInfo) → All (λ n. n.node_id ≢ id) (without id l)
unfolding without
without-ne id [] = tt
without-ne id (n ∷ l) = ground (arith, without-ne id l)

suspect-marked :
    (id : Bytes) (fs : List FingerEntry)
    → All
        (λ f. (f.node.node_id ≢ id) ⊎ ((f.status ≡ suspicious) × (f.valid ≡ false)))
        (map (suspect id) fs)
unfolding suspect
suspect-marked id [] = tt
suspect-marked id (f ∷ fs) = ground (arith, suspect-marked id fs)

-- An evicted peer, other than the node itself, is gone from the finger table and from the
-- successor list.
pub mark_failure-evicts :
    (id : Bytes) (n : Node)
    → n.self.node_id ≢ id
    → (mark_failure id n).0.1 ≡ true
    → All (λ f. f.node.node_id ≢ id) (mark_failure id n).1.fingers
      × All (λ e. e.node_id ≢ id) (mark_failure id n).1.successor_list
unfolding mark_failure
mark_failure-evicts id n other h =
    ground (arith, forget-ne id n.self n.fingers other, without-ne id n.successor_list)

-- A peer that is not evicted keeps its place in the successor list, and every finger that points at
-- it is suspicious and not valid.
pub mark_failure-suspects :
    (id : Bytes) (n : Node)
    → (mark_failure id n).0.1 ≡ false
    → ((mark_failure id n).1.successor_list ≡ n.successor_list)
      × All
          (λ f. (f.node.node_id ≢ id) ⊎ ((f.status ≡ suspicious) × (f.valid ≡ false)))
          (mark_failure id n).1.fingers
unfolding mark_failure
mark_failure-suspects id n h = ground (arith, suspect-marked id n.fingers)
