-- ===== src/Stabilize/Writes.antt =====
-- The writes of a stabilization: the successor stays at the head of the successor list.
use chord_dht.Base.{
  ℕ, ◌≤◌, ◌≡◌, ◌≢◌, ◌⊎◌, inl, inr, ap, ◌∙◌, true, false, Option, some, List, [], ◌∷◌, Bytes,
  is_empty, length, arith, All,
}
use mathlib.Core.List.{head?}
use chord_dht.Node.{Node, emit_topology_change, dedupe_from}
use chord_dht.SuccessorList.{size_limit}
use chord_dht.SuccessorList.Merge.{merge_successor_list-IsMerged}
use chord_dht.Types.{NodeInfo, core, active, is_active, Status}
use chord_dht.Failures.{mark_failure}
use chord_dht.Validation.{isolate}
use chord_dht.Validation.Outcome.{IsValidated, IsIsolated}
use chord_dht.World.{World}
use chord_dht.Stabilize.{Start, write_successor, settle_alone}

-- The successor heads the list, which is within the configured size.
pub record IsAnchored (n : Node) : Type 0 where
  pub headed : head? n.successor_list ≡ some n.successor
  pub bounded : length n.successor_list ≤ size_limit n

pub emit-IsAnchored : (n : Node) → IsAnchored n → IsAnchored (emit_topology_change n)
unfolding emit_topology_change
emit-IsAnchored n a = record { headed = a.headed; bounded = a.bounded }

pub settle_alone-IsAnchored :
    (st : Start) (when : ℕ) (n : Node) → IsAnchored (settle_alone st when n)
unfolding settle_alone emit_topology_change
settle_alone-IsAnchored st when n = ground arith

pub isolate-IsAnchored :
    (self : NodeInfo) (when : Option ℕ) (n : Node) → IsAnchored (isolate self when n)
unfolding isolate
isolate-IsAnchored self when n = ground arith

-- A successor with an identifier of its own.
abbrev pub Peer : Node → NodeInfo → Type 0
Peer n s = (is_empty s.node_id ≡ false) × (s.node_id ≢ n.self.node_id) × (core s ≡ s)

pub write_successor-IsAnchored :
    (s : NodeInfo) (remote : List NodeInfo) (n : Node)
    → Peer n s
    → IsAnchored (write_successor s remote n)
unfolding write_successor
write_successor-IsAnchored s remote n (filled, other, cored) =
    let merged = merge_successor_list-IsMerged n s remote in
    record { headed = merged.headed filled other ∙ ap some cored; bounded = merged.bounded }

pub is_active_lem : (s : Status) → s ≡ active → is_active s ≡ true
is_active_lem s e = ground arith

pub mark_failure-self : (id : Bytes) (n : Node) → (mark_failure id n).1.self ≡ n.self
unfolding mark_failure
mark_failure-self id n = ground arith

pub dedupe-filled :
    (exclude : Bytes) (seen : List Bytes) (l : List NodeInfo)
    → All (λ c. (is_empty c.node_id ≡ false) × (core c ≡ c)) (dedupe_from exclude seen l)
unfolding dedupe_from
dedupe-filled exclude seen [] = tt
dedupe-filled exclude seen (n ∷ l) =
    ground (arith, dedupe-filled exclude seen l, dedupe-filled exclude (n.node_id ∷ seen) l)

pub validated-IsAnchored :
    (w w' : World)
    → IsValidated (size_limit w.node) w.node.self.node_id w'
      ⊎ IsIsolated w.node.self.node_id w'.node
    → w'.node.options ≡ w.node.options
    → IsAnchored w'.node
validated-IsAnchored w w' (inl v) e = record {
  headed = v.headed;
  bounded = ground (arith, v.live.bounded);
}
validated-IsAnchored w w' (inr i) e = record {
  headed = rw i.alone;
  bounded = rw i.alone (ground arith);
}
