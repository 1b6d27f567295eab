-- ===== src/Fingers/Table.antt =====
-- The finger table: what its entries are from the start, and what every change of it keeps.
use chord_dht.Base.{
  ℕ, zero, suc, ◌+◌, ◌≡◌, refl, Bool, true, List, [], ◌∷◌, Bytes, same, map, arith, if_cases, leb,
  ltb, ◌&&◌,
}
use chord_dht.Failures.{forget, suspect, clear, mark_failure, mark_success}
use chord_dht.Fingers.Repair.{at_index, found, missed, lost, is_fresh, write_finger}
use chord_dht.Id.{ok, m, finger_start}
use chord_dht.Join.{activate_single_node, joined_finger, own_finger}
use chord_dht.Node.{Node}
use chord_dht.Types.{NodeInfo, FingerEntry, fresh, Reply, reply, refuse}
use chord_dht.Validation.{first_finger}

-- The finger at an index of the node with an identifier: its start is 2 ^ index places on, and it is
-- marked valid only if its status is `ok`.
pub record IsFinger (id : Bytes) (i : ℕ) (f : FingerEntry) : Type 0 where
  pub indexed : f.index ≡ i
  pub starts : finger_start id i ≡ ok f.start
  pub honest : f.valid ≡ true → f.status ≡ fresh

-- The fingers from an index on, up to the last.
abbrev pub IsTableFrom : Bytes → ℕ → List FingerEntry → Type 0
IsTableFrom id i [] = i ≡ m
IsTableFrom id i (f ∷ l) = IsFinger id i f × IsTableFrom id (suc i) l

abbrev pub IsTable : Node → Type 0
IsTable n = IsTableFrom n.self.node_id 0 n.fingers

-- A change of one finger.
abbrev KeepsFinger : (FingerEntry → FingerEntry) → Type 0
KeepsFinger g = (id : Bytes) (i : ℕ) (f : FingerEntry) → IsFinger id i f → IsFinger id i (g f)

map-IsTable :
    (g : FingerEntry → FingerEntry) (id : Bytes) (i : ℕ) (l : List FingerEntry)
    → KeepsFinger g
    → IsTableFrom id i l
    → IsTableFrom id i (map g l)
map-IsTable g id i [] k h = h
map-IsTable g id i (f ∷ l) k (h, hs) = (k id i f h, map-IsTable g id (suc i) l k hs)

pub at_index-IsTable :
    (g : FingerEntry → FingerEntry) (j : ℕ) (id : Bytes) (i : ℕ) (l : List FingerEntry)
    → KeepsFinger g
    → IsTableFrom id i l
    → IsTableFrom id i (at_index g j l)
at_index-IsTable g j id i [] k h = h
at_index-IsTable g zero id i (f ∷ l) k (h, hs) = (k id i f h, hs)
at_index-IsTable g (suc j) id i (f ∷ l) k (h, hs) = (h, at_index-IsTable g j id (suc i) l k hs)

forget-finger : (peer : Bytes) (self : NodeInfo) → KeepsFinger (forget peer self)
unfolding forget
forget-finger peer self id i f h =
    if_cases (IsFinger id i) (same f.node.node_id peer)
      (λ _. record { indexed = h.indexed; starts = h.starts; honest = λ e. ground (arith, e) })
      (λ _. h)

suspect-finger : (peer : Bytes) → KeepsFinger (suspect peer)
unfolding suspect
suspect-finger peer id i f h =
    if_cases (IsFinger id i) (same f.node.node_id peer)
      (λ _. record { indexed = h.indexed; starts = h.starts; honest = λ e. ground (arith, e) })
      (λ _. h)

clear-finger : (peer : Bytes) → KeepsFinger (clear peer)
unfolding clear
clear-finger peer id i f h =
    if_cases (IsFinger id i) (same f.node.node_id peer)
      (λ _. record { indexed = h.indexed; starts = h.starts; honest = λ e. refl }) (λ _. h)

found-finger : (s : NodeInfo) (when : ℕ) → KeepsFinger (found s when)
unfolding found
found-finger s when id i f h = record { indexed = h.indexed; starts = h.starts; honest = λ e. refl }

pub missed-finger : KeepsFinger missed
unfolding missed
missed-finger id i f h = record {
  indexed = h.indexed;
  starts = h.starts;
  honest = λ e. ground (arith, e);
}

pub lost-finger : KeepsFinger lost
unfolding lost
lost-finger id i f h =
    if_cases (IsFinger id i) (is_fresh f.status)
      (λ _. record { indexed = h.indexed; starts = h.starts; honest = λ e. ground (arith, e) })
      (λ _. h)

pub write_finger-IsTable :
    (j : ℕ) (failed : FingerEntry → FingerEntry) (when : ℕ) (a : Reply NodeInfo) (n : Node)
    → KeepsFinger failed
    → IsTable n
    → IsTable (write_finger j failed when a n)
unfolding write_finger
write_finger-IsTable j failed when (reply s) n k h =
    at_index-IsTable (found s when) j n.self.node_id 0 n.fingers (found-finger s when) h
write_finger-IsTable j failed when (refuse e) n k h =
    at_index-IsTable failed j n.self.node_id 0 n.fingers k h

pub mark_success-IsTable : (id : Bytes) (n : Node) → IsTable n → IsTable (mark_success id n)
unfolding mark_success
mark_success-IsTable id n h = map-IsTable (clear id) n.self.node_id 0 n.fingers (clear-finger id) h

pub mark_failure-IsTable : (id : Bytes) (n : Node) → IsTable n → IsTable (mark_failure id n).1
unfolding mark_failure
mark_failure-IsTable id n h =
    if_cases {A = (ℕ × Bool) × Node} (λ r. IsTable r.1)
      (leb n.options.failed_threshold (n.failures id + 1) && ltb 0 n.options.failed_threshold)
      (λ _. map-IsTable (forget id n.self) n.self.node_id 0 n.fingers (forget-finger id n.self) h)
      (λ _. map-IsTable (suspect id) n.self.node_id 0 n.fingers (suspect-finger id) h)

pub activate_single_node-IsTable :
    (when : ℕ) (n : Node) → IsTable n → IsTable (activate_single_node when n)
unfolding activate_single_node
activate_single_node-IsTable when n h =
    map-IsTable (own_finger n.self) n.self.node_id 0 n.fingers
      (λ id i f g. record { indexed = g.indexed; starts = g.starts; honest = λ e. refl }) h

pub first_finger-IsTable :
    (s : NodeInfo) (id : Bytes) (i : ℕ) (l : List FingerEntry)
    → IsTableFrom id i l
    → IsTableFrom id i (first_finger s l)
unfolding first_finger
first_finger-IsTable s id i [] h = h
first_finger-IsTable s id i (f ∷ l) (h, hs) =
    (record { indexed = h.indexed; starts = h.starts; honest = λ e. refl }, hs)

pub joined_finger-IsTable :
    (s : NodeInfo) (id : Bytes) (i : ℕ) (l : List FingerEntry)
    → IsTableFrom id i l
    → IsTableFrom id i (joined_finger s l)
joined_finger-IsTable s id i [] h = h
joined_finger-IsTable s id i (f ∷ l) (h, hs) =
    (record { indexed = h.indexed; starts = h.starts; honest = λ e. refl }, hs)
