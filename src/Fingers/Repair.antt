-- ===== src/Fingers/Repair.antt =====
-- The repair of fingers: `FixFingers`, `repairFingerIndices`, `fixFingersBatch` and
-- `warmUpFingerTable` of internal/chord/maintenance.go. The goroutines of a batch take their turns in
-- the order of the indices; what others do meanwhile is in `others`.
use chord_dht.Base.{
  ℕ, zero, suc, ◌+◌, ◌%◌, Bool, true, false, none, some, List, [], ◌∷◌, Bytes, ltb, get_elem?,
  if◌then◌else◌,
}
use chord_dht.Fingers.{exponential_jump_index, next_k_finger_indices}
use chord_dht.Id.{m}
use chord_dht.Lookup.{Scoring}
use chord_dht.Lookup.Iterative.{lookup_successor}
use chord_dht.Node.{Node}
use chord_dht.RoutingCache.{RoutingEntry}
use chord_dht.Types.{
  NodeInfo, FingerEntry, FingerStatus, fresh, suspicious, active_maintenance, quiet_maintenance,
  Reply, reply, refuse, core,
}
use chord_dht.World.{Net, World, with_node, now}

-- A change of the finger at an index.
abbrev pub at_index : (FingerEntry → FingerEntry) → ℕ → List FingerEntry → List FingerEntry
at_index f i [] = []
at_index f zero (x ∷ l) = f x ∷ l
at_index f (suc i) (x ∷ l) = x ∷ at_index f i l

-- `n.fingers[i].Start`; the table has an entry for every index.
abbrev pub start_of : ℕ → Node → Bytes
start_of i n = elim (get_elem? n.fingers i) [ none ↦ [] | some f ↦ f.start ]

abbrev pub demoted : FingerStatus → FingerStatus
demoted fresh = suspicious
demoted s = s

abbrev pub is_fresh : FingerStatus → Bool
is_fresh fresh = true
is_fresh _ = false

unfoldable pub found : NodeInfo → ℕ → FingerEntry → FingerEntry
found s when f = record f { node = core s; status = fresh; valid = true; last_verified = when }

-- A lookup that failed, in a batch and in `FixFingers`.
unfoldable pub missed : FingerEntry → FingerEntry
missed f = record f { valid = false; status = demoted f.status }

unfoldable pub lost : FingerEntry → FingerEntry
lost f = if is_fresh f.status then record f { valid = false; status = suspicious } else f

unfoldable pub get_batch_size : Node → ℕ
get_batch_size n = elim n.maintenance_mode [
  | active_maintenance ↦
      if ltb 0 n.options.fix_fingers_batch_size_active
      then n.options.fix_fingers_batch_size_active
      else 8
  | quiet_maintenance ↦
      if ltb 0 n.options.fix_fingers_batch_size_quiet
      then n.options.fix_fingers_batch_size_quiet
      else 4
]

unfoldable pub warm_up_indices : ℕ → ℕ → List ℕ
warm_up_indices i zero = []
warm_up_indices i (suc count) = exponential_jump_index i ∷ warm_up_indices (suc i) count

unfoldable pub write_finger : ℕ → (FingerEntry → FingerEntry) → ℕ → Reply NodeInfo → Node → Node
write_finger i failed when (reply s) n = record n { fingers = at_index (found s when) i n.fingers }
write_finger i failed when (refuse e) n = record n { fingers = at_index failed i n.fingers }

module _ {F : Type 0} (sc : Scoring F)
    (visit : List (Bytes × RoutingEntry) → List (Bytes × RoutingEntry)) (hints : List (Bytes × ℕ))
    (net : Net) where
  unfoldable pub repair_index : ℕ → World → World
  repair_index i w =
      let (answer, w1) = lookup_successor sc visit hints net (start_of i w.node) w in
      with_node (write_finger i missed (now net w1) answer w1.node) w1

  unfoldable pub repair_finger_indices : List ℕ → World → World
  repair_finger_indices [] w = w
  repair_finger_indices (i ∷ l) w = repair_finger_indices l (repair_index i w)

  unfoldable pub fix_fingers_batch : World → World
  fix_fingers_batch w =
      let (indices, n) = next_k_finger_indices (get_batch_size w.node) w.node in
      repair_finger_indices indices (with_node n w)

  unfoldable pub warm_up_finger_table : World → World
  warm_up_finger_table w = repair_finger_indices (warm_up_indices 0 32) w

  unfoldable pub fix_fingers : World → World
  fix_fingers w =
      let i = w.node.next_finger_index in
      let (answer, w1) = lookup_successor sc visit hints net (start_of i w.node) w in
      let n = write_finger i lost (now net w1) answer w1.node in
      with_node (record n { next_finger_index = (i + 1) % m }) w1
