-- ===== src/Validation.antt =====
-- `validateSuccessorList` of internal/chord/maintenance.go: ping every entry, drop the dead and the
-- doubled, extend a short list from its last entry, and store what is left.
-- The pings of the source run at once; here they run in list order, which loses nothing since each
-- answer depends on the number of its call, and `Net` may give any.
pub mod Entries
pub mod Calls
pub mod Outcome
use chord_dht.Base.{
  ℕ, suc, ◌-◌, Bool, true, false, not, ◌&&◌, ◌||◌, Option, none, some, List, [], ◌∷◌, ◌++◌, Bytes,
  same, is_empty, has, leb, ltb, ◌==◌, if◌then◌else◌, length, set,
}
use chord_dht.Liveness.{ping_liveness, call_state}
use chord_dht.Node.{Node, emit_topology_change}
use chord_dht.SuccessorList.{Violation, size_limit, successor_list_violations}
use chord_dht.Types.{NodeInfo, RemoteState, FingerEntry, core, isolated, fresh}
use chord_dht.World.{Net, World, with_node, now}

abbrev pub ids_of : List NodeInfo → List Bytes
ids_of [] = []
ids_of (n ∷ l) = n.node_id ∷ ids_of l

abbrev pub last : List NodeInfo → Option NodeInfo
last [] = none
last (n ∷ []) = some n
last (n ∷ n' ∷ l) = last (n' ∷ l)

abbrev pub current_list : Node → List NodeInfo
current_list n = elim n.successor_list [
  | [] ↦ if is_empty n.successor.node_id then [] else n.successor ∷ []
  | a ∷ l ↦ a ∷ l
]

-- `fingers[0]` made to point at the successor.
unfoldable pub first_finger : NodeInfo → List FingerEntry → List FingerEntry
first_finger s [] = []
first_finger s (f ∷ fs) = record f { node = s; status = fresh; valid = true } ∷ fs

unfoldable pub isolate : NodeInfo → Option ℕ → Node → Node
isolate self when n = record n {
  status = isolated;
  predecessor = none;
  successor = self;
  successor_list = self ∷ [];
  successor_list_valid = false;
  last_invariant_check = when;
}

abbrev no_violations : List Violation → Bool
no_violations [] = true
no_violations (v ∷ l) = false

-- The entries that are kept, with the room that is left for them.
unfoldable pub live_entries : ℕ → List Bytes → List (NodeInfo × Bool) → List NodeInfo
live_entries room seen [] = []
live_entries room seen ((n, alive) ∷ l) =
    let skip = live_entries room seen l in
    let rest = live_entries (room - 1) (n.node_id ∷ seen) l in
    if not alive || (is_empty n.node_id || has n.node_id seen)
    then skip
    else if leb room 1
    then core n ∷ []
    else core n ∷ rest

module _ (net : Net) where
  unfoldable pub ping_all : List NodeInfo → World → List (NodeInfo × Bool) × World
  ping_all [] w = ([], w)
  ping_all (n ∷ l) w =
      let (alive, w1) = ping_liveness net n w in
      let (rest, w2) = ping_all l w1 in ((n, alive) ∷ rest, w2)

  -- The loop over the list of the last entry; `seen` holds the identifiers of `valid`.
  unfoldable pub extend : ℕ → Bytes → List NodeInfo → List NodeInfo → World → List NodeInfo × World
  extend limit self_id [] valid w = (valid, w)
  extend limit self_id (n ∷ l) valid w =
      let (alive, w1) = ping_liveness net n w in
      let skip = extend limit self_id l valid w in
      let dead = extend limit self_id l valid w1 in
      let rest = extend limit self_id l (valid ++ core n ∷ []) w1 in
      if length valid == limit
      then (valid, w)
      else if is_empty n.node_id || (same n.node_id self_id || has n.node_id (ids_of valid))
      then skip
      else if alive
      then rest
      else dead

  unfoldable pub extend_from :
      ℕ → Bytes → List NodeInfo → Option RemoteState × World → List NodeInfo × World
  extend_from limit self_id valid (none, w) = (valid, w)
  extend_from limit self_id valid (some s, w) = extend limit self_id s.successor_list valid w

  -- The extension of a list that is short and not empty.
  unfoldable pub extended : ℕ → Bytes → List NodeInfo → World → List NodeInfo × World
  extended limit self_id valid w = elim (last valid) [
    | none ↦ (valid, w)
    | some end ↦
        if not (ltb (length valid) limit && net.has_client) || same end.node_id self_id
        then (valid, w)
        else extend_from limit self_id valid (call_state net end w)
  ]

  -- The writes at the end, `self` and `valid` as they were found.
  unfoldable pub store_valid : NodeInfo → List NodeInfo → World → World
  store_valid self [] w =
      with_node (emit_topology_change (isolate self (some (now net w)) w.node)) w
  store_valid self (a ∷ l) w =
      with_node
        (record w.node {
          successor = a;
          successor_list = a ∷ l;
          successor_list_valid =
              no_violations (successor_list_violations self.node_id a.node_id (a ∷ l));
          last_invariant_check = some (now net w);
          fingers = first_finger a w.node.fingers;
        })
        w

  unfoldable pub validate_successor_list : World → World
  validate_successor_list w =
      let self = core w.node.self in
      let limit = size_limit w.node in
      let (results, w1) = ping_all (current_list w.node) w in
      let (valid, w2) = extended limit self.node_id (live_entries limit [] results) w1 in
      store_valid self valid w2
