-- ===== src/SuccessorList.antt =====
-- The successor list: `mergeSuccessorListLocked` of internal/chord/protocol.go and
-- `successorListViolations` of internal/chord/maintenance.go.
pub mod Merge
pub mod Order
use chord_dht.Base.{
  ℕ, suc, ◌+◌, ◌-◌, ◌*◌, Bool, true, false, not, ◌&&◌, ◌||◌, Option, none, some, List, [], ◌∷◌,
  ◌++◌, Bytes, same, is_empty, has, leb, ltb, ◌==◌, if◌then◌else◌, length,
}
use chord_dht.Id.{in_range_open_open}
use chord_dht.Node.{Node, default_successor_list_size}
use chord_dht.Types.{NodeInfo, core}

abbrev pub size_limit : Node → ℕ
size_limit n =
    if leb n.options.successor_list_size 0
    then default_successor_list_size
    else n.options.successor_list_size

-- `maxFromAnchor`
abbrev pub anchor_limit : Node → ℕ
anchor_limit n =
    let share = n.options.sibling_share (size_limit n) in if ltb share 1 then 1 else share

-- `anchorCount[anchor]`, of the anchors of the entries that were taken
abbrev pub count : Bytes → List Bytes → ℕ
count a [] = 0
count a (b ∷ bs) = let rest = count a bs in if same a b then suc rest else rest

-- The two `continue`s of the loop.
unfoldable pub skipped : ℕ → List Bytes → List Bytes → NodeInfo → Bool
skipped per_anchor seen anchors c =
    is_empty c.node_id
    || has c.node_id seen
    || (not (is_empty c.anchor_id) && leb per_anchor (count c.anchor_id anchors))

-- `anchorCount[candidate.AnchorID]++`, if there is one
abbrev pub counted : Bytes → List Bytes → List Bytes
counted a anchors = if is_empty a then anchors else a ∷ anchors

-- The loop, with the room that is left in `out`.
unfoldable pub merge_loop : ℕ → ℕ → List Bytes → List Bytes → List NodeInfo → List NodeInfo
merge_loop per_anchor room seen anchors [] = []
merge_loop per_anchor room seen anchors (c ∷ l) =
    let skip = merge_loop per_anchor room seen anchors l in
    let rest =
      merge_loop per_anchor (room - 1) (c.node_id ∷ seen) (counted c.anchor_id anchors) l in
    if skipped per_anchor seen anchors c
    then skip
    else if leb room 1
    then core c ∷ []
    else core c ∷ rest

abbrev or_self : NodeInfo → List NodeInfo → List NodeInfo
or_self self [] = core self ∷ []
or_self self (c ∷ l) = c ∷ l

unfoldable pub merge_successor_list : Node → NodeInfo → List NodeInfo → List NodeInfo
merge_successor_list n successor remote =
    or_self n.self (
      merge_loop (anchor_limit n) (size_limit n) (n.self.node_id ∷ []) [] (core successor ∷ remote))

-- A message of `successorListViolations`, with the position that it names.
pub data Violation : Type 0 where
  empty_list wrong_head : Violation
  empty_id duplicate out_of_order : ℕ → Violation

-- The loop over single entries; `i` is its index.
unfoldable pub entry_violations : ℕ → List Bytes → List NodeInfo → List Violation
entry_violations i seen [] = []
entry_violations i seen (n ∷ l) =
    let blank = empty_id i ∷ entry_violations (i + 1) seen l in
    let again = duplicate i ∷ entry_violations (i + 1) (n.node_id ∷ seen) l in
    let rest = entry_violations (i + 1) (n.node_id ∷ seen) l in
    if is_empty n.node_id then blank else if has n.node_id seen then again else rest

-- The loop over neighbouring entries.
unfoldable pub order_violations : ℕ → Bytes → List NodeInfo → List Violation
order_violations i self_id [] = []
order_violations i self_id (a ∷ []) = []
order_violations i self_id (a ∷ b ∷ l) =
    let rest = order_violations (i + 1) self_id (b ∷ l) in
    if same a.node_id self_id || same b.node_id self_id
    then rest
    else if in_range_open_open b.node_id a.node_id self_id
    then rest
    else out_of_order i ∷ rest

abbrev head_violations : Bytes → NodeInfo → List Violation
head_violations successor_id a =
    if not (is_empty successor_id) && not (same a.node_id successor_id) then wrong_head ∷ [] else []

unfoldable pub successor_list_violations : Bytes → Bytes → List NodeInfo → List Violation
successor_list_violations self_id successor_id [] = empty_list ∷ []
successor_list_violations self_id successor_id (a ∷ l) =
    head_violations successor_id a
    ++ entry_violations 0 [] (a ∷ l)
    ++ order_violations 0 self_id (a ∷ l)
