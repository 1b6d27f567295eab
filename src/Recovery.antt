-- ===== src/Recovery.antt =====
-- The bootstrap of internal/chord/node.go (`JoinNetwork`, `collectBootstrapSeeds`,
-- `retryBootstrapIfSingleton`) and the recovery of an isolated node of internal/chord/maintenance.go
-- (`tryRecoverFromIsolation` and what it calls).
pub mod Anchored
pub mod Stranded
use chord_dht.Base.{
  ℕ, zero, suc, ◌+◌, ◌-◌, ◌/◌, Bool, true, false, not, ◌&&◌, ◌||◌, Option, none, some, List, [],
  ◌∷◌, ◌++◌, Bytes, same, is_empty, has, length, get_elem?, ltb, leb, ◌==◌, if◌then◌else◌,
}
use chord_dht.Id.{m}
use chord_dht.Join.{activate_single_node, join_network_with_seeds}
use chord_dht.Node.{Node, dedupe_nodes}
use chord_dht.Types.{NodeInfo, FingerEntry, is_active}
use chord_dht.Uri.{Platform}
use chord_dht.World.{Net, World, with_node, passed, now}

-- `Register` and `Seeds` of the tracker, by the number of the call; `Seeds` is given the wanted count
-- and the identifiers to leave out.
pub record Tracker : Type 0 where
  pub register : ℕ → Option Bytes
  pub seeds : ℕ → ℕ → List Bytes → Option (List NodeInfo)

abbrev pub register_of : Option Tracker → Option (ℕ → Option Bytes)
register_of none = none
register_of (some t) = some t.register

abbrev pub configured : Option Tracker → Bool
configured none = false
configured (some t) = true

-- The loop of `sampleFingers` from the index `i`; every turn takes one of the steps.
unfoldable pub sample_from : ℕ → ℕ → ℕ → ℕ → List Bytes → List FingerEntry → List NodeInfo
sample_from zero step max i seen fingers = []
sample_from (suc turns) step max i seen fingers = elim (ltb i m && ltb 0 max) [
  | false ↦ []
  | true ↦ elim (get_elem? fingers i) [
    | none ↦ []
    | some f ↦ elim (is_empty f.node.node_id || has f.node.node_id seen) [
      | true ↦ sample_from turns step max (i + step) seen fingers
      | false ↦ f.node ∷ sample_from turns step (max - 1) (i + step) (f.node.node_id ∷ seen) fingers
    ]
  ]
]

-- `max` is positive.
unfoldable pub sample_fingers : ℕ → Node → List NodeInfo
unfolding sample_from
sample_fingers max n =
    let step = if ltb (m / max) 1 then 1 else m / max in
    sample_from m step max 0 (n.self.node_id ∷ []) n.fingers

unfoldable pub should_retry_bootstrap : Bool → Bool → Node → Bool
should_retry_bootstrap has_client has_tracker n =
    if not has_client || not (is_active n.status) then false else elim n.predecessor [
      | some _ ↦ false
      | none ↦
          if not (same n.successor.node_id n.self.node_id)
          then false
          else has_tracker || ltb 0 (length n.bootstrap_seeds)
    ]

module _ (net : Net) (os : Platform) (tracker : Option Tracker) where
  -- What the tracker and the configuration offer, without the node itself and without repeats.
  unfoldable pub collect_bootstrap_seeds : List NodeInfo → World → List NodeInfo × World
  collect_bootstrap_seeds manual w =
      let asked : List NodeInfo × World = elim tracker [
        | none ↦ (manual, w)
        | some t ↦
            elim (t.seeds w.calls w.node.options.tracker_seed_count (w.node.self.node_id ∷ [])) [
              | none ↦ (manual, passed net w)
              | some l ↦ (l ++ manual, passed net w)
            ]
      ] in
      let (all, w1) = asked in
      let seeds = dedupe_nodes all w1.node.self.node_id in
      (seeds, with_node (record w1.node { bootstrap_seeds = seeds }) w1)

  unfoldable pub join_network : List NodeInfo → World → World
  join_network manual w =
      let (seeds, w1) = collect_bootstrap_seeds manual w in
      join_network_with_seeds net os (register_of tracker) seeds w1

  unfoldable pub retry_bootstrap_if_singleton : World → Bool × World
  retry_bootstrap_if_singleton w =
      let (seeds, w1) = collect_bootstrap_seeds w.node.bootstrap_seeds w in
      let w2 = join_network_with_seeds net os (register_of tracker) seeds w1 in
      let recovered =
        is_active w2.node.status && not (same w2.node.successor.node_id w2.node.self.node_id) in
      if not (should_retry_bootstrap net.has_client (configured tracker) w.node)
      then (false, w)
      else if length seeds == 0
      then (false, w1)
      else (recovered, w2)

  -- The loop over the nodes, for a node with the identifier `self_id`.
  unfoldable pub recover_loop : Bytes → List NodeInfo → World → Bool × World
  recover_loop self_id [] w = (false, w)
  recover_loop self_id (node ∷ l) w =
      let w1 = passed net w in
      let joined = join_network (node ∷ []) w1 in
      let skip = recover_loop self_id l w in
      let missed = recover_loop self_id l w1 in
      let failed = recover_loop self_id l joined in
      if is_empty node.node_id || same node.node_id self_id
      then skip
      else if not (net.ping w.calls node.uri)
      then missed
      else if is_active joined.node.status
      then (true, joined)
      else failed

  unfoldable pub try_recover_from_nodes : List NodeInfo → World → Bool × World
  try_recover_from_nodes nodes w =
      let tried = recover_loop w.node.self.node_id nodes w in
      if not net.has_client || length nodes == 0 then (false, w) else tried

  abbrev pub alone : World → World
  alone w = with_node (activate_single_node (now net w) w.node) w

  unfoldable pub rejoin : List NodeInfo → World → World
  rejoin [] w = alone w
  rejoin (s ∷ l) w = join_network (s ∷ l) w

  -- The tracker's seeds, the last path but one.
  unfoldable pub recover_by_tracker : World → World
  recover_by_tracker w = elim tracker [
    | none ↦ alone w
    | some t ↦
        let w1 = passed net w in
        elim (t.seeds w.calls w.node.options.tracker_seed_count (w.node.self.node_id ∷ [])) [
          | none ↦ alone w1
          | some l ↦ rejoin l w1
        ]
  ]

  unfoldable pub try_recover_from_isolation : World → World
  try_recover_from_isolation w =
      let (a, w1) = try_recover_from_nodes w.node.successor_list w in
      let (b, w2) = try_recover_from_nodes w1.node.predecessor_list w1 in
      let (c, w3) = try_recover_from_nodes (sample_fingers 16 w2.node) w2 in
      let rest = recover_by_tracker w3 in if a then w1 else if b then w2 else if c then w3 else rest
