-- ===== src/Recovery/Anchored.antt =====
-- What a recovery leaves behind.
use chord_dht.Base.{
  ℕ, ◌≡◌, not, ◌||◌, Bool, true, Option, List, [], ◌∷◌, Bytes, same, is_empty, length, ◌==◌, arith,
  if_cases, option_cases,
}
use chord_dht.Join.Anchored.{join_network_with_seeds-IsAnchored, activate_single_node-IsAnchored}
use chord_dht.Node.{Node}
use chord_dht.Recovery.{
  Tracker, register_of, sample_fingers, collect_bootstrap_seeds, join_network, recover_loop,
  try_recover_from_nodes, alone, rejoin, recover_by_tracker, try_recover_from_isolation,
}
use chord_dht.Stabilize.Writes.{IsAnchored}
use chord_dht.Types.{NodeInfo, is_active}
use chord_dht.Uri.{Platform}
use chord_dht.World.{Net, World, Keeps, passed, now}

module _ (net : Net) (k : Keeps net)
    (calm : (i : ℕ) (n : Node) → IsAnchored n → IsAnchored (net.others i n)) (os : Platform)
    (tracker : Option Tracker) where
  join_network-IsAnchored :
      (manual : List NodeInfo) (w : World) → IsAnchored (join_network net os tracker manual w).node
  unfolding join_network
  join_network-IsAnchored manual w =
      let (seeds, w1) = collect_bootstrap_seeds net os tracker manual w in
      join_network_with_seeds-IsAnchored net k calm os (register_of tracker) seeds w1

  -- A loop that says that it recovered the node did.
  recover_loop-IsAnchored :
      (self_id : Bytes) (l : List NodeInfo) (w : World)
      → (recover_loop net os tracker self_id l w).0 ≡ true
      → IsAnchored (recover_loop net os tracker self_id l w).1.node
  unfolding recover_loop
  recover_loop-IsAnchored self_id [] w = λ e. ground arith
  recover_loop-IsAnchored self_id (node ∷ l) w =
      let P : Bool × World → Type 0 = λ r. r.0 ≡ true → IsAnchored r.1.node in
      let w1 = passed net w in
      let joined = join_network net os tracker (node ∷ []) w1 in
      if_cases P (is_empty node.node_id || same node.node_id self_id)
        (λ _. recover_loop-IsAnchored self_id l w)
        (λ _.
          if_cases P (not (net.ping w.calls node.uri)) (λ _. recover_loop-IsAnchored self_id l w1)
            (λ _.
              if_cases P (is_active joined.node.status)
                (λ _ _. join_network-IsAnchored (node ∷ []) w1)
                (λ _. recover_loop-IsAnchored self_id l joined)))

  try_recover_from_nodes-IsAnchored :
      (l : List NodeInfo) (w : World)
      → (try_recover_from_nodes net os tracker l w).0 ≡ true
      → IsAnchored (try_recover_from_nodes net os tracker l w).1.node
  unfolding try_recover_from_nodes
  try_recover_from_nodes-IsAnchored l w =
      if_cases {A = Bool × World} (λ r. r.0 ≡ true → IsAnchored r.1.node)
        (not net.has_client || length l == 0) (λ _ e. ground arith)
        (λ _. recover_loop-IsAnchored w.node.self.node_id l w)

  alone-IsAnchored : (w : World) → IsAnchored (alone net os tracker w).node
  alone-IsAnchored w = activate_single_node-IsAnchored (now net w) w.node

  rejoin-IsAnchored : (l : List NodeInfo) (w : World) → IsAnchored (rejoin net os tracker l w).node
  unfolding rejoin
  rejoin-IsAnchored [] w = alone-IsAnchored w
  rejoin-IsAnchored (s ∷ l) w = join_network-IsAnchored (s ∷ l) w

  recover_by_tracker-IsAnchored :
      (w : World) → IsAnchored (recover_by_tracker net os tracker w).node
  unfolding recover_by_tracker
  recover_by_tracker-IsAnchored w =
      let P : World → Type 0 = λ v. IsAnchored v.node in
      option_cases P tracker (λ _. alone-IsAnchored w)
        (λ t _.
          option_cases P
            (t.seeds w.calls w.node.options.tracker_seed_count (w.node.self.node_id ∷ []))
            (λ _. alone-IsAnchored (passed net w)) (λ l _. rejoin-IsAnchored l (passed net w)))

  -- If the other goroutines keep the identity and the options of the node, and its successor at the
  -- head of a list within the size, then the recovery of an isolated node ends with the successor at
  -- the head of a list within the size, whatever it found along the way.
  pub try_recover_from_isolation-IsAnchored :
      (w : World) → IsAnchored (try_recover_from_isolation net os tracker w).node
  unfolding try_recover_from_isolation
  try_recover_from_isolation-IsAnchored w =
      let (a, w1) = try_recover_from_nodes net os tracker w.node.successor_list w in
      let (b, w2) = try_recover_from_nodes net os tracker w1.node.predecessor_list w1 in
      let P : World → Type 0 = λ v. IsAnchored v.node in
      if_cases P a (λ e. try_recover_from_nodes-IsAnchored w.node.successor_list w e)
        (λ _.
          if_cases P b (λ e. try_recover_from_nodes-IsAnchored w1.node.predecessor_list w1 e)
            (λ _.
              if_cases P (try_recover_from_nodes net os tracker (sample_fingers 16 w2.node) w2).0
                (λ e. try_recover_from_nodes-IsAnchored (sample_fingers 16 w2.node) w2 e)
                (λ _.
                  recover_by_tracker-IsAnchored
                    (try_recover_from_nodes net os tracker (sample_fingers 16 w2.node) w2).1)))
