-- ===== src/Join/Anchored.antt =====
-- A node that joins.
use chord_dht.Base.{
  ℕ, refl, not, ◌||◌, ◌&&◌, Option, List, [], ◌∷◌, Bytes, same, is_empty, arith, if_cases,
  option_cases,
}
use chord_dht.Join.{
  activate_single_node, take_region, call_tracker, register_tracker, activate_alone, join_with,
  try_seeds, join_network_with_seeds, seed_list, adopt_successor,
}
use chord_dht.Liveness.{rectify_peer}
use chord_dht.Node.{Node, identity, is_vnode}
use chord_dht.Stabilize.Writes.{IsAnchored, validated-IsAnchored}
use chord_dht.Types.{NodeInfo, JoinResponse, joining, core}
use chord_dht.Uri.{Platform, validate_node_info}
use chord_dht.Validation.{validate_successor_list}
use chord_dht.Validation.Outcome.{
  validate_successor_list-outcome, validate_successor_list-Continues,
}
use chord_dht.World.{Net, World, Keeps, passed, with_node, now}

pub activate_single_node-IsAnchored :
    (when : ℕ) (n : Node) → IsAnchored (activate_single_node when n)
unfolding activate_single_node
activate_single_node-IsAnchored when n = record { headed = refl; bounded = ground arith }

module _ (net : Net) (k : Keeps net)
    (calm : (i : ℕ) (n : Node) → IsAnchored n → IsAnchored (net.others i n)) (os : Platform)
    (tracker : Option (ℕ → Option Bytes)) where
  take_region-IsAnchored :
      (region : Bytes) (n : Node) → IsAnchored n → IsAnchored (take_region net region n)
  unfolding take_region
  take_region-IsAnchored region n a =
      if_cases IsAnchored (is_empty n.region && not (is_empty region))
        (λ _. record { headed = a.headed; bounded = a.bounded }) (λ _. a)

  call_tracker-IsAnchored :
      (register : ℕ → Option Bytes) (w : World)
      → IsAnchored w.node
      → IsAnchored (call_tracker net os tracker register w).node
  unfolding call_tracker
  call_tracker-IsAnchored register w a =
      let after = calm w.calls w.node a in
      option_cases {A = World} (λ v. IsAnchored v.node) (register w.calls) (λ _. after)
        (λ region _. take_region-IsAnchored region (net.others w.calls w.node) after)

  register_tracker-IsAnchored :
      (w : World) → IsAnchored w.node → IsAnchored (register_tracker net os tracker w).node
  unfolding register_tracker
  register_tracker-IsAnchored w a =
      option_cases {A = World} (λ v. IsAnchored v.node) tracker (λ _. a)
        (λ register _.
          if_cases {A = World} (λ v. IsAnchored v.node) (is_vnode w.node) (λ _. a)
            (λ _. call_tracker-IsAnchored register w a))

  activate_alone-IsAnchored : (w : World) → IsAnchored (activate_alone net os tracker w).node
  unfolding activate_alone
  activate_alone-IsAnchored w =
      register_tracker-IsAnchored (with_node (activate_single_node (now net w) w.node) w)
        (activate_single_node-IsAnchored (now net w) w.node)

  validated :
      (w : World)
      → IsAnchored (register_tracker net os tracker (validate_successor_list net w)).node
  validated w = register_tracker-IsAnchored (validate_successor_list net w) (
      validated-IsAnchored w (validate_successor_list net w)
        (validate_successor_list-outcome net w k)
        (validate_successor_list-Continues net w k).same_options)

  join_with-IsAnchored :
      (with_cert : NodeInfo) (r : JoinResponse) (w : World)
      → IsAnchored (join_with net os tracker with_cert r w).node
  unfolding join_with
  join_with-IsAnchored with_cert r w =
      let (remote, w1) = seed_list net r w in
      validated (
        rectify_peer net r.successor with_cert
          (with_node (adopt_successor net (now net w1) r.successor remote w1.node) w1))

  try_seeds-IsAnchored :
      (with_cert : NodeInfo) (l : List NodeInfo) (w : World)
      → IsAnchored (try_seeds net os tracker with_cert l w).node
  unfolding try_seeds
  try_seeds-IsAnchored with_cert [] w = activate_alone-IsAnchored w
  try_seeds-IsAnchored with_cert (seed ∷ l) w =
      let P : World → Type 0 = λ v. IsAnchored v.node in
      if_cases P (same seed.node_id with_cert.node_id || not (validate_node_info os seed))
        (λ _. try_seeds-IsAnchored with_cert l w)
        (λ _.
          option_cases P (net.join w.calls seed.uri with_cert)
            (λ _. try_seeds-IsAnchored with_cert l (passed net w))
            (λ r _.
              if_cases P (validate_node_info os r.successor)
                (λ _. join_with-IsAnchored with_cert r (passed net w))
                (λ _. try_seeds-IsAnchored with_cert l (passed net w))))

  -- If the other goroutines keep the identity and the options of the node, and its successor at the head
  -- of a list within the size, then a join, whatever the seeds, the peers and the tracker answer, ends
  -- with the successor at the head of a list within the size.
  pub join_network_with_seeds-IsAnchored :
      (seeds : List NodeInfo) (w : World)
      → IsAnchored (join_network_with_seeds net os tracker seeds w).node
  unfolding join_network_with_seeds
  join_network_with_seeds-IsAnchored [] w =
      activate_alone-IsAnchored (with_node (record w.node { status = joining }) w)
  join_network_with_seeds-IsAnchored (seed ∷ l) w =
      let w1 = with_node (record w.node { status = joining }) w in
      let with_cert = record (core (identity w1.node)) {
        certificate = w1.node.options.node_certificate;
      } in
      if_cases {A = World} (λ v. IsAnchored v.node) (not net.has_client)
        (λ _. activate_alone-IsAnchored w1) (λ _. try_seeds-IsAnchored with_cert (seed ∷ l) w1)
