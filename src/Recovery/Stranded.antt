-- ===== src/Recovery/Stranded.antt =====
-- A recovery whose first live peer does not let the node join.
use mathlib.Core.Option.{none-ne-some}
use chord_dht.Base.{
  ℕ, ◌≡◌, refl, sym, ◌∙◌, true, false, not, ◌||◌, none, List, [], ◌∷◌, Bytes, same, is_empty,
  if_cases, option_cases,
}
use chord_dht.Join.{
  activate_single_node, register_tracker, activate_alone, try_seeds, join_network_with_seeds,
}
use chord_dht.Node.{identity}
use chord_dht.Recovery.{collect_bootstrap_seeds, join_network, recover_loop}
use chord_dht.Types.{NodeInfo, joining, core, is_active}
use chord_dht.Uri.{Platform, validate_node_info}
use chord_dht.World.{Net, World, passed, with_node}

-- An active node that is a ring of its own.
pub record IsAlone (w : World) : Type 0 where
  pub working : is_active w.node.status ≡ true
  pub own_successor : w.node.successor ≡ core w.node.self
  pub own_list : w.node.successor_list ≡ core w.node.self ∷ []
  pub no_predecessor : w.node.predecessor ≡ none

module _ (net : Net) (os : Platform)
    (refused : (i : ℕ) (uri : Bytes) (n : NodeInfo) → net.join i uri n ≡ none) where
  activate_alone-IsAlone : (w : World) → IsAlone (activate_alone net os none w)
  unfolding activate_alone activate_single_node register_tracker
  activate_alone-IsAlone w = record {
    working = refl;
    own_successor = refl;
    own_list = refl;
    no_predecessor = refl;
  }

  try_seeds-IsAlone :
      (c : NodeInfo) (l : List NodeInfo) (w : World) → IsAlone (try_seeds net os none c l w)
  unfolding try_seeds
  try_seeds-IsAlone c [] w = activate_alone-IsAlone w
  try_seeds-IsAlone c (seed ∷ l) w =
      if_cases IsAlone (same seed.node_id c.node_id || not (validate_node_info os seed))
        (λ _. try_seeds-IsAlone c l w)
        (λ _.
          option_cases IsAlone (net.join w.calls seed.uri c)
            (λ _. try_seeds-IsAlone c l (passed net w))
            (λ r found. absurd (none-ne-some r (sym (refused w.calls seed.uri c) ∙ found))))

  join-IsAlone : (l : List NodeInfo) (w : World) → IsAlone (join_network_with_seeds net os none l w)
  unfolding join_network_with_seeds
  join-IsAlone [] w = activate_alone-IsAlone (with_node (record w.node { status = joining }) w)
  join-IsAlone (seed ∷ l) w =
      let w1 = with_node (record w.node { status = joining }) w in
      let c = record (core (identity w1.node)) { certificate = w1.node.options.node_certificate } in
      if_cases IsAlone (not net.has_client) (λ _. activate_alone-IsAlone w1)
        (λ _. try_seeds-IsAlone c (seed ∷ l) w1)

  join_network-IsAlone : (l : List NodeInfo) (w : World) → IsAlone (join_network net os none l w)
  unfolding join_network
  join_network-IsAlone l w =
      let (seeds, w1) = collect_bootstrap_seeds net os none l w in join-IsAlone seeds w1

  -- If no peer lets the node join and there is no tracker, then the recovery takes the first node of its
  -- list that answers a ping for a success: it says that the node is recovered, leaves it an active
  -- ring of one, and does not try the nodes after it, whichever they are.
  pub recover_loop-IsAlone :
      (self_id : Bytes) (node : NodeInfo) (l : List NodeInfo) (w : World)
      → (is_empty node.node_id || same node.node_id self_id) ≡ false
      → net.ping w.calls node.uri ≡ true
      → ((recover_loop net os none self_id (node ∷ l) w).0 ≡ true)
        × IsAlone (recover_loop net os none self_id (node ∷ l) w).1
        × (recover_loop net os none self_id (node ∷ l) w
            ≡ recover_loop net os none self_id (node ∷ []) w)
  unfolding recover_loop
  recover_loop-IsAlone self_id node l w other live =
      let w1 = passed net w in
      let alone = join_network-IsAlone (node ∷ []) w1 in
      rw (other, recover_loop, live, alone.working) (refl, alone, refl)
