-- ===== src/Tests/Peers.antt =====
-- Lists of peers, their descriptions, and the failures that are counted.
use chord_dht.Base.{
  ◌+◌, ◌≡◌, ◌≢◌, ◌↔◌, ◌⊎◌, refl, sym, ◌^◌, true, false, some, [], ◌∷◌, codes, is_empty, All, arith,
}
use chord_dht.Failures.{mark_failure}
use chord_dht.Failures.Eviction.{mark_failure-evicts}
use chord_dht.Id.{validate_id, id_to_big, set_string, digit_value, all_hex, is_hex}
use chord_dht.Node.{Node}
use chord_dht.SuccessorList.{merge_successor_list, successor_list_violations}
use chord_dht.SuccessorList.Merge.{IsMerged, merge_successor_list-IsMerged}
use chord_dht.SuccessorList.Order.{Climbs, first_id, successor_list_violations_iff}
use chord_dht.Tests.Data.{
  id_a, id_b, id_c, node_a, node_b, node_c, the_node, hash, platform, keeps, net, world,
}
use chord_dht.Uri.{normalize_uri, validate_node_info}
use chord_dht.Uri.Checks.{validate_node_info_iff}
use chord_dht.Validation.{validate_successor_list}
use chord_dht.Validation.Outcome.{IsValidated, IsIsolated, validate_successor_list-outcome}

differ : id_a ≢ id_b
differ e = ground arith

differ_c : id_a ≢ id_c
differ_c e = ground arith

merge_successor_list-IsMerged_example :
    IsMerged the_node node_b
      (node_c ∷ node_b ∷ node_a ∷ [])
      (merge_successor_list the_node node_b (node_c ∷ node_b ∷ node_a ∷ []))
merge_successor_list-IsMerged_example =
    merge_successor_list-IsMerged the_node node_b (node_c ∷ node_b ∷ node_a ∷ [])

successor_list_violations_iff_example :
    (successor_list_violations id_a id_b (node_b ∷ node_c ∷ []) ≡ [])
    ↔ ((first_id (node_b ∷ node_c ∷ []) ≡ some id_b) × Climbs (2 ^ 156) 0 (node_b ∷ node_c ∷ []))
unfolding id_to_big validate_id set_string digit_value all_hex is_hex
successor_list_violations_iff_example =
    successor_list_violations_iff id_a id_b (node_b ∷ node_c ∷ []) refl
      ((2 ^ 157, refl), ((2 ^ 156 + 2 ^ 157, refl), tt))
      ((λ e. differ (sym e)), ((λ e. differ_c (sym e)), tt)) refl

validate_successor_list-outcome_example :
    IsValidated 3 id_a (validate_successor_list net world)
    ⊎ IsIsolated id_a (validate_successor_list net world).node
validate_successor_list-outcome_example = validate_successor_list-outcome net world keeps

-- The node when b failed twice.
abbrev failing : Node
failing = record the_node { failures = λ id. 2 }

evicted : (mark_failure id_b failing).0.1 ≡ true
unfolding mark_failure
evicted = refl

mark_failure-evicts_example :
    All (λ f. f.node.node_id ≢ id_b) (mark_failure id_b failing).1.fingers
    × All (λ e. e.node_id ≢ id_b) (mark_failure id_b failing).1.successor_list
mark_failure-evicts_example = mark_failure-evicts id_b failing differ evicted

validate_node_info_iff_example : (validate_node_info platform node_b ≡ true) ↔ (
    (validate_id id_b ≡ true)
    × (normalize_uri platform (codes "https://b") ≡ some (codes "https://b"))
    × ((is_empty node_b.anchor_id ≡ false) ⊎ (hash (codes "https://b") ≡ id_b)))
validate_node_info_iff_example = validate_node_info_iff platform node_b
