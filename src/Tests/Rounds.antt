-- ===== src/Tests/Rounds.antt =====
-- Rounds of the protocol at the node a.
use chord_dht.Base.{
  ◌+◌, ◌≤◌, ◌<◌, ◌≡◌, ◌≢◌, ◌↔◌, ◌^◌, refl, true, false, none, some, [], ◌∷◌, Bytes, Bytes-discrete,
  codes, leb, length, arith,
}
use mathlib.Core.List.{head?}
use chord_dht.Id.{
  validate_id, id_to_big, set_string, digit_value, all_hex, is_hex, open_open, in_range_open_open,
  in_range_open_closed, open_closed,
}
use chord_dht.Id.Arc.{arc}
use chord_dht.Join.{join_network_with_seeds}
use chord_dht.Join.Anchored.{join_network_with_seeds-IsAnchored}
use chord_dht.Leave.{handle_leave}
use chord_dht.Leave.Handled.{handle_leave-successor, handle_leave_of_two}
use chord_dht.Lookup.{
  closest_preceding_node, collect_candidates, handle_find_successor, hop_limit, recall, route,
  gather_fingers, gather, trusted, best_of, bit_len_loop, build_piggyback, choose_best, score,
}
use chord_dht.Lookup.Step.{IsForward, handle_find_successor-IsForward}
use chord_dht.Rectify.{accepts, set_predecessor, decide_candidate, handle_rectify}
use chord_dht.Rectify.Closer.{decide_candidate-closer}
use chord_dht.Rectify.Replies.{handle_rectify_iff}
use chord_dht.RoutingCache.{new_routing_cache, get, covers, first_cover}
use chord_dht.Store.{find, empty}
use chord_dht.Stabilize.{stabilize}
use chord_dht.Stabilize.Anchored.{stabilize-IsAnchored}
use chord_dht.Stabilize.Writes.{IsAnchored}
use chord_dht.SuccessorList.{size_limit}
use chord_dht.Tests.Data.{
  in_order, id_a, id_b, id_c, node_a, node_b, node_c, the_node, platform, net, keeps, world,
  scoring,
}
use chord_dht.Types.{
  NodeInfo, core, FindSuccessorRequest, FindSuccessorResponse, LeaveRequest, successor_leaving,
  reply, refuse, ApiError, is_reply, is_leaving, is_joining,
}
use chord_dht.Uri.{validate_node_info}

stabilize-IsAnchored_example : IsAnchored (stabilize platform net world).node
stabilize-IsAnchored_example = stabilize-IsAnchored net keeps platform world refl

differ : id_b ≢ id_a
differ e = ground arith

c-accepted : (decide_candidate node_c (some node_b) true the_node).0.accepted ≡ true
unfolding decide_candidate accepts set_predecessor in_range_open_open open_open id_to_big
    validate_id set_string digit_value all_hex is_hex Bytes-discrete
c-accepted = refl

decide_candidate-closer_example : arc (2 ^ 156 + 2 ^ 157) (2 ^ 156) < arc (2 ^ 157) (2 ^ 156)
unfolding id_to_big validate_id set_string digit_value all_hex is_hex
decide_candidate-closer_example =
    decide_candidate-closer node_c node_b the_node (some node_b) refl refl refl refl c-accepted

handle_rectify_iff_example :
    ((is_reply (handle_rectify platform net node_c world).0 ≡ true) ↔ (
      (validate_node_info platform node_c ≡ true)
      × (is_leaving the_node.status ≡ false)
      × (is_joining the_node.status ≡ false)
      × (id_c ≢ id_a)))
    × ((e : ApiError)
        → (handle_rectify platform net node_c world).0 ≡ refuse e
        → (handle_rectify platform net node_c world).1 ≡ world)
handle_rectify_iff_example = handle_rectify_iff platform net node_c world

abbrev leave_request : NodeInfo → LeaveRequest
leave_request s = record {
  role = successor_leaving;
  new_predecessor = none;
  new_successor = some s;
}

differ_c : id_c ≢ id_a
differ_c e = ground arith

handle_leave-successor_example :
    ((handle_leave (leave_request node_c) the_node).0 ≡ reply true)
    × ((handle_leave (leave_request node_c) the_node).1.successor ≡ core node_c)
    × (head? (handle_leave (leave_request node_c) the_node).1.successor_list ≡ some (core node_c))
    × (length (handle_leave (leave_request node_c) the_node).1.successor_list ≤ size_limit the_node)
    × ((handle_leave (leave_request node_c) the_node).1.predecessor ≡ some node_b)
handle_leave-successor_example =
    handle_leave-successor (leave_request node_c) the_node node_c refl refl refl differ_c

handle_leave_of_two_example :
    ((handle_leave (leave_request node_a) the_node).1.successor.node_id ≡ id_a)
    × (head? (handle_leave (leave_request node_a) the_node).1.successor_list ≡ some (core node_b))
handle_leave_of_two_example =
    handle_leave_of_two (leave_request node_a) the_node node_a node_b (node_c ∷ []) refl refl refl
      refl refl differ

-- A node whose finger table is better than its successor.
abbrev target : Bytes
target = codes "5000000000000000000000000000000000000000"

abbrev request : FindSuccessorRequest
request = record {
  id = target;
  hop_count = 2;
  max_hops = 0;
  visited_nodes = [];
  requester_region = [];
  prefer_region = [];
}

abbrev answer : FindSuccessorResponse
answer = record {
  found = false;
  successor = none;
  next_hop = some node_c;
  hop_count = 3;
  cached = false;
  piggyback = none;
}

forwarded : (handle_find_successor scoring in_order 7 [] request the_node).0 ≡ reply answer
unfolding handle_find_successor validate_id recall get find new_routing_cache route Bytes-discrete
    in_range_open_closed id_to_big set_string digit_value closest_preceding_node collect_candidates
    gather_fingers gather trusted in_range_open_open all_hex is_hex open_closed open_open best_of
    bit_len_loop build_piggyback choose_best score covers first_cover empty
forwarded = refl

handle_find_successor-IsForward_example :
    (validate_id target ≡ true)
    × (leb (hop_limit scoring request the_node) 2 ≡ false)
    × IsForward the_node request answer
handle_find_successor-IsForward_example =
    handle_find_successor-IsForward scoring in_order 7 [] request the_node answer forwarded refl

join_network_with_seeds-IsAnchored_example :
    IsAnchored (join_network_with_seeds net platform none (node_a ∷ node_c ∷ []) world).node
join_network_with_seeds-IsAnchored_example =
    join_network_with_seeds-IsAnchored net keeps (λ i n a. a) platform none (node_a ∷ node_c ∷ [])
      world
