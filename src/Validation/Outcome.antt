-- ===== src/Validation/Outcome.antt =====
-- What a validation leaves behind.
use chord_dht.Base.{ℕ, ◌≡◌, ◌⊎◌, inl, inr, refl, false, none, some, List, [], ◌∷◌, Bytes, arith}
use mathlib.Core.List.{head?}
use chord_dht.Node.{Node, emit_topology_change}
use chord_dht.SuccessorList.{size_limit, successor_list_violations}
use chord_dht.Types.{NodeInfo, isolated, core}
use chord_dht.World.{Net, World, Keeps}
use chord_dht.Validation.{
  current_list, ping_all, live_entries, extended, store_valid, validate_successor_list, isolate,
  no_violations,
}
use chord_dht.Validation.Entries.{
  IsLive, Continues, Continues-trans, live_entries-Fresh, length-live_entries-le,
  live_entries-heard,
}
use chord_dht.Validation.Calls.{extended-Continues, ping_all_lem, extended_lem}

pub record IsValidated (limit : ℕ) (self_id : Bytes) (w : World) : Type 0 where
  pub live : IsLive limit self_id w.heard w.node.successor_list
  pub headed : head? w.node.successor_list ≡ some w.node.successor
  pub reported :
      w.node.successor_list_valid
      ≡ no_violations
          (successor_list_violations self_id w.node.successor.node_id w.node.successor_list)

-- Cut off: the node is its own and only successor.
pub record IsIsolated (self_id : Bytes) (n : Node) : Type 0 where
  pub status_isolated : n.status ≡ isolated
  pub no_predecessor : n.predecessor ≡ none
  pub own_successor : n.successor.node_id ≡ self_id
  pub alone : n.successor_list ≡ n.successor ∷ []
  pub not_valid : n.successor_list_valid ≡ false

store_valid_lem :
    (net : Net) (self : NodeInfo) (limit : ℕ) (valid : List NodeInfo) (w : World)
    → IsLive limit self.node_id w.heard valid
    → IsValidated limit self.node_id (store_valid net self valid w)
      ⊎ IsIsolated self.node_id (store_valid net self valid w).node
unfolding store_valid isolate emit_topology_change
store_valid_lem net self limit [] w v = inr (record {
  status_isolated = refl;
  no_predecessor = refl;
  own_successor = refl;
  alone = refl;
  not_valid = refl;
})
store_valid_lem net self limit (a ∷ l) w v =
    inl (record { live = v; headed = refl; reported = refl })

-- Whatever the peers answer, and whatever the other goroutines do meanwhile that keeps the identity
-- and the options of the node, a validation ends with a list whose head is the successor, that is
-- within the configured size, that has no empty and no double identifier, and whose every entry is
-- the node itself or answered a call; the validity flag is what the audit of that list says; or
-- the node is isolated, its own successor and with no predecessor.
pub validate_successor_list-outcome :
    (net : Net) (w : World)
    → Keeps net
    → IsValidated (size_limit w.node) w.node.self.node_id (validate_successor_list net w)
      ⊎ IsIsolated w.node.self.node_id (validate_successor_list net w).node
unfolding validate_successor_list
validate_successor_list-outcome net w k =
    let limit = size_limit w.node in
    let self_id = w.node.self.node_id in
    let pinged = ping_all net (current_list w.node) w in
    let (first, alive) = ping_all_lem net k (current_list w.node) w in
    let entries = live_entries limit [] pinged.0 in
    let live : IsLive limit self_id pinged.1.heard entries = record {
      fresh = live_entries-Fresh limit [] pinged.0;
      bounded = length-live_entries-le limit [] pinged.0 (ground arith);
      answered = live_entries-heard self_id pinged.1.heard limit [] pinged.0 alive;
    } in
    let (_, out) = extended_lem net k limit self_id entries pinged.1 first.same_id live in
    store_valid_lem net (core w.node.self) limit (extended net limit self_id entries pinged.1).0
      (extended net limit self_id entries pinged.1).1 out

store_valid-Continues :
    (net : Net) (self : NodeInfo) (valid : List NodeInfo) (w : World)
    → Continues w (store_valid net self valid w)
unfolding store_valid isolate emit_topology_change
store_valid-Continues net self [] w = record {
  grows = λ id h. h;
  same_id = refl;
  same_options = refl;
}
store_valid-Continues net self (a ∷ l) w = record {
  grows = λ id h. h;
  same_id = refl;
  same_options = refl;
}

-- A validation keeps the identity and the options of the node.
pub validate_successor_list-Continues :
    (net : Net) (w : World) → Keeps net → Continues w (validate_successor_list net w)
unfolding validate_successor_list
validate_successor_list-Continues net w k =
    let limit = size_limit w.node in
    let self_id = w.node.self.node_id in
    let pinged = ping_all net (current_list w.node) w in
    let entries = live_entries limit [] pinged.0 in
    Continues-trans
      (Continues-trans (ping_all_lem net k (current_list w.node) w).0
        (extended-Continues net k limit self_id entries pinged.1))
      (store_valid-Continues net (core w.node.self) (extended net limit self_id entries pinged.1).0
        (extended net limit self_id entries pinged.1).1)
