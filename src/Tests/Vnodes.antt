-- ===== src/Tests/Vnodes.antt =====
-- A virtual node before its peers.
use mathlib.Core.List.{Memᴰ}
use chord_dht.Base.{
  inl, ◌≡◌, ◌≢◌, refl, ap, ◌∙◌, some_inj, arith, true, some, [], Bytes, Bytes-discrete, codes,
}
use chord_dht.Creation.{new_node, self_info, new_fingers, blank, with_defaults}
use chord_dht.Creation.Outcomes.{is_ok, value, ok_value}
use chord_dht.Creation.Vnodes.{IsRefused, vnode_rectify-IsRefused}
use chord_dht.Id.{
  Outcome, finger_start, validate_id, id_to_big, set_string, digit_value, all_hex, is_hex,
  big_to_id, text, replicate, to_lower,
}
use chord_dht.Node.{Node, Options, emit_topology_change, dedupe_nodes, dedupe_from}
use chord_dht.Proofs.{Ed25519, derive_vnode_id}
use chord_dht.Stabilize.{
  start, stabilize, try_candidates, try_self, bootstrap, validate_if_asked, write_successor,
}
use chord_dht.Validation.{
  validate_successor_list, store_valid, ping_all, extended, extend_from, extend, live_entries,
  isolate,
}
use chord_dht.World.{World, rectify_sent}
use chord_dht.Tests.Data.{id_a, id_b, node_b, the_node, options, platform, net, world}
use chord_dht.Tests.Upkeep.{ed}
use chord_dht.Failures.{mark_success}
use chord_dht.SuccessorList.{merge_successor_list, merge_loop, skipped}
use chord_dht.Liveness.{ping_liveness, fetch_successor_state, call_state, call_both, rectify_peer}
use chord_dht.Types.{NodeInfo, active}
use chord_dht.Uri.{normalize_uri, normalize_url, with_port, written_host}

abbrev virtual : Options
virtual = record options { vnode_index = 1; anchor_id = id_a }

-- The digest of the platform
abbrev hashing : Ed25519
hashing = record ed { sha1_hex = platform.sha1_hex }

abbrev made : Outcome Node
made = new_node platform hashing (codes "https://b") virtual [] 0

abbrev vnode : Node
vnode = value the_node made

made-ok : is_ok made ≡ true
unfolding new_node self_info new_fingers derive_vnode_id normalize_uri normalize_url with_port
    written_host finger_start id_to_big validate_id set_string digit_value all_hex is_hex big_to_id
    text replicate to_lower Bytes-discrete
made-ok = refl

-- Some time later, with a predecessor.
abbrev older : Node
older = record vnode { predecessor = some node_b; status = active }

differ : id_b ≢ id_a
differ e = ground arith

apart :
    (u : Bytes)
    → normalize_uri platform vnode.self.uri ≡ some u
    → platform.sha1_hex u ≢ derive_vnode_id hashing id_a 1
unfolding new_node self_info new_fingers derive_vnode_id normalize_uri normalize_url with_port
    written_host finger_start id_to_big validate_id set_string digit_value all_hex is_hex big_to_id
    text replicate to_lower blank Bytes-discrete
apart u normal clash = differ (ap platform.sha1_hex (some_inj normal) ∙ clash)

abbrev before : World
before = record world { node = older; sent = [] }

-- What the virtual node sends to its predecessor, which becomes its successor.
abbrev described : NodeInfo
described = (start platform net older).with_cert

request_sent : Memᴰ (rectify_sent id_b described) (stabilize platform net before).sent
unfolding stabilize try_candidates try_self bootstrap fetch_successor_state call_state call_both
    rectify_peer validate_if_asked ping_liveness validate_successor_list store_valid ping_all
    extended extend_from extend live_entries write_successor emit_topology_change dedupe_nodes
    dedupe_from new_node self_info new_fingers derive_vnode_id normalize_uri normalize_url with_port
    written_host finger_start id_to_big validate_id set_string digit_value all_hex is_hex big_to_id
    text replicate to_lower blank mark_success with_defaults isolate merge_successor_list merge_loop
    skipped Bytes-discrete
request_sent = Memᴰ.head refl

vnode_rectify-IsRefused_example : IsRefused platform hashing virtual described
vnode_rectify-IsRefused_example =
    vnode_rectify-IsRefused platform hashing (codes "https://b") virtual [] 0 vnode net before refl
      (ok_value the_node made made-ok) refl refl apart id_b described (inl request_sent)
