-- ===== src/Tests/Data.antt =====
-- A ring of three nodes, a platform and a network.
use chord_dht.Base.{
  ℕ, zero, suc, true, false, none, some, List, [], ◌∷◌, ◌++◌, Bytes, codes, refl, ◌==◌,
  if◌then◌else◌,
}
use chord_dht.Node.{Node, Options}
use chord_dht.RoutingCache.{RoutingEntry, new_routing_cache}
use chord_dht.Types.{
  NodeInfo, info, FingerEntry, fresh, active, quiet_maintenance, reply, FindSuccessorResponse,
}
use chord_dht.Uri.{Platform, Url}
use chord_dht.World.{Net, World, Keeps}
use chord_dht.Lookup.{Scoring}

abbrev pub id_a : Bytes
id_a = codes "1000000000000000000000000000000000000000"

abbrev pub id_b : Bytes
id_b = codes "2000000000000000000000000000000000000000"

abbrev pub id_c : Bytes
id_c = codes "3000000000000000000000000000000000000000"

abbrev pub node_a : NodeInfo
node_a = info id_a (codes "https://a") [] []

abbrev pub node_b : NodeInfo
node_b = info id_b (codes "https://b") [] []

abbrev pub node_c : NodeInfo
node_c = info id_c (codes "https://c") [] []

abbrev pub drop : ℕ → Bytes → Bytes
drop zero l = l
drop (suc n) [] = []
drop (suc n) (x ∷ l) = drop n l

abbrev pub url_of : Bytes → Url
url_of host = record {
  scheme = codes "https";
  host = host;
  has_user = false;
  raw_query = [];
  fragment = [];
  path = [];
  hostname = host;
  port = [];
}

-- A hash that looks at the last byte.
abbrev pub hash : Bytes → Bytes
hash [] = id_a
hash (x ∷ []) = if x == 98 then id_b else id_a
hash (x ∷ y ∷ l) = hash (y ∷ l)

abbrev pub platform : Platform
platform = record {
  trim_space = λ s. s;
  parse_url = λ s. some (url_of (drop 8 s));
  to_lower = λ s. s;
  contains_colon = λ s. false;
  trim_brackets = λ s. s;
  known_port = λ s. true;
  join_host_port = λ h p. h ++ codes ":" ++ p;
  sha1_hex = hash;
}

abbrev pub options : Options
options = record {
  successor_list_size = 3;
  predecessor_list_size = 2;
  max_hops = 8;
  failed_threshold = 3;
  stabilize_atomic_state = true;
  validate_after_stabilize = true;
  piggyback_enabled = false;
  node_certificate = [];
  vnode_index = 0;
  anchor_id = [];
  vnode_proof = none;
  stable_base_members = [];
  sibling_share = λ n. n;
  fix_fingers_batch_size_active = 8;
  fix_fingers_batch_size_quiet = 4;
  parallel_lookup_enabled = false;
  parallel_lookup_candidates = 3;
  tracker_seed_count = 5;
  rectify_endpoint_alias = true;
  max_vnodes = 8;
  vnode_entries = [];
  stable_base_min_size = 4;
  topology_change_window = 120;
  stabilize_active_interval = 15;
  stabilize_quiet_interval = 60;
  fix_fingers_active_interval = 10;
  fix_fingers_quiet_interval = 30;
  check_predecessor_active_interval = 10;
  check_predecessor_quiet_interval = 30;
  latency_probe_interval_active = 30;
  latency_probe_interval_quiet = 120;
  tracker_heartbeat_active_interval = 60;
  tracker_heartbeat_quiet_interval = 300;
  tracker_crl_interval = 600;
  routing_cache_enabled = true;
  routing_cache_size = 4;
  routing_cache_ttl = 100;
  shared_routing_cache = none;
  node_cert_expires_at = none;
}

abbrev pub finger_to : NodeInfo → FingerEntry
finger_to n = record {
  index = 0;
  start = id_b;
  node = n;
  status = fresh;
  valid = true;
  last_verified = 0;
}

-- The node a, whose successor is b.
abbrev pub the_node : Node
the_node = record {
  self = node_a;
  predecessor = some node_b;
  predecessor_list = node_b ∷ [];
  successor = node_b;
  successor_list = node_b ∷ node_c ∷ [];
  successor_list_valid = true;
  last_invariant_check = none;
  fingers = finger_to node_b ∷ [];
  status = active;
  joined_at = 0;
  last_maintenance_at = none;
  next_finger_index = 7;
  maintenance_cycles = 0;
  options = options;
  failures = λ id. 0;
  bootstrap_seeds = [];
  region = [];
  maintenance_mode = quiet_maintenance;
  stabilize_debounce_count = 0;
  topology_change = false;
  routing_cache = some (new_routing_cache 4 100);
  last_change_time = 0;
  started_at = 0;
  last_tracker_heartbeat_at = none;
  last_crl_refresh_at = none;
}

abbrev pub found_b : FindSuccessorResponse
found_b = record {
  found = true;
  successor = some node_b;
  next_hop = none;
  hop_count = 1;
  cached = false;
  piggyback = none;
}

abbrev pub net : Net
net = record {
  has_client = true;
  ping = λ k uri. true;
  ping_liveness = λ k uri. true;
  ping_with_latency = λ k uri. some 3;
  find_successor = λ k peer req. reply found_b;
  join = λ k uri self. some (record { successor = node_b; successor_list = node_c ∷ [] });
  notify = λ k peer self. true;
  rectify = λ k peer self. true;
  state =
      λ k peer. some (record { predecessor = some node_a; successor_list = node_c ∷ node_a ∷ [] });
  predecessor = λ k peer. none;
  successor_list = λ k peer. none;
  leave = λ k peer req. true;
  arrived = λ k l. l;
  others = λ k n. n;
  clock = λ k. k;
}

pub keeps : Keeps net
keeps = record { keeps_id = λ k n. refl; keeps_options = λ k n. refl }

abbrev pub world : World
world = record { node = the_node; calls = 0; heard = []; sent = [] }

-- Scores that are numbers.
abbrev pub scoring : Scoring ℕ
scoring = record {
  weight_id = 1;
  weight_rtt = 0;
  weight_region = 0;
  zero_score = 0;
  minus_one = 0;
  add = λ a b. a;
  id_score = λ w bits. bits;
  rtt_score = λ w ms. ms;
  above_zero = λ s. false;
  above = λ a b. true;
  rtt = λ id. none;
}

abbrev pub in_order : List (Bytes × RoutingEntry) → List (Bytes × RoutingEntry)
in_order l = l
