-- ===== src/Tests/Races.antt =====
-- Lookups at the node a, with parallel lookups on.
use chord_dht.Base.{◌≤◌, true, some, [], Bytes, codes}
use chord_dht.Lookup.Iterative.{lookup_successor}
use chord_dht.Lookup.Iterative.Walk.{lookup_successor-calls}
use chord_dht.Tests.Data.{in_order, node_c, the_node, options, net, keeps, world, scoring, found_b}
use chord_dht.Types.{reply}
use chord_dht.World.{Net, World}

abbrev wide_world : World
wide_world = record world {
  node = record the_node { options = record options { parallel_lookup_enabled = true } };
}

-- A lookup of an identifier between b and c, which c answers; then the identifier of b.
abbrev beyond_b : Bytes
beyond_b = codes "2800000000000000000000000000000000000000"

abbrev answers_c : Net
answers_c = record net {
  find_successor = λ k peer req. reply (record found_b { successor = some node_c });
}

lookup_successor-calls_example :
    (lookup_successor scoring in_order [] net beyond_b wide_world).1.calls ≤ 11
lookup_successor-calls_example =
    lookup_successor-calls scoring in_order [] net keeps beyond_b wide_world
