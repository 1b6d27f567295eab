-- ===== src/Lookup/Iterative/Raced.antt =====
-- What a parallel lookup leaves in the routing cache.
use chord_dht.World.{World}
