-- ===== src/Server/Planted.antt =====
-- The certificates that the bodies of requests bring into the cache of the verifier.
use chord_dht.Auth.Verifier.{Verifier}
