-- ===== src/Tests/Hosts.antt =====
-- Hosts before requests, and a virtual node before its peers.
use chord_dht.Base.{refl, none, some, [], codes, same, All, if◌then◌else◌}
use chord_dht.Auth.Certificates.{Certificate, Crypto}
use chord_dht.Auth.Verifier.{Verifier, Request, middleware}
use chord_dht.Node.{identity}
use chord_dht.Server.{NodePool, handler_routes, exempt_paths}
use chord_dht.Server.Exempt.{Harmless, handler_routes-Harmless}
use chord_dht.Server.Handlers.{Decoder, Host}
use chord_dht.Store.{find}
use chord_dht.Tests.Data.{id_c, node_b, the_node, platform, net, world, scoring, in_order}
use chord_dht.Tests.Requests.{crypto, verifier, cert_a, at_1100, request}

abbrev json : Decoder
json = record {
  find = λ b. none;
  node = λ b. some (record node_b { certificate = codes "forged" });
  leave = λ b. none;
  transfer_keys = λ b. some 1;
  transfer_ack = λ b. some 1;
}

abbrev pool : NodePool
pool = record { anchor = the_node; vnodes = [] }

handler_routes-Harmless_example :
    All (Harmless scoring in_order [] net platform crypto json pool) (handler_routes pool)
unfolding identity
handler_routes-Harmless_example =
    handler_routes-Harmless scoring in_order [] net platform crypto json pool pool (refl, tt)

-- A certificate for the node c that nobody signed.
abbrev forged : Certificate
forged = record cert_a { node_id = id_c; signature = codes "none" }

abbrev two_certificates : Crypto
two_certificates = record crypto {
  parse_certificate = λ s. if same s (codes "cert") then some cert_a else some forged;
}

abbrev rectification : Request
rectification = record request { method = codes "POST" }

abbrev checked_by : Verifier
checked_by = (middleware platform two_certificates exempt_paths verifier rectification at_1100).1

abbrev host : Host
host = record { world = world; verifier = some verifier }
