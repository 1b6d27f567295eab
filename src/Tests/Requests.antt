-- ===== src/Tests/Requests.antt =====
-- Requests before the verifier.
use chord_dht.Base.{
  ℕ, ◌+◌, ◌%◌, ◌*◌, ◌<◌, ◌≡◌, ◌↔◌, ◌⊎◌, refl, Bool, true, false, none, some, [], ◌∷◌, ◌++◌, Bytes,
  Bytes-discrete, codes, same, take, arith,
}
use chord_dht.Auth.Certificates.{
  Certificate, Crypto, named_by_uri, signed_by, node_public_key, verify_certificate, is_kept, write,
  store_verified, get,
}
use chord_dht.Auth.Int64.{whole, second, less, minus, negate, times, before_unix, after_unix}
use chord_dht.Auth.Nonces.{new_nonce_cache, add}
use chord_dht.Auth.Crl.{is_revoked}
use chord_dht.Auth.Verifier.{
  Verifier, Request, admitted, outside_window, in_grace, timely, parse_certificate_base64url,
  present, acquire, request_message, signature_error, derive_vnode_id, proof_canonical,
  proof_is_expired, signed_by_anchor, check_proof, check_vnode, check_signed, check_certified,
  middleware,
}
use chord_dht.Auth.Verifier.Admitted.{IsAuthentic, middleware-IsAuthentic}
use chord_dht.Auth.Verifier.Trust.{IsSound}
use chord_dht.Auth.Verifier.Vnodes.{IsCollision, middleware-IsCollision}
use chord_dht.Auth.Verifier.Window.{outside_window_iff, outside_window-wraps}
use chord_dht.Store.{find, delete}
use chord_dht.Tests.Data.{id_a, id_b, platform}
use chord_dht.Types.{VnodeProof}
use chord_dht.Uri.{normalize_uri, normalize_url, with_port, written_host}

abbrev pub key_text : Bytes
key_text = codes "kkkkkkkkkkkkkkkkkkkkkkkkkkkkkkkk"

-- A signature begins with the key that made it.
abbrev pub signature_text : Bytes
signature_text = key_text ++ codes "ssssssssssssssssssssssssssssssss"

abbrev certificate_of : Bytes → Bytes → Certificate
certificate_of id uri = record {
  version = 1;
  node_id = id;
  uri = uri;
  public_key = key_text;
  issued_at = 500;
  expires_at = 5000;
  signature = signature_text;
}

abbrev pub cert_a : Certificate
cert_a = certificate_of id_a (codes "https://a")

abbrev pub cert_b : Certificate
cert_b = certificate_of id_b (codes "https://b")

-- The proof of a virtual node whose name collides with the node a.
abbrev vnode : VnodeProof
vnode = record {
  vnode_id = id_a;
  anchor_id = id_b;
  index = 1;
  issued_at = 500;
  expires_at = 5000;
  anchor_pub = key_text;
  signature = signature_text;
}

abbrev pub crypto : Crypto
crypto = record {
  base64url = λ s. some s;
  base64 = λ s. some s;
  sha256_hex = λ s. s;
  verify = λ key message sig. same key (take 32 sig);
  decimal = λ n. n ∷ [];
  parse_int = λ s. some 1000;
  parse_certificate = λ s. some cert_a;
  parse_proof = λ s. some vnode;
}

abbrev pub verifier : Verifier
verifier = record {
  ca_public_key = key_text;
  timestamp_tolerance = 300_000_000_000;
  tolerance_secs = 60;
  boot_grace_period_end = none;
  clock_skew_tolerance = 0;
  nonce_cache = new_nonce_cache 600_000_000_000 100;
  cert_cache = record {
    entries = (id_b, record { cert = cert_b; stored_at = 900_000_000_000 }) ∷ [];
    ttl = 3_600_000_000_000;
  };
  crl = none;
}

abbrev pub request : Request
request = record {
  method = codes "GET";
  path = codes "/ping";
  request_uri = codes "/ping";
  node_id = id_a;
  timestamp = codes "1000";
  nonce = codes "n";
  signature = signature_text;
  certificate = codes "cert";
  anchor_id = id_b;
  vnode_proof = codes "proof";
  body = some [];
}

abbrev pub guarded : Bytes → Bool
guarded path = false

abbrev pub at_1100 : ℕ
at_1100 = 1_100_000_000_000

b-checked : verify_certificate platform crypto cert_b key_text 900_000_000_000 60 ≡ true
unfolding verify_certificate named_by_uri signed_by normalize_uri normalize_url with_port negate
    times written_host less before_unix after_unix Bytes-discrete
b-checked = refl

sound : IsSound platform crypto key_text 60 verifier.cert_cache
sound = (record { named = refl; checked_at = 900_000_000_000; checked = b-checked }, tt)

request-admitted : (middleware platform crypto guarded verifier request at_1100).0 ≡ admitted
unfolding middleware in_grace timely outside_window less minus negate times add new_nonce_cache find
    check_certified acquire present parse_certificate_base64url verify_certificate named_by_uri
    signed_by normalize_uri normalize_url with_port written_host before_unix after_unix
    store_verified is_kept write check_signed is_revoked signature_error node_public_key
    request_message check_vnode check_proof proof_is_expired derive_vnode_id get signed_by_anchor
    proof_canonical Bytes-discrete delete
request-admitted = refl

middleware-IsAuthentic_example : IsAuthentic platform crypto verifier request at_1100
unfolding in_grace
middleware-IsAuthentic_example =
    middleware-IsAuthentic platform crypto guarded verifier request at_1100 sound refl refl
      request-admitted

middleware-IsCollision_example : IsCollision platform crypto verifier request
unfolding in_grace Bytes-discrete
middleware-IsCollision_example =
    middleware-IsCollision platform crypto guarded verifier request at_1100 sound refl refl refl
      request-admitted

outside_window_iff_example : (outside_window 300_000_000_000 1100 1000 ≡ true) ↔ (
    (300_000_000_000 + 1000 * second < 1100 * second)
    ⊎ (300_000_000_000 + 1100 * second < 1000 * second))
outside_window_iff_example =
    outside_window_iff 300_000_000_000 1100 1000 (omega arith) (omega arith) (omega arith)
      (omega arith) (omega arith)

-- In the year 2025
outside_window-wraps_example :
    (outside_window 300_000_000_000 1_760_000_000 (minus 1_760_000_000 36_028_797_018_963_968)
      ≡ false)
    × (outside_window 300_000_000_000 1_760_000_000
          ((1_760_000_000 + 36_028_797_018_963_968) % whole)
        ≡ false)
outside_window-wraps_example =
    outside_window-wraps 300_000_000_000 1_760_000_000 (omega arith) (omega arith)
