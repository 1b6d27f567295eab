-- ===== src/Tests/Outgoing.antt =====
-- Requests that a node signs.
use chord_dht.Base.{
  ℕ, ◌≡◌, ◌⊎◌, refl, true, Option, none, some, [], ◌∷◌, Bytes, Bytes-discrete, codes, arith,
}
use chord_dht.Auth.Certificates.{
  Crypto, named_by_uri, signed_by, node_public_key, verify_certificate,
}
use chord_dht.Auth.Int64.{less, minus, negate, times, before_unix, after_unix}
use chord_dht.Auth.Nonces.{new_nonce_cache, add}
use chord_dht.Auth.Crl.{is_revoked}
use chord_dht.Auth.Signer.{Encoder, new_request_signer, sign, add_cert_header, marshal_base64url}
use chord_dht.Auth.Signer.Accepted.{IsCodec}
use chord_dht.Auth.Signer.RoundTrip.{sign-admitted}
use chord_dht.Auth.Verifier.{Request, admitted, outside_window, middleware}
use chord_dht.Client.{
  ChordClient, Http, responded, fetched, state_call, new_chord_client, call, do_signed, headers,
  read_exchange, require_https_uri,
}
use chord_dht.Client.Calls.{IsAnswered, call-IsAnswered}
use chord_dht.Store.{find}
use chord_dht.Tests.Data.{id_a, node_b, platform}
use chord_dht.Tests.Requests.{crypto, verifier, cert_a, key_text, signature_text, guarded, at_1100}
use chord_dht.Uri.{normalize_uri, normalize_url, with_port, written_host}

abbrev number_of : Bytes → Option ℕ
number_of [] = none
number_of (n ∷ _) = some n

abbrev codes_of : Crypto
codes_of = record crypto { parse_int = number_of }

abbrev encoder : Encoder
encoder = record {
  encode64url = λ b. b;
  hex = λ b. b;
  marshal_certificate = λ c. some (codes "cert");
  ed_sign = λ key text. signature_text;
}

codec : IsCodec codes_of encoder cert_a
codec = record {
  decoded = λ b. refl;
  parsed = λ n h. refl;
  unmarshalled = λ json e. refl;
  marshalled = λ json e. ground (arith, e);
  signature_length = λ key text. refl;
  written = λ n. refl;
  hex_written = λ b e. e;
  encoded = λ b e. e;
}

-- A request without the headers.
abbrev plain : Request
plain = record {
  method = codes "GET";
  path = codes "/chord/state";
  request_uri = codes "/chord/state";
  node_id = [];
  timestamp = [];
  nonce = [];
  signature = [];
  certificate = [];
  anchor_id = [];
  vnode_proof = [];
  body = some [];
}

abbrev signed_request : Request
signed_request = record plain {
  node_id = id_a;
  timestamp = 1000 ∷ [];
  nonce = codes "n";
  signature = signature_text;
}

abbrev full_request : Request
full_request = record signed_request { certificate = codes "cert" }

verified : verify_certificate platform codes_of cert_a key_text at_1100 60 ≡ true
unfolding verify_certificate named_by_uri signed_by normalize_uri normalize_url with_port negate
    times written_host less before_unix after_unix Bytes-discrete
verified = refl

sign-admitted_example :
    (middleware platform codes_of guarded verifier full_request at_1100).0 ≡ admitted
unfolding node_public_key sign new_request_signer add_cert_header marshal_base64url outside_window
    less minus negate times is_revoked add new_nonce_cache find Bytes-discrete
sign-admitted_example =
    sign-admitted platform codes_of encoder cert_a codec guarded verifier key_text key_text
      (codes "n") [] plain signed_request full_request 1_000_000_000_000 at_1100 refl (λ text. refl)
      refl refl refl refl refl (omega arith) (omega arith) (omega arith) refl verified refl refl

abbrev answering : Http
answering = record {
  send = λ nth uri timeout r. responded 200 (codes "state");
  decodes = λ op b. true;
  error_code = λ b. none;
  random = λ nth. some (codes "n");
}

abbrev client : ChordClient
client = new_chord_client 5_000_000_000 (some (new_request_signer id_a key_text (some cert_a)))

answered_call :
    (call platform codes_of encoder answering client state_call node_b [] 0 at_1100).0
    ≡ fetched (codes "state")
unfolding call do_signed headers sign new_request_signer new_chord_client read_exchange
    require_https_uri normalize_uri normalize_url with_port written_host Bytes-discrete
answered_call = refl

call-IsAnswered_example :
    (require_https_uri platform codes_of encoder answering node_b.uri ≡ true)
    × (IsAnswered platform codes_of encoder answering client state_call node_b (codes "state") 0
        ⊎ IsAnswered platform codes_of encoder answering client state_call node_b (codes "state") 1)
call-IsAnswered_example =
    call-IsAnswered platform codes_of encoder answering client state_call node_b [] (codes "state")
      0 at_1100 answered_call
