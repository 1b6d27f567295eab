-- ===== src/Client.antt =====
-- internal/client/chord_client.go and the requests of internal/client/json.go: how a node calls its
-- peers. `net/http` and `encoding/json` are parameters.
pub mod Calls
use chord_dht.Auth.Certificates.{Crypto}
use chord_dht.Auth.Signer.{Encoder, RequestSigner, sign, add_cert_header}
use chord_dht.Auth.Verifier.{Request}
use chord_dht.Base.{
  ℕ, suc, Bool, true, false, not, ◌&&◌, ◌||◌, Option, none, some, List, [], ◌∷◌, ◌++◌, Bytes, codes,
  same, is_empty, ltb, leb, if◌then◌else◌,
}
use chord_dht.Server.{has_prefix}
use chord_dht.Types.{NodeInfo, Code, certificate_required, upstream_error, ApiError, api_error}
use chord_dht.Uri.{Platform, normalize_uri, hash_uri}

pub record TimeoutConfig : Type 0 where
  pub ping_same : ℕ
  pub ping_cross : ℕ
  pub ping_liveness : ℕ
  pub find_successor_same : ℕ
  pub find_successor_cross : ℕ
  pub fix_fingers_same : ℕ
  pub fix_fingers_cross : ℕ
  pub default_timeout : ℕ

pub record ChordClient : Type 0 where
  pub timeout : ℕ
  pub signer : Option RequestSigner
  pub self_region : Bytes
  pub timeouts : TimeoutConfig
  pub node_region_func : Option (Bytes → Bytes)

-- The times are nanoseconds, none of them negative.
unfoldable pub new_chord_client : ℕ → Option RequestSigner → ChordClient
new_chord_client timeout signer = record {
  timeout = timeout;
  signer = signer;
  self_region = [];
  timeouts = record {
    ping_same = 2_000_000_000;
    ping_cross = 5_000_000_000;
    ping_liveness = 2_000_000_000;
    find_successor_same = 5_000_000_000;
    find_successor_cross = 15_000_000_000;
    fix_fingers_same = 5_000_000_000;
    fix_fingers_cross = 30_000_000_000;
    default_timeout = timeout;
  };
  node_region_func = none;
}

-- The methods of the client.
pub data Call : Type 0 where
  ping_call liveness_call rtt_call find_call join_call notify_call rectify_call : Call
  state_call predecessor_call successor_list_call leave_call : Call

-- The kinds of operation that `timeoutFor` tells apart; no method uses that for fix_fingers.
pub data Kind : Type 0 where
  ping_kind liveness_kind find_kind fix_fingers_kind default_kind : Kind

abbrev pub kind_of : Call → Kind
kind_of ping_call = ping_kind
kind_of liveness_call = liveness_kind
kind_of rtt_call = ping_kind
kind_of find_call = find_kind
kind_of _ = default_kind

-- `pathFor`
unfoldable pub path_for : NodeInfo → Bytes → Bytes
path_for target op =
    if not (is_empty target.anchor_id)
    then codes "/chord/node/" ++ target.node_id ++ codes "/" ++ op
    else codes "/chord/" ++ op

-- The path of a call to a target, and whether its first request carries the certificate and a second
-- one does if that is asked for.
unfoldable pub path_of : Call → NodeInfo → Bytes
path_of ping_call t = codes "/chord/ping"
path_of liveness_call t = codes "/chord/ping"
path_of rtt_call t = codes "/chord/rtt"
path_of join_call t = codes "/chord/join"
path_of find_call t = path_for t (codes "find_successor")
path_of notify_call t = path_for t (codes "notify")
path_of rectify_call t = path_for t (codes "rectify")
path_of state_call t = path_for t (codes "state")
path_of predecessor_call t = path_for t (codes "predecessor")
path_of successor_list_call t = path_for t (codes "successor_list")
path_of leave_call t = path_for t (codes "leave")

abbrev pub with_cert_first : Call → Bool
with_cert_first join_call = true
with_cert_first notify_call = true
with_cert_first rectify_call = true
with_cert_first _ = false

abbrev pub may_repeat : Call → Bool
may_repeat find_call = true
may_repeat state_call = true
may_repeat predecessor_call = true
may_repeat successor_list_call = true
may_repeat leave_call = true
may_repeat _ = false

abbrev pub method_of : Call → Bytes
method_of find_call = codes "POST"
method_of join_call = codes "POST"
method_of notify_call = codes "POST"
method_of rectify_call = codes "POST"
method_of leave_call = codes "POST"
method_of _ = codes "GET"

-- What comes back over HTTP: nothing, or a status and a body.
pub data Exchange : Type 0 where
  unreachable : Exchange
  responded : ℕ → Bytes → Exchange

-- The result of a call: the body, the error that the peer reports, or another error.
pub data Fetched : Type 0 where
  fetched : Bytes → Fetched
  api_failure : ApiError → Fetched
  failure : Fetched

-- `http.Do` of the n-th request to a host within a time; whether a body decodes to the response of a
-- call; the code in the body of an error, if there is one that is not empty; the bytes that `rand.Read`
-- yields for the n-th request.
pub record Http : Type 0 where
  pub send : ℕ → Bytes → ℕ → Request → Exchange
  pub decodes : Call → Bytes → Bool
  pub error_code : Bytes → Option Code
  pub random : ℕ → Option Bytes

-- `decodeAPIError`
unfoldable pub decode_api_error : Http → ℕ → Bytes → ApiError
decode_api_error http status body = elim (http.error_code body) [
  | none ↦ api_error status upstream_error
  | some code ↦ api_error status code
]

abbrev is_required : Code → Bool
is_required certificate_required = true
is_required _ = false

abbrev pub is_cert_required : Fetched → Bool
is_cert_required (fetched b) = false
is_cert_required (api_failure e) = is_required e.code
is_cert_required failure = false

module _ (os : Platform) (cr : Crypto) (en : Encoder) (http : Http) where
  unfoldable pub peer_region : ChordClient → Bytes → Bytes
  peer_region c uri = elim c.node_region_func [
    | none ↦ []
    | some f ↦ elim (hash_uri os uri) [ none ↦ [] | some id ↦ f id ]
  ]

  unfoldable pub is_same_region : ChordClient → Bytes → Bool
  is_same_region c uri =
      let region = peer_region c uri in
      if is_empty c.self_region then false else not (is_empty region) && same region c.self_region

  -- `timeoutFor`
  unfoldable pub timeout_for : ChordClient → Kind → Bytes → ℕ
  timeout_for c ping_kind uri =
      if is_same_region c uri then c.timeouts.ping_same else c.timeouts.ping_cross
  timeout_for c liveness_kind uri =
      if ltb 0 c.timeouts.ping_liveness then c.timeouts.ping_liveness else 2_000_000_000
  timeout_for c find_kind uri =
      if is_same_region c uri
      then c.timeouts.find_successor_same
      else c.timeouts.find_successor_cross
  timeout_for c fix_fingers_kind uri =
      if is_same_region c uri then c.timeouts.fix_fingers_same else c.timeouts.fix_fingers_cross
  timeout_for c default_kind uri =
      if ltb 0 c.timeouts.default_timeout then c.timeouts.default_timeout else c.timeout

  -- `true` for a `nil` error.
  unfoldable pub require_https_uri : Bytes → Bool
  require_https_uri uri = elim (normalize_uri os uri) [
    | none ↦ false
    | some normalized ↦
        if not (same normalized uri) then false else has_prefix (codes "https://") uri
  ]

  unfoldable pub plain_request : Bytes → Bytes → Bytes → Request
  plain_request method path body = record {
    method = method;
    path = path;
    request_uri = path;
    node_id = [];
    timestamp = [];
    nonce = [];
    signature = [];
    certificate = [];
    anchor_id = [];
    vnode_proof = [];
    body = some body;
  }

  -- The headers of a request: none without a signer; an error if the nonce or the certificate fails.
  unfoldable pub headers : Option RequestSigner → ℕ → ℕ → Bool → Bytes → Request → Option Request
  headers none nth when with_cert body r = some r
  headers (some s) nth when with_cert body r = elim (sign cr en s (http.random nth) when body r) [
    | none ↦ none
    | some signed ↦ if with_cert then add_cert_header cr en s signed else some signed
  ]

  unfoldable pub read_exchange : Call → Exchange → Fetched
  read_exchange op unreachable = failure
  read_exchange op (responded status body) =
      if leb 300 status
      then api_failure (decode_api_error http status body)
      else if http.decodes op body
      then fetched body
      else failure

  -- The time that `newJSONClient` allows, `DefaultHTTPTimeout` where none is set.
  abbrev pub client_timeout : ℕ → ℕ
  client_timeout timeout = if leb timeout 0 then 5_000_000_000 else timeout

  -- `doSigned` of the n-th request, by the client of `endpointFor`, to a URI that passed
  -- `requireHTTPSURI`; `body` is the encoded request, empty for a `nil`.
  unfoldable pub do_signed : ChordClient → Call → NodeInfo → Bytes → ℕ → ℕ → Bool → Fetched
  do_signed c op t body nth when with_cert =
      let plain = plain_request (method_of op) (path_of op t) body in
      let timeout = client_timeout (timeout_for c (kind_of op) t.uri) in
      elim (headers c.signer nth when with_cert body plain) [
        | none ↦ failure
        | some r ↦ read_exchange op (http.send nth t.uri timeout r)
      ]

  -- A method of the client, with the number of requests it makes.
  unfoldable pub call : ChordClient → Call → NodeInfo → Bytes → ℕ → ℕ → Fetched × ℕ
  call c op target body nth when =
      let attempt = do_signed c op target body in
      let first = attempt nth when (with_cert_first op) in
      let again = attempt (suc nth) when true in
      if not (require_https_uri target.uri)
      then (failure, nth)
      else if may_repeat op && is_cert_required first
      then (again, suc (suc nth))
      else (first, suc nth)
