-- ===== src/Client/Calls.antt =====
-- What a call that returns has done.
use mathlib.Core.Option.{none-ne-some}
use mathlib.Core.Path.{subst}
use chord_dht.Auth.Certificates.{Crypto}
use chord_dht.Auth.Signer.{Encoder, RequestSigner, sign, add_cert_header, marshal_base64url}
use chord_dht.Auth.Verifier.{Request}
use chord_dht.Base.{
  ℕ, suc, ◌≡◌, ◌≢◌, ◌⊎◌, inl, inr, refl, sym, ap, ◌∙◌, Bool, true, false, not, ◌&&◌, Option, none,
  some, some_inj, Bytes, is_empty, leb, arith, if_cases, option_cases,
}
use chord_dht.Client.{
  ChordClient, Call, kind_of, path_of, method_of, with_cert_first, may_repeat, Exchange,
  unreachable, responded, Fetched, fetched, api_failure, failure, is_cert_required, Http,
  timeout_for, client_timeout, require_https_uri, plain_request, headers, read_exchange, do_signed,
  call,
}
use chord_dht.Types.{NodeInfo}
use chord_dht.Uri.{Platform}

abbrev is_fetched : Fetched → Bool
is_fetched (fetched b) = true
is_fetched (api_failure e) = false
is_fetched failure = false

abbrev body_of : Bytes → Fetched → Bytes
body_of other (fetched b) = b
body_of other (api_failure e) = other
body_of other failure = other

not_fetched : {b : Bytes} → failure ≢ fetched b
not_fetched {b} e = ground (arith, ap is_fetched e)

module _ (os : Platform) (cr : Crypto) (en : Encoder) (http : Http) where
  -- A request with the headers goes to the same place with the same body, in the name of the signer.
  pub record IsDressed (signer : Option RequestSigner) (r q : Request) : Type 0 where
    pub same_method : q.method ≡ r.method
    pub same_uri : q.request_uri ≡ r.request_uri
    pub same_body : q.body ≡ r.body
    pub named : (s : RequestSigner) → signer ≡ some s → q.node_id ≡ s.node_id

  sign-IsDressed :
      (s : RequestSigner) (random : Option Bytes) (when : ℕ) (body : Bytes) (r q : Request)
      → sign cr en s random when body r ≡ some q
      → IsDressed (some s) r q
  unfolding sign
  sign-IsDressed s random when body r q =
      option_cases {A = Option Request} (λ o. o ≡ some q → IsDressed (some s) r q) random
        (λ _ e. absurd (none-ne-some q e))
        (λ bytes _ e. subst (IsDressed (some s) r) (some_inj e) (
          if_cases (IsDressed (some s) r) (is_empty s.anchor_id)
            (λ _. record {
              same_method = refl;
              same_uri = refl;
              same_body = refl;
              named = λ t own. ap (λ (x : RequestSigner). x.node_id) (some_inj own);
            })
            (λ _. record {
              same_method = refl;
              same_uri = refl;
              same_body = refl;
              named = λ t own. ap (λ (x : RequestSigner). x.node_id) (some_inj own);
            })))

  add_cert_header-IsDressed :
      (s : RequestSigner) (r p q : Request)
      → IsDressed (some s) r p
      → add_cert_header cr en s p ≡ some q
      → IsDressed (some s) r q
  unfolding add_cert_header
  add_cert_header-IsDressed s r p q d =
      let P : Option Request → Type 0 = λ o. o ≡ some q → IsDressed (some s) r q in
      option_cases P s.cert (λ _ e. subst (IsDressed (some s) r) (some_inj e) d)
        (λ c _.
          option_cases P (marshal_base64url cr en c) (λ _ e. absurd (none-ne-some q e))
            (λ text _ e. subst (IsDressed (some s) r) (some_inj e) (record {
              same_method = d.same_method;
              same_uri = d.same_uri;
              same_body = d.same_body;
              named = d.named;
            })))

  headers-IsDressed :
      (signer : Option RequestSigner) (nth when : ℕ) (with_cert : Bool) (body : Bytes)
      (r q : Request)
      → headers os cr en http signer nth when with_cert body r ≡ some q
      → IsDressed signer r q
  unfolding headers
  headers-IsDressed none nth when with_cert body r q = λ e.
      subst (IsDressed none r) (some_inj e) (record {
        same_method = refl;
        same_uri = refl;
        same_body = refl;
        named = λ s own. absurd (none-ne-some s own);
      })
  headers-IsDressed (some s) nth when with_cert body r q =
      option_cases {A = Option Request} (λ o. o ≡ some q → IsDressed (some s) r q)
        (sign cr en s (http.random nth) when body r) (λ _ e. absurd (none-ne-some q e))
        (λ p signed.
          let d = sign-IsDressed s (http.random nth) when body r p signed in
          if_cases {A = Option Request} (λ o. o ≡ some q → IsDressed (some s) r q) with_cert
            (λ _ e. add_cert_header-IsDressed s r p q d e)
            (λ _ e. subst (IsDressed (some s) r) (some_inj e) d))

  -- An answered exchange that gave the body.
  pub record IsAnswered (c : ChordClient) (op : Call) (target : NodeInfo) (b : Bytes) (nth : ℕ)
      : Type 0 where
    pub asked : Request
    pub status : ℕ
    pub exchanged :
        http.send nth target.uri
          (client_timeout os cr en http (timeout_for os cr en http c (kind_of op) target.uri))
          asked
        ≡ responded status b
    pub good : leb 300 status ≡ false
    pub decoded : http.decodes op b ≡ true
    pub method : asked.method ≡ method_of op
    pub uri : asked.request_uri ≡ path_of op target
    pub named : (s : RequestSigner) → c.signer ≡ some s → asked.node_id ≡ s.node_id

  read_exchange-fetched :
      (op : Call) (x : Exchange) (b : Bytes)
      → read_exchange os cr en http op x ≡ fetched b
      → (status : ℕ) × (x ≡ responded status b)
        × (leb 300 status ≡ false)
        × (http.decodes op b ≡ true)
  unfolding read_exchange
  read_exchange-fetched op unreachable b = λ e. absurd (not_fetched e)
  read_exchange-fetched op (responded status body) b =
      let P : Fetched → Type 0 = λ f.
        f ≡ fetched b
        → (st : ℕ) × (responded status body ≡ responded st b)
          × (leb 300 st ≡ false)
          × (http.decodes op b ≡ true) in
      if_cases P (leb 300 status) (λ _ e. ground (arith, ap is_fetched e))
        (λ good.
          if_cases P (http.decodes op body)
            (λ decoded e.
              let same_body : body ≡ b = ap (body_of b) e in
              (
                status,
                ap (responded status) same_body,
                good,
                sym (ap (http.decodes op) same_body) ∙ decoded,
              ))
            (λ _ e. absurd (not_fetched e)))

  do_signed-IsAnswered :
      (c : ChordClient) (op : Call) (t : NodeInfo) (body b : Bytes) (nth when : ℕ) (cert : Bool)
      → do_signed os cr en http c op t body nth when cert ≡ fetched b
      → IsAnswered c op t b nth
  unfolding do_signed plain_request
  do_signed-IsAnswered c op t body b nth when cert =
      option_cases {A = Fetched} (λ f. f ≡ fetched b → IsAnswered c op t b nth)
        (headers os cr en http c.signer nth when cert body
          (plain_request os cr en http (method_of op) (path_of op t) body))
        (λ _ e. absurd (not_fetched e))
        (λ q made e.
          let d = headers-IsDressed c.signer nth when cert body _ q made in
          let (status, exchanged, good, decoded) = read_exchange-fetched op _ b e in
          record {
            asked = q;
            status = status;
            exchanged = exchanged;
            good = good;
            decoded = decoded;
            method = d.same_method;
            uri = d.same_uri;
            named = d.named;
          })

  -- If a call returns a body, then the URI of the target passes the check for an `https` URI in normal
  -- form, and the body decodes to the response of the call and is that of an answer with a status below
  -- 300 to one of at most two requests, which the client sent to that URI within its timeout, or the
  -- default one, for the path and with the method of the call, and, if it signs its requests, in the
  -- name of its signer.
  pub call-IsAnswered :
      (c : ChordClient) (op : Call) (t : NodeInfo) (body b : Bytes) (nth when : ℕ)
      → (call os cr en http c op t body nth when).0 ≡ fetched b
      → (require_https_uri os cr en http t.uri ≡ true)
        × (IsAnswered c op t b nth ⊎ IsAnswered c op t b (suc nth))
  unfolding call
  call-IsAnswered c op t body b nth when =
      let G =
        (require_https_uri os cr en http t.uri ≡ true)
        × (IsAnswered c op t b nth ⊎ IsAnswered c op t b (suc nth)) in
      let first = do_signed os cr en http c op t body nth when (with_cert_first op) in
      let P : Fetched × ℕ → Type 0 = λ r. r.0 ≡ fetched b → G in
      if_cases P (not (require_https_uri os cr en http t.uri)) (λ _ e. absurd (not_fetched e))
        (λ secure.
          let passed : require_https_uri os cr en http t.uri ≡ true = ground arith in
          if_cases P (may_repeat op && is_cert_required first)
            (λ _ e. (passed, inr (do_signed-IsAnswered c op t body b (suc nth) when true e)))
            (λ _ e.
              (passed, inl (do_signed-IsAnswered c op t body b nth when (with_cert_first op) e))))
