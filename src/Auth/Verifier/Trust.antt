-- ===== src/Auth/Verifier/Trust.antt =====
-- What the cache of certificates holds: certificates that the authority signed, under their names.
use chord_dht.Base.{
  ℕ, ◌≡◌, refl, sym, ap, ◌∙◌, true, not, some, List, [], ◌∷◌, Bytes, same, is_empty, All, arith,
  ltb, ◌+◌, if_cases, option_cases, same_iff,
}
use chord_dht.Auth.Certificates.{
  Certificate, Crypto, CertCache, CertCacheEntry, verify_certificate, is_kept, write,
  store_verified, get,
}
use chord_dht.Auth.Verifier.{
  Verifier, Request, Acquired, acquired, rejected, parse_certificate_base64url, present, acquire,
}
use chord_dht.Store.{find, delete}
use chord_dht.Types.{Code, invalid_certificate, certificate_required}
use chord_dht.Uri.{Platform}

module _ (os : Platform) (cr : Crypto) (ca : Bytes) (tolerance : ℕ) where
  -- The certificate is its node's, and the authority's signature and the validity were checked at some
  -- time.
  pub record IsTrusted (id : Bytes) (c : Certificate) : Type 0 where
    pub named : c.node_id ≡ id
    pub checked_at : ℕ
    pub checked : verify_certificate os cr c ca checked_at tolerance ≡ true

  abbrev pub TrustedEntry : Bytes × CertCacheEntry → Type 0
  TrustedEntry e = IsTrusted e.0 e.1.cert

  abbrev pub IsSound : CertCache → Type 0
  IsSound c = All TrustedEntry c.entries

  move : (a b : Bytes) (c d : Certificate) → a ≡ b → c ≡ d → IsTrusted a c → IsTrusted b d
  move a b c d ab cd h = record {
    named = ground (arith, h.named);
    checked_at = h.checked_at;
    checked = sym (ap (λ x. verify_certificate os cr x ca h.checked_at tolerance) cd) ∙ h.checked;
  }

  delete_sound :
      (k : Bytes) (l : List (Bytes × CertCacheEntry))
      → All TrustedEntry l
      → All TrustedEntry (delete k l)
  unfolding delete
  delete_sound k [] h = h
  delete_sound k (e ∷ l) (h, hs) =
      if_cases (All TrustedEntry) (same e.0 k) (λ _. hs) (λ _. (h, delete_sound k l hs))

  find-sound :
      (k : Bytes) (l : List (Bytes × CertCacheEntry)) (e : CertCacheEntry)
      → All TrustedEntry l
      → find k l ≡ some e
      → IsTrusted k e.cert
  unfolding find
  find-sound k [] e h found = ground arith
  find-sound k (x ∷ l) e (h, hs) found =
      if_cases (λ o. o ≡ some e → IsTrusted k e.cert) (same x.0 k)
        (λ yes eq. move x.0 k x.1.cert e.cert (ground (arith, same_iff x.0 k)) (ground arith) h)
        (λ no eq. find-sound k l e hs eq) found

  pub store_verified-IsSound :
      (cert : Certificate) (now : ℕ) (c : CertCache)
      → IsSound c
      → IsTrusted cert.node_id cert
      → IsSound (store_verified cert now c)
  unfolding store_verified write
  store_verified-IsSound cert now c h good =
      if_cases IsSound (is_kept c now cert) (λ _. h)
        (λ _. (good, delete_sound cert.node_id c.entries h))

  pub get-IsTrusted :
      (id : Bytes) (now : ℕ) (c : CertCache) (cert : Certificate)
      → IsSound c
      → get id now c ≡ some cert
      → IsTrusted id cert
  unfolding get
  get-IsTrusted id now c cert h =
      option_cases (λ o. o ≡ some cert → IsTrusted id cert) (find id c.entries)
        (λ _ e. ground arith)
        (λ x found.
          if_cases (λ o. o ≡ some cert → IsTrusted id cert) (ltb (x.stored_at + c.ttl) now)
            (λ _ e. ground arith)
            (λ _ e. move id id x.cert cert refl (ground arith) (find-sound id c.entries x h found)))

-- What acquired a certificate says.
module _ (os : Platform) (cr : Crypto) where
  abbrev Vouched : Verifier → Bytes → Acquired × CertCache → Type 0
  Vouched v id a =
      IsSound os cr v.ca_public_key v.tolerance_secs a.1
      × ((c : Certificate)
          → a.0 ≡ acquired c
          → IsTrusted os cr v.ca_public_key v.tolerance_secs id c)

  abbrev Sound : Verifier → Type 0
  Sound v = IsSound os cr v.ca_public_key v.tolerance_secs v.cert_cache

  refusal :
      (v : Verifier) (id : Bytes) (code : Code)
      → Sound v
      → Vouched v id (rejected code, v.cert_cache)
  refusal v id code h = (h, λ c e. ground arith)

  present-Vouched :
      (v : Verifier) (r : Request) (now : ℕ) → Sound v → Vouched v r.node_id (present os cr v r now)
  unfolding present
  present-Vouched v r now h =
      let P = Vouched v r.node_id in
      option_cases P (parse_certificate_base64url os cr r.certificate)
        (λ _. refusal v r.node_id invalid_certificate h)
        (λ parsed _.
          if_cases P (not (verify_certificate os cr parsed v.ca_public_key now v.tolerance_secs))
            (λ _. refusal v r.node_id invalid_certificate h)
            (λ good.
              if_cases P (not (same parsed.node_id r.node_id))
                (λ _. refusal v r.node_id invalid_certificate h)
                (λ named.
                  let own : IsTrusted os cr v.ca_public_key v.tolerance_secs parsed.node_id parsed =
                    record { named = refl; checked_at = now; checked = ground arith } in
                  let other =
                    move os cr v.ca_public_key v.tolerance_secs parsed.node_id r.node_id parsed in
                  (
                    store_verified-IsSound os cr v.ca_public_key v.tolerance_secs parsed now
                        v.cert_cache h own,
                    λ c e.
                        other c (ground (arith, same_iff parsed.node_id r.node_id)) (ground arith)
                          own,
                  ))))

  pub acquire-Vouched :
      (v : Verifier) (r : Request) (now : ℕ) → Sound v → Vouched v r.node_id (acquire os cr v r now)
  unfolding acquire
  acquire-Vouched v r now h =
      let P = Vouched v r.node_id in
      if_cases P (is_empty r.certificate)
        (λ _.
          option_cases P (get r.node_id now v.cert_cache)
            (λ _. refusal v r.node_id certificate_required h)
            (λ c found. (
              h,
              λ d e.
                  move os cr v.ca_public_key v.tolerance_secs r.node_id r.node_id c d refl
                    (ground arith)
                    (get-IsTrusted os cr v.ca_public_key v.tolerance_secs r.node_id now v.cert_cache
                      c h found),
            )))
        (λ _. present-Vouched v r now h)
