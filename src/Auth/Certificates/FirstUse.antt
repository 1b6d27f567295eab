-- ===== src/Auth/Certificates/FirstUse.antt =====
-- Trust on first use: which certificate of a node the cache keeps.
use chord_dht.Auth.Certificates.{
  Certificate, CertCache, CertCacheEntry, is_kept, write, store_verified, get,
}
use chord_dht.Auth.Int64.{less}
use chord_dht.Base.{
  ℕ, ◌+◌, ◌<◌, ◌≡◌, ◌≢◌, refl, true, false, not, some, Bytes, same_iff, arith, if_cases,
}
use chord_dht.Store.{find}
use chord_dht.Store.Laws.{find-delete_ne}

find-write_ne :
    (k q : Bytes) (e : CertCacheEntry) (c : CertCache)
    → q ≢ k
    → find q (write k e c.entries) ≡ find q c.entries
unfolding write find
find-write_ne k q e c ne = ground (arith, same_iff k q, find-delete_ne k q c.entries ne)

get-of_find :
    (id : Bytes) (now : ℕ) (c d : CertCache)
    → find id c.entries ≡ find id d.entries
    → c.ttl ≡ d.ttl
    → get id now c ≡ get id now d
unfolding get
get-of_find id now c d h t = ground arith

is_kept-live :
    (cert : Certificate) (now : ℕ) (c : CertCache) (e : CertCacheEntry)
    → find cert.node_id c.entries ≡ some e
    → now < e.stored_at + c.ttl
    → is_kept c now cert ≡ not (less e.cert.issued_at cert.issued_at)
unfolding is_kept
is_kept-live cert now c e found live = rw (found, is_kept) (ground arith)

pub get-write :
    (cert : Certificate) (now : ℕ) (c : CertCache)
    → get cert.node_id now (record c {
      entries = write cert.node_id (record { cert = cert; stored_at = now }) c.entries;
    })
      ≡ some cert
unfolding get write find
get-write cert now c = ground (arith, same_iff cert.node_id cert.node_id)

-- While the entry of a node lives, a verified certificate that was not issued later changes nothing, and
-- one that was issued later is what the cache returns at once; the certificates of the other nodes
-- stay as they are.
pub store_verified_lem :
    (cert : Certificate) (now : ℕ) (c : CertCache) (e : CertCacheEntry)
    → find cert.node_id c.entries ≡ some e
    → now < e.stored_at + c.ttl
    → (less e.cert.issued_at cert.issued_at ≡ false → store_verified cert now c ≡ c)
      × (less e.cert.issued_at cert.issued_at ≡ true
          → get cert.node_id now (store_verified cert now c) ≡ some cert)
      × ((id : Bytes) → id ≢ cert.node_id → get id now (store_verified cert now c) ≡ get id now c)
unfolding store_verified
store_verified_lem cert now c e found live = (
  (λ old.
      if_cases {A = CertCache} (λ d. d ≡ c) (is_kept c now cert) (λ _. refl)
        (λ lost. ground (arith, is_kept-live cert now c e found live))),
  (λ new.
      if_cases {A = CertCache} (λ d. get cert.node_id now d ≡ some cert) (is_kept c now cert)
        (λ kept. ground (arith, is_kept-live cert now c e found live)) (λ _. get-write cert now c)),
  (λ id ne.
      if_cases {A = CertCache} (λ d. get id now d ≡ get id now c) (is_kept c now cert) (λ _. refl)
        (λ _.
          get-of_find id now _ c
            (find-write_ne cert.node_id id (record { cert = cert; stored_at = now }) c ne) refl)),
)
