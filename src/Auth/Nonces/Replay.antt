-- ===== src/Auth/Nonces/Replay.antt =====
-- A nonce is accepted once until it expires, and the cache is bounded.
use chord_dht.Base.{
  ℕ, ◌+◌, ◌≤◌, ◌≡◌, refl, ap, Bool, true, false, not, ◌&&◌, ◌||◌, none, List, [], ◌∷◌, Bytes, same,
  length, leb, All, arith, if_cases, option_cases,
}
use chord_dht.Store.{find}
use chord_dht.Auth.Nonces.{
  NonceCache, new_nonce_cache, unexpired, cleanup, full, add, Event, added, cleaned, step, run,
  time_of,
}

-- The nonce is in the cache, and stays until a given time at least.
unfoldable holds : Bytes → ℕ → List (Bytes × ℕ) → Bool
holds nonce until [] = false
holds nonce until (e ∷ l) = (same e.0 nonce && leb until e.1) || holds nonce until l

unexpired-holds :
    (nonce : Bytes) (until now : ℕ) (l : List (Bytes × ℕ))
    → now ≤ until
    → holds nonce until l ≡ true
    → holds nonce until (unexpired now l) ≡ true
unfolding unexpired holds
unexpired-holds nonce until now [] h held = held
unexpired-holds nonce until now (e ∷ l) h held = ground (arith, unexpired-holds nonce until now l h)

find-of-holds :
    (nonce : Bytes) (until : ℕ) (l : List (Bytes × ℕ))
    → holds nonce until l ≡ true
    → (find nonce l ≡ none)
    → true ≡ false
unfolding find holds
find-of-holds nonce until [] held missing = ground arith
find-of-holds nonce until (e ∷ l) held missing = ground (arith, find-of-holds nonce until l)

add-refused :
    (nonce : Bytes) (until now : ℕ) (c : NonceCache)
    → holds nonce until c.entries ≡ true
    → add nonce now c ≡ (false, c)
unfolding add
add-refused nonce until now c held =
    option_cases (λ a. a ≡ (false, c)) (find nonce c.entries)
      (λ missing. ground (arith, find-of-holds nonce until c.entries held missing)) (λ x _. refl)

step-holds :
    (nonce : Bytes) (until : ℕ) (e : Event) (c : NonceCache)
    → time_of e ≤ until
    → holds nonce until c.entries ≡ true
    → holds nonce until (step e c).entries ≡ true
unfolding step add cleanup holds
step-holds nonce until (cleaned now) c h held = unexpired-holds nonce until now c.entries h held
step-holds nonce until (added other now) c h held =
    let P : Bool × NonceCache → Type 0 = λ a. holds nonce until a.1.entries ≡ true in
    let clean = unexpired-holds nonce until now c.entries h held in
    option_cases P (find other c.entries)
      (λ _.
        if_cases P (not (full c)) (λ _. ground arith)
          (λ _. if_cases P (full (cleanup now c)) (λ _. clean) (λ _. ground arith)))
      (λ _ _. held)

run-holds :
    (nonce : Bytes) (until : ℕ) (es : List Event) (c : NonceCache)
    → All (λ e. time_of e ≤ until) es
    → holds nonce until c.entries ≡ true
    → holds nonce until (run es c).entries ≡ true
unfolding run
run-holds nonce until [] c h held = held
run-holds nonce until (e ∷ es) c (h, hs) held =
    run-holds nonce until es (step e c) hs (step-holds nonce until e c h held)

add-holds :
    (nonce : Bytes) (now : ℕ) (c : NonceCache)
    → (add nonce now c).0 ≡ true
    → holds nonce (now + c.ttl) (add nonce now c).1.entries ≡ true
unfolding add cleanup holds
add-holds nonce now c =
    let P : Bool × NonceCache → Type 0 =
      λ a. a.0 ≡ true → holds nonce (now + c.ttl) a.1.entries ≡ true in
    option_cases P (find nonce c.entries)
      (λ _.
        if_cases P (not (full c)) (λ _ _. ground arith)
          (λ _. if_cases P (full (cleanup now c)) (λ _ e. ground arith) (λ _ _. ground arith)))
      (λ _ _ e. ground arith)

-- A nonce accepted at a time is refused, whenever it comes again, as long as the requests and the
-- ticks of the cleaner in between happen before the nonce expires.
pub add-once :
    (nonce : Bytes) (now later : ℕ) (c : NonceCache) (es : List Event)
    → (add nonce now c).0 ≡ true
    → All (λ e. time_of e ≤ now + c.ttl) es
    → (add nonce later (run es (add nonce now c).1)).0 ≡ false
add-once nonce now later c es taken soon =
    ap (λ a. a.0)
      (add-refused nonce (now + c.ttl) later (run es (add nonce now c).1)
        (run-holds nonce (now + c.ttl) es (add nonce now c).1 soon (add-holds nonce now c taken)))

length-unexpired-le : (now : ℕ) (l : List (Bytes × ℕ)) → length (unexpired now l) ≤ length l
unfolding unexpired
length-unexpired-le now [] = ground arith
length-unexpired-le now (e ∷ l) = ground (arith, length-unexpired-le now l)

-- The cache stays within a size, which is its own.
abbrev IsBounded : ℕ → NonceCache → Type 0
IsBounded size c = (c.max_size ≡ size) × length c.entries ≤ size

step-IsBounded :
    (size : ℕ) (e : Event) (c : NonceCache) → IsBounded size c → IsBounded size (step e c)
unfolding step add cleanup
step-IsBounded size (cleaned now) c (h, b) = (h, ground (arith, length-unexpired-le now c.entries))
step-IsBounded size (added nonce now) c (h, b) =
    let P : Bool × NonceCache → Type 0 = λ a. IsBounded size a.1 in
    let fewer = length-unexpired-le now c.entries in
    option_cases P (find nonce c.entries)
      (λ _.
        if_cases P (not (full c)) (λ room. (h, ground arith))
          (λ _.
            if_cases P (full (cleanup now c)) (λ _. (h, ground arith)) (λ room. (h, ground arith))))
      (λ _ _. (h, b))

run-IsBounded :
    (size : ℕ) (es : List Event) (c : NonceCache) → IsBounded size c → IsBounded size (run es c)
unfolding run
run-IsBounded size [] c b = b
run-IsBounded size (e ∷ es) c b = run-IsBounded size es (step e c) (step-IsBounded size e c b)

-- Whatever happens to a new cache, it never holds more nonces than its size.
pub run-new_nonce_cache :
    (ttl size : ℕ) (es : List Event) → length (run es (new_nonce_cache ttl size)).entries ≤ size
unfolding new_nonce_cache
run-new_nonce_cache ttl size es =
    (run-IsBounded size es (new_nonce_cache ttl size) (refl, ground arith)).1
