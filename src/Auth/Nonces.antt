-- ===== src/Auth/Nonces.antt =====
-- internal/auth/nonce_cache.go: the nonces seen, each until it expires. Times are in nanoseconds,
-- and the map is an association list.
pub mod Replay
use chord_dht.Base.{
  ℕ, suc, ◌+◌, Bool, true, false, not, Option, none, some, List, [], ◌∷◌, Bytes, same, length, ltb,
  leb, if◌then◌else◌,
}
use chord_dht.Store.{find}

pub record NonceCache : Type 0 where
  pub entries : List (Bytes × ℕ)
  pub ttl : ℕ
  pub max_size : ℕ

unfoldable pub new_nonce_cache : ℕ → ℕ → NonceCache
new_nonce_cache ttl max_size = record { entries = []; ttl = ttl; max_size = max_size }

-- `now.After(exp)`
unfoldable pub unexpired : ℕ → List (Bytes × ℕ) → List (Bytes × ℕ)
unexpired now [] = []
unexpired now (e ∷ l) = let rest = unexpired now l in if ltb e.1 now then rest else e ∷ rest

-- `cleanupLocked`
unfoldable pub cleanup : ℕ → NonceCache → NonceCache
cleanup now c = record c { entries = unexpired now c.entries }

abbrev pub full : NonceCache → Bool
full c = leb c.max_size (length c.entries)

abbrev record_nonce : Bytes → ℕ → NonceCache → NonceCache
record_nonce nonce now c = record c { entries = (nonce, now + c.ttl) ∷ c.entries }

unfoldable pub add : Bytes → ℕ → NonceCache → Bool × NonceCache
unfolding cleanup
add nonce now c =
    let cleaned = cleanup now c in
    elim (find nonce c.entries) [
      | some _ ↦ (false, c)
      | none ↦
          if not (full c)
          then (true, record_nonce nonce now c)
          else if full cleaned
          then (false, cleaned)
          else (true, record_nonce nonce now cleaned)
    ]

-- What happens to a cache: a request, or a tick of the cleaner.
pub data Event : Type 0 where
  added : Bytes → ℕ → Event
  cleaned : ℕ → Event

unfoldable pub step : Event → NonceCache → NonceCache
step (added nonce now) c = (add nonce now c).1
step (cleaned now) c = cleanup now c

unfoldable pub run : List Event → NonceCache → NonceCache
run [] c = c
run (e ∷ l) c = run l (step e c)

abbrev pub time_of : Event → ℕ
time_of (added _ now) = now
time_of (cleaned now) = now
