-- ===== src/RttCache.antt =====
-- internal/chord/rtt_cache.go: the round-trip times of the peers, smoothed, until they expire. The
-- numbers with a fraction, `float64` in the source, are a parameter.
pub mod Reads
use chord_dht.Auth.Int64.{is_negative}
use chord_dht.Base.{
  ℕ, ◌+◌, Bool, true, false, not, ◌||◌, Option, none, some, List, [], ◌∷◌, Bytes, is_empty, ltb,
  leb, if◌then◌else◌,
}
use chord_dht.Store.{find, update}

-- `blend alpha ms old` is `alpha*float64(ms) + (1-alpha)*old`.
pub record Floats (F : Type 0) : Type 0 where
  pub of_int : ℕ → F
  pub to_int : F → ℕ
  pub blend : F → ℕ → F → F
  pub is_fraction : F → Bool
  pub default_alpha : F

pub record RttSample (F : Type 0) : Type 0 where
  pub ewma_ms : F
  pub updated_at : ℕ

pub record RttCache (F : Type 0) : Type 0 where
  pub samples : List (Bytes × RttSample F)
  pub alpha : F
  pub expiry : ℕ

module _ {F : Type 0} (fl : Floats F) where
  -- `is_fraction` is `0 < alpha && alpha <= 1`.
  unfoldable pub new_rtt_cache : F → ℕ → RttCache F
  new_rtt_cache alpha expiry = record {
    samples = [];
    alpha = if fl.is_fraction alpha then alpha else fl.default_alpha;
    expiry = if leb expiry 0 then 300_000_000_000 else expiry;
  }

  -- `Record`, the time of the trip an `int64`.
  unfoldable pub observe : Bytes → ℕ → ℕ → RttCache F → RttCache F
  observe id ms now c =
      let stored : List (Bytes × RttSample F) = elim (find id c.samples) [
        | some s ↦
            update id (record { ewma_ms = fl.blend c.alpha ms s.ewma_ms; updated_at = now })
              c.samples
        | none ↦ (id, record { ewma_ms = fl.of_int ms; updated_at = now }) ∷ c.samples
      ] in
      if is_empty id || is_negative ms then c else record c { samples = stored }

  -- `now.Sub(s.updatedAt) > c.expiry`
  abbrev pub is_expired : ℕ → ℕ → RttSample F → Bool
  is_expired expiry now s = ltb (s.updated_at + expiry) now

  unfoldable pub get : Bytes → ℕ → RttCache F → Option ℕ
  get id now c = elim (find id c.samples) [
    | none ↦ none
    | some s ↦ if is_expired c.expiry now s then none else some (fl.to_int s.ewma_ms)
  ]

  unfoldable pub live_samples : ℕ → ℕ → List (Bytes × RttSample F) → List (Bytes × ℕ)
  live_samples expiry now [] = []
  live_samples expiry now (e ∷ l) =
      let rest = live_samples expiry now l in
      if is_expired expiry now e.1 then rest else (e.0, fl.to_int e.1.ewma_ms) ∷ rest

  unfoldable pub snapshot : ℕ → RttCache F → List (Bytes × ℕ)
  snapshot now c = live_samples c.expiry now c.samples

  unfoldable pub sweep_samples : ℕ → ℕ → List (Bytes × RttSample F) → List (Bytes × RttSample F)
  sweep_samples expiry now [] = []
  sweep_samples expiry now (e ∷ l) =
      let rest = sweep_samples expiry now l in if is_expired expiry now e.1 then rest else e ∷ rest

  unfoldable pub cleanup : ℕ → RttCache F → RttCache F
  cleanup now c = record c { samples = sweep_samples c.expiry now c.samples }
