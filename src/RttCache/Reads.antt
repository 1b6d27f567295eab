-- ===== src/RttCache/Reads.antt =====
-- The three ways to read a round-trip cache agree.
use mathlib.Core.Path.{subst⁻¹}
use chord_dht.Base.{
  ℕ, ◌≤◌, ◌≡◌, refl, sym, ap, ◌∙◌, false, Option, none, some, List, [], ◌∷◌, Bytes, same, same_iff,
  has, if◌then◌else◌, arith, if_cases, option_cases, ◌||◌, is_empty,
}
use chord_dht.Auth.Int64.{is_negative}
use chord_dht.RttCache.{
  Floats, RttSample, RttCache, observe, is_expired, get, live_samples, snapshot, sweep_samples,
  cleanup,
}
use chord_dht.Store.{find, keys}
use chord_dht.Store.Laws.{Distinct, not_has-keys_of_find, find_of_not_has, keys-update}

module _ {F : Type 0} (fl : Floats F) where
  -- What a read of one sample shows.
  abbrev shown : ℕ → ℕ → Option (RttSample F) → Option ℕ
  shown expiry now none = none
  shown expiry now (some s) =
      if is_expired fl expiry now s then none else some (fl.to_int s.ewma_ms)

  live-keys :
      (expiry now : ℕ) (k : Bytes) (l : List (Bytes × RttSample F))
      → has k (keys l) ≡ false
      → find k (live_samples fl expiry now l) ≡ none
  unfolding live_samples find
  live-keys expiry now k [] h = refl
  live-keys expiry now k (e ∷ l) h = ground (arith, live-keys expiry now k l)

  live-find :
      (expiry now : ℕ) (k : Bytes) (l : List (Bytes × RttSample F))
      → Distinct (keys l)
      → find k (live_samples fl expiry now l) ≡ shown expiry now (find k l)
  unfolding live_samples find
  live-find expiry now k [] d = refl
  live-find expiry now k (e ∷ l) d =
      if_cases {A = Option (RttSample F)}
        (λ o. find k (live_samples fl expiry now (e ∷ l)) ≡ shown expiry now o) (same e.0 k)
        (λ yes. ground (arith, d, live-keys expiry now e.0 l, same_iff e.0 k, yes))
        (λ no. ground (arith, d, live-find expiry now k l, no))

  sweep-keys :
      (expiry now : ℕ) (k : Bytes) (l : List (Bytes × RttSample F))
      → has k (keys l) ≡ false
      → has k (keys (sweep_samples fl expiry now l)) ≡ false
  unfolding sweep_samples
  sweep-keys expiry now k [] h = refl
  sweep-keys expiry now k (e ∷ l) h = ground (arith, sweep-keys expiry now k l)

  -- Expired samples stay expired.
  sweep-find :
      (expiry now later : ℕ) (k : Bytes) (l : List (Bytes × RttSample F))
      → now ≤ later
      → Distinct (keys l)
      → shown expiry later (find k (sweep_samples fl expiry now l)) ≡ shown expiry later (find k l)
  unfolding sweep_samples find
  sweep-find expiry now later k [] le d = refl
  sweep-find expiry now later k (e ∷ l) le d =
      if_cases {A = Option (RttSample F)}
        (λ o.
          shown expiry later (find k (sweep_samples fl expiry now (e ∷ l))) ≡ shown expiry later o)
        (same e.0 k)
        (λ yes. ground (
          arith,
          d,
          sweep-keys expiry now e.0 l,
          find_of_not_has k (sweep_samples fl expiry now l),
          same_iff e.0 k,
          yes,
          le,
        ))
        (λ no. ground (arith, d, sweep-find expiry now later k l, no))

  sweep-Distinct :
      (expiry now : ℕ) (l : List (Bytes × RttSample F))
      → Distinct (keys l)
      → Distinct (keys (sweep_samples fl expiry now l))
  unfolding sweep_samples
  sweep-Distinct expiry now [] d = d
  sweep-Distinct expiry now (e ∷ l) d =
      ground (arith, d, sweep-keys expiry now e.0 l, sweep-Distinct expiry now l)

  get_lem :
      (c : RttCache F) (id : Bytes) (now : ℕ)
      → get fl id now c ≡ shown c.expiry now (find id c.samples)
  unfolding get
  get_lem c id now =
      option_cases {A = Option ℕ} (λ o. o ≡ shown c.expiry now (find id c.samples))
        (find id c.samples) (λ e. ap (shown c.expiry now) (sym e))
        (λ s e. ap (shown c.expiry now) (sym e))

  -- The keys of the map are distinct.
  abbrev pub IsMap : RttCache F → Type 0
  IsMap c = Distinct (keys c.samples)

  pub observe-IsMap :
      (id : Bytes) (ms now : ℕ) (c : RttCache F) → IsMap c → IsMap (observe fl id ms now c)
  unfolding observe
  observe-IsMap id ms now c d =
      if_cases IsMap (is_empty id || is_negative ms) (λ _. d)
        (λ _.
          option_cases {A = List (Bytes × RttSample F)} (λ l. Distinct (keys l)) (find id c.samples)
            (λ e. (not_has-keys_of_find id c.samples e, d))
            (λ s _.
              subst⁻¹ Distinct
                (keys-update id
                  (record { ewma_ms = fl.blend c.alpha ms s.ewma_ms; updated_at = now }) c.samples)
                d))

  -- In a map of samples, what `Snapshot` lists for a peer is what `Get` returns for it at the same time;
  -- and `Cleanup` changes no later answer of `Get`, and keeps the keys distinct.
  pub snapshot-get :
      (c : RttCache F) (id : Bytes) (now later : ℕ)
      → IsMap c
      → now ≤ later
      → (find id (snapshot fl now c) ≡ get fl id now c)
        × (get fl id later (cleanup fl now c) ≡ get fl id later c)
        × IsMap (cleanup fl now c)
  unfolding snapshot get cleanup
  snapshot-get c id now later d le = (
    live-find c.expiry now id c.samples d ∙ sym (get_lem c id now),
    get_lem (cleanup fl now c) id later
        ∙ (sweep-find c.expiry now later id c.samples le d ∙ sym (get_lem c id later)),
    sweep-Distinct c.expiry now c.samples d,
  )
