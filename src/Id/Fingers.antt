-- ===== src/Id/Fingers.antt =====
-- `FingerStart` and the interval tests on identifiers.
use chord_dht.Base.{ℕ, ◌+◌, ◌^◌, ◌%◌, ◌≤◌, ◌<◌, ◌≡◌, ◌↔◌, true, some, Bytes, arith}
use chord_dht.Id.{
  ok, m, ring_size, validate_id, id_to_big, finger_start, in_range_open_closed, in_range_open_open,
  open_open, open_closed,
}
use chord_dht.Id.Arc.{arc, open_open_iff, open_closed_iff}
use chord_dht.Id.Digits.{id_to_big-lt, big_to_id-round_trip}

-- For a valid identifier and an index below 160, `FingerStart` succeeds, and its result is the
-- identifier of the place 2^index steps on, modulo the size of the ring.
pub finger_start_place :
    (self_id : Bytes) (self index : ℕ)
    → id_to_big self_id ≡ some self
    → index < m
    → (id : Bytes) × (finger_start self_id index ≡ ok id)
      × (validate_id id ≡ true)
      × (id_to_big id ≡ some ((self + 2 ^ index) % ring_size))
unfolding finger_start
finger_start_place self_id self index h lt =
    let (id, written, valid, back) =
      big_to_id-round_trip ((self + 2 ^ index) % ring_size) (omega arith) in
    (id, ground (arith, written), valid, back)

module _ (x_id a_id b_id : Bytes) {x a b : ℕ} (hx : id_to_big x_id ≡ some x)
    (ha : id_to_big a_id ≡ some a) (hb : id_to_big b_id ≡ some b) where
  open_open_places : in_range_open_open x_id a_id b_id ≡ open_open x a b
  unfolding in_range_open_open
  open_open_places = ground arith

  open_closed_places : in_range_open_closed x_id a_id b_id ≡ open_closed x a b
  unfolding in_range_open_closed
  open_closed_places = ground arith

  -- On valid identifiers `InRangeOpenOpen` holds exactly when the walk clockwise from `a` meets `x`
  -- strictly before it meets `b`; if `a` and `b` are equal the walk to `b` is the whole ring.
  pub in_range_open_open_iff : (in_range_open_open x_id a_id b_id ≡ true) ↔ (arc a x < arc a b)
  in_range_open_open_iff = rw open_open_places (
      open_open_iff x a b (id_to_big-lt x_id x hx) (id_to_big-lt a_id a ha)
        (id_to_big-lt b_id b hb))

  -- On valid identifiers `InRangeOpenClosed` holds exactly when the walk clockwise from `a` meets
  -- `x` no later than `b`; if `a` and `b` are equal it holds of every `x`.
  pub in_range_open_closed_iff : (in_range_open_closed x_id a_id b_id ≡ true) ↔ (arc a x ≤ arc a b)
  in_range_open_closed_iff = rw open_closed_places (
      open_closed_iff x a b (id_to_big-lt x_id x hx) (id_to_big-lt a_id a ha)
        (id_to_big-lt b_id b hb))

-- A passed test carries the three places with it.
pub in_range_open_open_valid :
    (x_id a_id b_id : Bytes)
    → in_range_open_open x_id a_id b_id ≡ true
    → ((x : ℕ) × (id_to_big x_id ≡ some x))
      × ((a : ℕ) × (id_to_big a_id ≡ some a))
      × ((b : ℕ) × (id_to_big b_id ≡ some b))
unfolding in_range_open_open
in_range_open_open_valid x_id a_id b_id h = ground arith
