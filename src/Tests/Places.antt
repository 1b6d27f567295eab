-- ===== src/Tests/Places.antt =====
-- Identifiers, intervals and fingers.
use chord_dht.Base.{ℕ, ◌+◌, ◌%◌, ◌^◌, ◌<◌, ◌≡◌, ◌↔◌, refl, true, some, Bytes, any, ◌==◌, arith}
use chord_dht.Fingers.{next_k_finger_indices}
use chord_dht.Fingers.Order.{next_k_finger_indices-all}
use chord_dht.Id.{
  ok, ring_size, validate_id, id_to_big, big_to_id, finger_start, in_range_open_open, set_string,
  digit_value, all_hex, is_hex,
}
use chord_dht.Id.Arc.{arc}
use chord_dht.Id.Digits.{big_to_id-round_trip}
use chord_dht.Id.Fingers.{in_range_open_open_iff, finger_start_place}
use chord_dht.Tests.Data.{id_a, id_b, id_c, the_node}

abbrev place_a : ℕ
place_a = 2 ^ 156

abbrev place_b : ℕ
place_b = 2 ^ 157

abbrev place_c : ℕ
place_c = 2 ^ 156 + 2 ^ 157

a-place : id_to_big id_a ≡ some place_a
unfolding id_to_big validate_id set_string digit_value all_hex is_hex
a-place = refl

b-place : id_to_big id_b ≡ some place_b
unfolding id_to_big validate_id set_string digit_value all_hex is_hex
b-place = refl

c-place : id_to_big id_c ≡ some place_c
unfolding id_to_big validate_id set_string digit_value all_hex is_hex
c-place = refl

in_range_open_open_iff_example :
    (in_range_open_open id_b id_a id_c ≡ true) ↔ (arc place_a place_b < arc place_a place_c)
in_range_open_open_iff_example = in_range_open_open_iff id_b id_a id_c b-place a-place c-place

finger_start_place_example :
    (id : Bytes) × (finger_start id_a 159 ≡ ok id)
    × (validate_id id ≡ true)
    × (id_to_big id ≡ some ((place_a + 2 ^ 159) % ring_size))
finger_start_place_example = finger_start_place id_a place_a 159 a-place (omega arith)

big_to_id-round_trip_example :
    (id : Bytes) × (big_to_id 1000 ≡ ok id) × (validate_id id ≡ true) × (id_to_big id ≡ some 1000)
big_to_id-round_trip_example = big_to_id-round_trip 1000 (omega arith)

next_k_finger_indices-all_example : any (λ x. x == 42) (next_k_finger_indices 160 the_node).0 ≡ true
next_k_finger_indices-all_example =
    next_k_finger_indices-all 160 42 the_node (omega arith) (omega arith) (omega arith)
