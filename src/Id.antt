-- ===== src/Id.antt =====
-- internal/chord/id.go: node identifiers, the positions of the fingers, and the interval tests.
-- `big.Int` is ℕ: every value that the file computes is at least 0.
pub mod Arc
pub mod Digits
pub mod Fingers
use chord_dht.Base.{
  ℕ, zero, suc, ◌+◌, ◌-◌, ◌*◌, ◌/◌, ◌%◌, ◌^◌, ◌≡◌, Bool, true, false, not, ◌&&◌, ◌||◌, Option, none,
  some, List, [], ◌∷◌, ◌++◌, map, Bytes, length, ltb, leb, ◌==◌, if◌then◌else◌,
}

-- What a call returns, or that it panics.
pub data Outcome (A : Type 0) : Type 0 where
  ok : A → Outcome A
  err : Outcome A
  panic : Outcome A

-- `DefaultM`, the width of the identifiers in bits.
abbrev pub m : ℕ
m = 160

abbrev pub ring_size : ℕ
ring_size = 2 ^ m

unfoldable pub is_hex : ℕ → Bool
is_hex r = not ((ltb r b'0' || ltb b'9' r) && (ltb r b'a' || ltb b'f' r))

unfoldable pub all_hex : Bytes → Bool
all_hex [] = true
all_hex (r ∷ id) = is_hex r && all_hex id

unfoldable pub validate_id : Bytes → Bool
unfolding is_hex all_hex
validate_id id = length id == 40 && all_hex id

-- `SetString(id, 16)` on the digits that `ValidateID` admits.
unfoldable pub digit_value : ℕ → ℕ
digit_value c = if leb c b'9' then c - b'0' else c - b'a' + 10

unfoldable pub set_string : ℕ → Bytes → ℕ
set_string acc [] = acc
set_string acc (c ∷ cs) = set_string (acc * 16 + digit_value c) cs

unfoldable pub id_to_big : Bytes → Option ℕ
id_to_big id = if validate_id id then some (set_string 0 id) else none

unfoldable pub digit : ℕ → ℕ
digit d = if ltb d 10 then b'0' + d else b'a' + (d - 10)

-- `n.Text(16)`, the digits of a number with no leading zero; a number is more than the count of
-- its digits, so as fuel it is enough.
unfoldable pub text_loop : ℕ → ℕ → Bytes
text_loop zero n = []
text_loop (suc f) n =
    let rest = text_loop f (n / 16) ++ digit (n % 16) ∷ [] in
    if ltb n 16 then digit n ∷ [] else rest

unfoldable pub text : ℕ → Bytes
unfolding text_loop digit
text n = text_loop (suc n) n

unfoldable pub replicate : ℕ → ℕ → Bytes
replicate zero c = []
replicate (suc n) c = c ∷ replicate n c

unfoldable pub to_lower : ℕ → ℕ
to_lower c = if leb b'A' c && leb c b'Z' then c + 32 else c

-- `strings.Repeat` panics on a negative count.
unfoldable pub big_to_id : ℕ → Outcome Bytes
unfolding text replicate to_lower
big_to_id n =
    if ltb 40 (length (text n))
    then panic
    else ok (map to_lower (replicate (40 - length (text n)) b'0' ++ text n))

-- An index is negative only by mistake of a caller; ℕ leaves that half of the guard out.
unfoldable pub finger_start : Bytes → ℕ → Outcome Bytes
finger_start self_id index = if leb m index then err else elim (id_to_big self_id) [
  | none ↦ err
  | some self ↦ big_to_id ((self + 2 ^ index) % ring_size)
]

-- The comparisons of the two interval tests, on numbers.
unfoldable pub open_closed : ℕ → ℕ → ℕ → Bool
open_closed x a b =
    if ltb a b then ltb a x && leb x b else if ltb b a then ltb a x || leb x b else true

unfoldable pub open_open : ℕ → ℕ → ℕ → Bool
open_open x a b =
    if ltb a b then ltb a x && ltb x b else if ltb b a then ltb a x || ltb x b else not (x == a)

unfoldable pub in_range_open_closed : Bytes → Bytes → Bytes → Bool
unfolding open_closed
in_range_open_closed x_id a_id b_id = elim (id_to_big x_id) [
  | none ↦ false
  | some x ↦ elim (id_to_big a_id) [
    | none ↦ false
    | some a ↦ elim (id_to_big b_id) [ none ↦ false | some b ↦ open_closed x a b ]
  ]
]

unfoldable pub in_range_open_open : Bytes → Bytes → Bytes → Bool
unfolding open_open
in_range_open_open x_id a_id b_id = elim (id_to_big x_id) [
  | none ↦ false
  | some x ↦ elim (id_to_big a_id) [
    | none ↦ false
    | some a ↦ elim (id_to_big b_id) [ none ↦ false | some b ↦ open_open x a b ]
  ]
]
