-- ===== src/Id/Digits.antt =====
-- Identifiers as numbers: `idToBig` and `bigToID` are inverse to one another.
use chord_dht.Base.{
  ℕ, zero, suc, ◌+◌, ◌-◌, ◌*◌, ◌/◌, ◌%◌, ◌^◌, ◌≤◌, ◌<◌, ◌≡◌, ◌↔◌, ◌∙◌, sym, refl, ap, true, false,
  some, [], ◌∷◌, ◌++◌, map, Bytes, length, length-append, ltb, arith, Bool-cases, ltb_iff, ==_iff,
  &&-eq-true, inl, inr,
}
use chord_dht.Id.{
  ok, ring_size, is_hex, all_hex, validate_id, digit_value, set_string, id_to_big, digit, text_loop,
  text, replicate, to_lower, big_to_id,
}
use native.Mathlib.Nat.{pow-suc}
use mathlib.Core.Path.{ap₂}

digit_value-lt : (c : ℕ) → is_hex c ≡ true → digit_value c < 16
unfolding is_hex digit_value
digit_value-lt c h = ground arith

digit_value-injective :
    (c d : ℕ) → is_hex c ≡ true → is_hex d ≡ true → digit_value c ≡ digit_value d → c ≡ d
unfolding is_hex digit_value
digit_value-injective c d h k e = ground arith

digit-is_hex : (d : ℕ) → d < 16 → is_hex (digit d) ≡ true
unfolding is_hex digit
digit-is_hex d h = ground arith

digit_value-digit : (d : ℕ) → d < 16 → digit_value (digit d) ≡ d
unfolding digit_value digit
digit_value-digit d h = ground arith

to_lower-hex : (c : ℕ) → is_hex c ≡ true → to_lower c ≡ c
unfolding is_hex to_lower
to_lower-hex c h = ground arith

set_string-append :
    (acc : ℕ) (xs ys : Bytes) → set_string acc (xs ++ ys) ≡ set_string (set_string acc xs) ys
unfolding set_string
set_string-append acc [] ys = refl
set_string-append acc (x ∷ xs) ys = set_string-append (acc * 16 + digit_value x) xs ys

all_hex-append : (xs ys : Bytes) → all_hex xs ≡ true → all_hex ys ≡ true → all_hex (xs ++ ys) ≡ true
unfolding all_hex
all_hex-append [] ys h k = k
all_hex-append (x ∷ xs) ys h k = ground (arith, all_hex-append xs ys)

-- The guard against a negative count of `strings.Repeat`.
leb_lt : (a b : ℕ) → (ltb a b ≡ false) ↔ (b ≤ a)
leb_lt a b = ground arith

mul_mono : (p a b : ℕ) → a ≤ b → a * p ≤ b * p
mul_mono p a b h = grind arith

set_string-lt :
    (acc : ℕ) (xs : Bytes) → all_hex xs ≡ true → set_string acc xs < (acc + 1) * 16 ^ length xs
unfolding set_string all_hex
set_string-lt acc [] h = omega arith
set_string-lt acc (x ∷ xs) h =
    let (hx, hxs) = &&-eq-true h in
    let d : digit_value x < 16 = digit_value-lt x hx in
    let step : (acc * 16 + digit_value x + 1) * 16 ^ length xs ≤ (acc * 16 + 16) * 16 ^ length xs =
      mul_mono (16 ^ length xs) _ _ (omega arith) in
    rw (pow-suc 16 (length xs))
      (omega (arith, set_string-lt (acc * 16 + digit_value x) xs hxs, step))

set_string-injective :
    (acc acc' : ℕ) (xs ys : Bytes)
    → length xs ≡ length ys
    → all_hex xs ≡ true
    → all_hex ys ≡ true
    → set_string acc xs ≡ set_string acc' ys
    → (acc ≡ acc') × (xs ≡ ys)
unfolding set_string all_hex
set_string-injective acc acc' [] [] l h k e = (e, refl)
set_string-injective acc acc' [] (y ∷ ys) l h k e = absurd (omega arith)
set_string-injective acc acc' (x ∷ xs) [] l h k e = absurd (omega arith)
set_string-injective acc acc' (x ∷ xs) (y ∷ ys) l h k e =
    let (hx, hxs) = &&-eq-true h in
    let (ky, kys) = &&-eq-true k in
    let (front, rest) =
      set_string-injective (acc * 16 + digit_value x) (acc' * 16 + digit_value y) xs ys
        (omega arith) hxs kys e in
    let dx : digit_value x < 16 = digit_value-lt x hx in
    let dy : digit_value y < 16 = digit_value-lt y ky in
    (omega arith, ap₂ ◌∷◌ (digit_value-injective x y hx ky (omega arith)) rest)

text_loop-value : (f n : ℕ) → n < f → set_string 0 (text_loop f n) ≡ n
unfolding text_loop set_string
text_loop-value zero n h = elim h [ ]
text_loop-value (suc f) n h = elim (Bool-cases (ltb n 16)) [
  | inl small ↦ rw (small, digit_value-digit n ((ltb_iff n 16).0 small)) (omega arith)
  | inr large ↦
      rw (large, set_string-append 0 (text_loop f (n / 16)) (digit (n % 16) ∷ []))
        (rw (text_loop-value f (n / 16) (ground arith), digit_value-digit (n % 16) (omega arith))
          (omega arith))
]

text_loop-all_hex : (f n : ℕ) → all_hex (text_loop f n) ≡ true
unfolding text_loop all_hex
text_loop-all_hex zero n = refl
text_loop-all_hex (suc f) n = elim (Bool-cases (ltb n 16)) [
  | inl small ↦ rw (small, digit-is_hex n ((ltb_iff n 16).0 small))
  | inr large ↦ rw large (
      all_hex-append (text_loop f (n / 16)) (digit (n % 16) ∷ []) (text_loop-all_hex f (n / 16))
        (rw (digit-is_hex (n % 16) (omega arith))))
]

length-text_loop-le : (k f n : ℕ) → n < f → n < 16 ^ suc k → length (text_loop f n) ≤ suc k
unfolding text_loop
length-text_loop-le k zero n h b = elim h [ ]
length-text_loop-le zero (suc f) n h b = ground arith
length-text_loop-le (suc k) (suc f) n h b = elim (Bool-cases (ltb n 16)) [
  | inl small ↦ rw small (omega arith)
  | inr large ↦
      rw (large, length-append (text_loop f (n / 16)) (digit (n % 16) ∷ []))
        (omega (
          arith,
          length-text_loop-le k f (n / 16) (ground arith) (omega (arith, pow-suc 16 (suc k))),
        ))
]

-- Every identifier that `ValidateID` admits is the number of exactly one place on the ring.
pub id_to_big-of-valid :
    (id : Bytes)
    → validate_id id ≡ true
    → (id_to_big id ≡ some (set_string 0 id)) × (set_string 0 id < ring_size)
unfolding id_to_big validate_id
id_to_big-of-valid id h =
    let (len, hex) = &&-eq-true h in
    let e : length id ≡ 40 = (==_iff _ _).0 len in
    (rw h, rw (ap (λ k. 1 * 16 ^ k) e) at (set_string-lt 0 id hex))

pub id_to_big-lt : (id : Bytes) (n : ℕ) → id_to_big id ≡ some n → n < ring_size
unfolding id_to_big
id_to_big-lt id n h = ground (arith, id_to_big-of-valid id)

pub valid-of-id_to_big : (id : Bytes) (n : ℕ) → id_to_big id ≡ some n → validate_id id ≡ true
unfolding id_to_big
valid-of-id_to_big id n h = ground arith

replicate_zeros :
    (k : ℕ)
    → (length (replicate k b'0') ≡ k)
      × (all_hex (replicate k b'0') ≡ true)
      × (set_string 0 (replicate k b'0') ≡ 0)
unfolding replicate all_hex set_string is_hex digit_value
replicate_zeros zero = (refl, refl, refl)
replicate_zeros (suc k) = let (l, h, v) = replicate_zeros k in (ap suc l, h, v)

to_lower-all_hex : (xs : Bytes) → all_hex xs ≡ true → map to_lower xs ≡ xs
unfolding all_hex
to_lower-all_hex [] h = refl
to_lower-all_hex (x ∷ xs) h =
    let (hx, hxs) = &&-eq-true h in ap₂ ◌∷◌ (to_lower-hex x hx) (to_lower-all_hex xs hxs)

-- A number below the ring's size is written without a panic, as an identifier that reads back.
pub big_to_id-round_trip :
    (n : ℕ)
    → n < ring_size
    → (id : Bytes) × (big_to_id n ≡ ok id) × (validate_id id ≡ true) × (id_to_big id ≡ some n)
unfolding big_to_id validate_id id_to_big
big_to_id-round_trip n h =
    let zeros = replicate_zeros (40 - length (text n)) in
    let short : length (text n) ≤ 40 =
      length-text_loop-le 39 (suc n) n (omega arith) (omega arith) in
    let id = replicate (40 - length (text n)) b'0' ++ text n in
    let hex : all_hex id ≡ true =
      all_hex-append (replicate (40 - length (text n)) b'0') (text n) zeros.1
        (text_loop-all_hex (suc n) n) in
    let value : set_string 0 id ≡ n =
      rw (set_string-append 0 (replicate (40 - length (text n)) b'0') (text n), zeros.2)
        (text_loop-value (suc n) n (omega arith)) in
    let len : length id ≡ 40 =
      omega (arith, length-append (replicate (40 - length (text n)) b'0') (text n), zeros.0) in
    (
      id,
      rw ((leb_lt _ _).1 short, to_lower-all_hex id hex),
      rw ((==_iff _ _).1 len, hex),
      rw ((==_iff _ _).1 len, hex, value),
    )

pub id_to_big-injective :
    (a b : Bytes) (n : ℕ) → id_to_big a ≡ some n → id_to_big b ≡ some n → a ≡ b
unfolding id_to_big validate_id
id_to_big-injective a b n h k =
    let (la, ha) = &&-eq-true (valid-of-id_to_big a n h) in
    let (lb, hb) = &&-eq-true (valid-of-id_to_big b n k) in
    let lengths : length a ≡ length b = (==_iff _ _).0 la ∙ sym ((==_iff _ _).0 lb) in
    let va : set_string 0 a ≡ n = ground (arith, valid-of-id_to_big a n h) in
    let vb : set_string 0 b ≡ n = ground (arith, valid-of-id_to_big b n k) in
    (set_string-injective 0 0 a b lengths ha hb (va ∙ sym vb)).1

-- Reading an identifier and writing the number gives the identifier again.
pub id_to_big-round_trip : (id : Bytes) (n : ℕ) → id_to_big id ≡ some n → big_to_id n ≡ ok id
id_to_big-round_trip id n h =
    let (id', written, valid, back) = big_to_id-round_trip n (id_to_big-lt id n h) in
    written ∙ ap ok (id_to_big-injective id' id n back h)
