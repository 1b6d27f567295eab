-- ===== src/Auth/Int64.antt =====
-- Go's `int64`, as the number below 2 ^ 64 that its bits are: two's complement, with wrap-around.
-- `time.Duration` and Unix times are such numbers. The current time is a plain number of
-- nanoseconds since 1970.
use chord_dht.Base.{ℕ, ◌+◌, ◌-◌, ◌*◌, ◌/◌, ◌%◌, Bool, ltb, leb, if◌then◌else◌}

abbrev pub half : ℕ
half = 9_223_372_036_854_775_808

abbrev pub whole : ℕ
whole = 18_446_744_073_709_551_616

-- Nanoseconds in a second
abbrev pub second : ℕ
second = 1_000_000_000

abbrev pub is_negative : ℕ → Bool
is_negative a = leb half a

-- The order of the signed values
unfoldable pub less : ℕ → ℕ → Bool
less a b = ltb ((a + half) % whole) ((b + half) % whole)

unfoldable pub minus : ℕ → ℕ → ℕ
minus a b = (a + (whole - b)) % whole

unfoldable pub negate : ℕ → ℕ
negate a = (whole - a) % whole

unfoldable pub times : ℕ → ℕ → ℕ
times a b = a * b % whole

-- `now.Unix()`
abbrev pub unix : ℕ → ℕ
unix now = now / second

-- An instant as nanoseconds since 2 ^ 63 seconds before the year 1, from where `time.Time` counts its
-- seconds as an `int64`: `time.Unix(s, 0)`, whose sum wraps, and the current time.
abbrev pub instant : ℕ → ℕ
instant s = (s + 62_135_596_800 + half) % whole * second

abbrev pub moment : ℕ → ℕ
moment now = now + (62_135_596_800 + half) * second

-- `now.Before(time.Unix(s, 0).Add(-tolerance))`, the tolerance a `time.Duration`. `Add` saturates, which
-- no comparison with the current time tells from a sum without bounds.
unfoldable pub before_unix : ℕ → ℕ → ℕ → Bool
before_unix now s tolerance =
    let shift = negate tolerance in
    if is_negative shift
    then ltb (moment now + (whole - shift)) (instant s)
    else ltb (moment now) (instant s + shift)

-- `now.After(time.Unix(s, 0).Add(tolerance))`
unfoldable pub after_unix : ℕ → ℕ → ℕ → Bool
after_unix now s tolerance =
    if is_negative tolerance
    then ltb (instant s) (moment now + (whole - tolerance))
    else ltb (instant s + tolerance) (moment now)
