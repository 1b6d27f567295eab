-- ===== src/Auth/Verifier/Window.antt =====
-- The time window of a request, whose distance is a wrapping product of nanoseconds.
use chord_dht.Base.{ℕ, ◌+◌, ◌*◌, ◌%◌, ◌≤◌, ◌<◌, ◌≡◌, ◌↔◌, ◌⊎◌, true, false, arith}
use chord_dht.Auth.Int64.{half, whole, second, less, minus, negate, times}
use chord_dht.Auth.Verifier.{outside_window}

-- For a tolerance and times that are not negative, a time within 292 years of now, before or after, is
-- outside the window exactly if it is further away than the tolerance.
pub outside_window_iff :
    (tolerance now timestamp : ℕ)
    → tolerance < half
    → now < half
    → timestamp < half
    → now ≤ timestamp + 9_223_372_036
    → timestamp ≤ now + 9_223_372_036
    → (outside_window tolerance now timestamp ≡ true) ↔ (
        (tolerance + timestamp * second < now * second)
        ⊎ (tolerance + now * second < timestamp * second))
unfolding outside_window less minus negate times
outside_window_iff tolerance now timestamp ht hn hs near far = ground arith

-- The product wraps: for a tolerance and a present that are not negative, the timestamps 2 ^ 55 seconds
-- before and after now, as an `int64`, are inside the window, whatever the tolerance is.
pub outside_window-wraps :
    (tolerance now : ℕ)
    → tolerance < half
    → now < half
    → (outside_window tolerance now (minus now 36_028_797_018_963_968) ≡ false)
      × (outside_window tolerance now ((now + 36_028_797_018_963_968) % whole) ≡ false)
unfolding outside_window less minus negate times
outside_window-wraps tolerance now ht hn = (ground arith, ground arith)
