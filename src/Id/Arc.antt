-- ===== src/Id/Arc.antt =====
-- The interval tests, against walks round the ring.
use chord_dht.Base.{ℕ, ◌+◌, ◌-◌, ◌≤◌, ◌<◌, ◌≡◌, ◌↔◌, true, ltb, if◌then◌else◌, arith}
use chord_dht.Id.{ring_size, open_closed, open_open}

-- How many steps, from 1 to `ring_size`, lead clockwise from `a` to the next meeting with `x`.
abbrev pub arc : ℕ → ℕ → ℕ
arc a x = if ltb a x then x - a else ring_size - a + x

pub open_open_iff :
    (x a b : ℕ)
    → x < ring_size
    → a < ring_size
    → b < ring_size
    → (open_open x a b ≡ true) ↔ (arc a x < arc a b)
unfolding open_open
open_open_iff x a b hx ha hb = ground arith

pub open_closed_iff :
    (x a b : ℕ)
    → x < ring_size
    → a < ring_size
    → b < ring_size
    → (open_closed x a b ≡ true) ↔ (arc a x ≤ arc a b)
unfolding open_closed
open_closed_iff x a b hx ha hb = ground arith
