-- ===== src/Fingers.antt =====
-- The order in which the fingers are repaired: `exponentialJumpIndex` and `nextKFingerIndices` of
-- internal/chord/maintenance.go.
pub mod Order
pub mod Repair
pub mod Table
use chord_dht.Base.{
  ℕ, zero, suc, ◌+◌, ◌-◌, ◌%◌, Bool, true, false, not, Option, none, some, List, [], ◌∷◌, length,
  get_elem?, any, ltb, leb, ◌==◌, if◌then◌else◌,
}
use chord_dht.Id.{m}
use chord_dht.Node.{Node}

abbrev pub prioritized : List ℕ
prioritized = 159 ∷ 140 ∷ 120 ∷ 100 ∷ 80 ∷ 60 ∷ 40 ∷ 20 ∷ 10 ∷ 5 ∷ 2 ∷ 1 ∷ []

-- The loop that builds `remaining`, for the last `count` numbers below `DefaultM`.
unfoldable pub remaining_from : ℕ → ℕ → List ℕ
remaining_from i zero = []
remaining_from i (suc count) =
    let rest = remaining_from (suc i) count in
    if any (λ v. v == i) prioritized then rest else i ∷ rest

unfoldable pub exponential_jump_index : ℕ → ℕ
unfolding remaining_from
exponential_jump_index pos =
    let p = if leb m pos then pos % m else pos in
    let other : ℕ = elim (get_elem? (remaining_from 0 m) (p - length prioritized)) [
      | none ↦ p % m
      | some i ↦ i
    ] in
    elim (get_elem? prioritized p) [ some i ↦ i | none ↦ other ]

-- The indices for `count` positions from a start on.
unfoldable pub jump_indices : ℕ → ℕ → List ℕ
jump_indices start zero = []
jump_indices start (suc count) = exponential_jump_index (start % m) ∷ jump_indices (suc start) count

-- A count that is not positive leaves the node as it is.
unfoldable pub next_k_finger_indices : ℕ → Node → List ℕ × Node
unfolding jump_indices
next_k_finger_indices k n = if leb k 0 then ([], n) else (
  jump_indices n.next_finger_index k,
  record n { next_finger_index = (n.next_finger_index + k) % m },
)
