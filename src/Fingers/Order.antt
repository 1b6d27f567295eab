-- ===== src/Fingers/Order.antt =====
-- Every finger has its turn.
use chord_dht.Base.{
  ℕ, zero, suc, ◌+◌, ◌-◌, ◌%◌, ◌≤◌, ◌<◌, ◌≡◌, refl, ap, ◌∙◌, Bool, true, ◌&&◌, ◌||◌, List, [], ◌∷◌,
  ◌++◌, any, ltb, ◌==◌, arith, if◌then◌else◌, if_cases, leb,
}
use chord_dht.Fingers.{
  prioritized, remaining_from, exponential_jump_index, jump_indices, next_k_finger_indices,
}
use chord_dht.Id.{m}
use chord_dht.Node.{Node}

-- The place of a number in a list.
unfoldable place : ℕ → List ℕ → ℕ
place i [] = 0
place i (x ∷ l) = let rest = suc (place i l) in if x == i then 0 else rest

unfoldable turn_of : ℕ → ℕ
unfolding place remaining_from
turn_of i = place i (prioritized ++ remaining_from 0 160)

-- A test that one function undoes another below a bound.
module _ (turn jump : ℕ → ℕ) where
  unfoldable undone : ℕ → Bool
  undone zero = true
  undone (suc i) = (ltb (turn i) 160 && jump (turn i) == i) && undone i

  undone_lem : (n i : ℕ) → undone n ≡ true → i < n → (turn i < 160) × (jump (turn i) ≡ i)
  unfolding undone
  undone_lem zero i h lt = ground arith
  undone_lem (suc n) i h lt = ground (arith, undone_lem n i)

all_turns : undone turn_of exponential_jump_index 160 ≡ true
unfolding undone turn_of exponential_jump_index
all_turns = refl

later : (start j : ℕ) → (suc start + j) ≡ (start + suc j)
later start j = omega arith

nothing : (start : ℕ) → start ≡ (start + 0)
nothing start = omega arith

or-true : (a b : Bool) → b ≡ true → (a || b) ≡ true
or-true a b h = ground arith

here : (a b : ℕ) (c : Bool) → a ≡ b → ((a == b) || c) ≡ true
here a b c h = ground arith

jump_indices-any :
    (start count j i : ℕ)
    → j < count
    → exponential_jump_index ((start + j) % 160) ≡ i
    → any (λ x. x == i) (jump_indices start count) ≡ true
unfolding jump_indices
jump_indices-any start zero j i h e = ground arith
jump_indices-any start (suc count) zero i h e =
    here (exponential_jump_index (start % 160)) i
      (any (λ x. x == i) (jump_indices (suc start) count))
      (ap (λ x. exponential_jump_index (x % 160)) (nothing start) ∙ e)
jump_indices-any start (suc count) (suc j) i h e =
    or-true (exponential_jump_index (start % 160) == i)
      (any (λ x. x == i) (jump_indices (suc start) count))
      (jump_indices-any (suc start) count j i (ground arith)
        (ap (λ x. exponential_jump_index (x % 160)) (later start j) ∙ e))

back-to : (start t : ℕ) → start < 160 → t < 160 → (start + (t + (160 - start)) % 160) % 160 ≡ t
back-to start t hs ht = omega arith

-- A round of 160 positions or more repairs every finger, wherever the rounds before it stopped.
pub next_k_finger_indices-all :
    (k i : ℕ) (n : Node)
    → n.next_finger_index < m
    → m ≤ k
    → i < m
    → any (λ x. x == i) (next_k_finger_indices k n).0 ≡ true
unfolding next_k_finger_indices
next_k_finger_indices-all k i n hn hk hi =
    let (low, right) = undone_lem turn_of exponential_jump_index 160 i all_turns hi in
    let start = n.next_finger_index in
    let j = (turn_of i + (160 - start)) % 160 in
    if_cases {A = List ℕ × Node} (λ a. any (λ x. x == i) a.0 ≡ true) (leb k 0)
      (λ none. ground arith)
      (λ _.
        jump_indices-any start k j i (ground arith)
          (ap exponential_jump_index (back-to start (turn_of i) hn low) ∙ right))
