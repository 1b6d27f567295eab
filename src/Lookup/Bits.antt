-- ===== src/Lookup/Bits.antt =====
-- The fuel of the bit length.
use chord_dht.Base.{
  ℕ, zero, suc, ◌*◌, ◌/◌, ◌^◌, ◌≤◌, ◌<◌, ◌≡◌, ◌==◌, ◌⊎◌, inl, inr, refl, ap, ◌∙◌, arith, if_cases,
}
use chord_dht.Lookup.{bit_len_loop}

bit_len_loop_zero : (fuel : ℕ) → bit_len_loop fuel 0 ≡ 0
unfolding bit_len_loop
bit_len_loop_zero zero = refl
bit_len_loop_zero (suc f) = refl

pow_suc : (l : ℕ) → 2 ^ suc l ≡ 2 * 2 ^ l
pow_suc l = omega arith

doubled : (p n : ℕ) → n / 2 < p → n < 2 * p
doubled p n h = omega (arith, h)

doubled_le : (p n : ℕ) → p ≤ 2 * (n / 2) → 2 * p ≤ 2 * n
doubled_le p n h = omega (arith, h)

positive_or_not : (q : ℕ) → (q ≡ 0) ⊎ (0 < q)
positive_or_not zero = inl refl
positive_or_not (suc q) = inr (omega arith)

-- With more fuel than the number, the loop ends with the bit length: the number is below 2 to that
-- power, and a number that is not 0 is not below half of it.
pub bit_len_loop_lem :
    (fuel n : ℕ)
    → n < fuel
    → (n < 2 ^ bit_len_loop fuel n) × (0 < n → 2 ^ bit_len_loop fuel n ≤ 2 * n)
unfolding bit_len_loop
bit_len_loop_lem zero n h = ground arith
bit_len_loop_lem (suc f) n h =
    if_cases {A = ℕ} (λ b. (n < 2 ^ b) × (0 < n → 2 ^ b ≤ 2 * n)) (n == 0) (λ none. ground arith)
      (λ more.
        let q = n / 2 in
        let positive : 0 < n = ground arith in
        let (low, high) = bit_len_loop_lem f q (omega (arith, h, positive)) in
        (
          rw (pow_suc (bit_len_loop f q)) (doubled (2 ^ bit_len_loop f q) n low),
          λ _. elim (positive_or_not q) [
            | inl small ↦
                rw (ap (bit_len_loop f) small ∙ bit_len_loop_zero f) (omega (arith, positive))
            | inr large ↦
                rw (pow_suc (bit_len_loop f q)) (doubled_le (2 ^ bit_len_loop f q) n (high large))
          ],
        ))
