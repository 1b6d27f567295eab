-- ===== src/Creation/Outcomes.antt =====
-- Cases of a result that may be an error or a panic.
use chord_dht.Base.{arith, ◌≡◌, refl, ap, Bool, true, false}
use chord_dht.Id.{Outcome, ok, err, panic}

pub outcome_cases {ℓ κ} :
    {A : Type 0} {B : Type ℓ} (P : B → Type κ) (o : Outcome A) {e p : B} {f : A → B}
    → P e
    → P p
    → ((a : A) → o ≡ ok a → P (f a))
    → P (elim o [ err ↦ e | panic ↦ p | ok a ↦ f a ])
outcome_cases P err h k l = h
outcome_cases P panic h k l = k
outcome_cases P (ok a) h k l = l a refl

abbrev pub is_ok : {A : Type 0} → Outcome A → Bool
is_ok (ok a) = true
is_ok err = false
is_ok panic = false

abbrev pub value : {A : Type 0} → A → Outcome A → A
value other (ok a) = a
value other err = other
value other panic = other

pub ok_inj : {A : Type 0} {a b : A} → ok a ≡ ok b → a ≡ b
ok_inj {A} {a} {b} e = ap (value a) e

pub ok_value : {A : Type 0} (other : A) (o : Outcome A) → is_ok o ≡ true → o ≡ ok (value other o)
ok_value {A} other (ok a) h = refl
ok_value {A} other err h = ground (arith, h)
ok_value {A} other panic h = ground (arith, h)
