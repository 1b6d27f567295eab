-- ===== src/SuccessorList/Order.antt =====
-- What it means that the audit of a successor list finds nothing.
use chord_dht.Base.{
  ℕ, ◌+◌, ◌≤◌, ◌<◌, ◌≡◌, ◌≢◌, ◌↔◌, refl, sym, ap, ◌∙◌, true, false, List, [], ◌∷◌, ◌++◌, Bytes,
  same, same_iff, is_empty, has, arith, All, Bool-cases, inl, inr, Option, none, some,
}
use chord_dht.Id.{ring_size, id_to_big, validate_id, in_range_open_open}
use chord_dht.Id.Arc.{arc}
use chord_dht.Id.Digits.{id_to_big-injective, id_to_big-lt}
use chord_dht.Id.Fingers.{in_range_open_open_iff}
use native.Mathlib.Nat.{le_trans}
use chord_dht.Types.{NodeInfo}
use chord_dht.SuccessorList.{
  Violation, entry_violations, order_violations, head_violations, successor_list_violations,
}

-- The entries lie on the ring, each further clockwise from `s` than the one before it, and all
-- further than `low`.
abbrev pub Climbs : ℕ → ℕ → List NodeInfo → Type 0
Climbs s low [] = Unit
Climbs s low (n ∷ l) =
    (p : ℕ) × (id_to_big n.node_id ≡ some p) × (low < arc s p) × Climbs s (arc s p) l

-- Two places before `s` on the walk from `s`.
arc_order :
    (s a b : ℕ)
    → s < ring_size
    → a < ring_size
    → b < ring_size
    → a ≢ s
    → b ≢ s
    → (arc a b < arc a s) ↔ (arc s a < arc s b)
arc_order s a b hs ha hb na nb = ground arith

abbrev pub Placed : List NodeInfo → Type 0
Placed l = All (λ n. (p : ℕ) × (id_to_big n.node_id ≡ some p)) l

abbrev pub Absent : Bytes → List NodeInfo → Type 0
Absent id l = All (λ n. n.node_id ≢ id) l

arc-pos : (s a : ℕ) → s < ring_size → 0 < arc s a
arc-pos s a h = ground arith

pub not_empty_of_place : (id : Bytes) (p : ℕ) → id_to_big id ≡ some p → is_empty id ≡ false
unfolding id_to_big validate_id
not_empty_of_place [] p h = ground arith
not_empty_of_place (c ∷ id) p h = refl

-- The identifier of the first entry.
abbrev pub first_id : List NodeInfo → Option Bytes
first_id [] = none
first_id (n ∷ l) = some n.node_id

module _ (self_id : Bytes) {s : ℕ} (hs : id_to_big self_id ≡ some s) where
  place-ne : {id : Bytes} {p : ℕ} → id_to_big id ≡ some p → id ≢ self_id → p ≢ s
  place-ne {id} {p} h ne e = ne (id_to_big-injective id self_id p h (hs ∙ ap some (sym e)))

  ordered_pair :
      (a b : NodeInfo) {p q : ℕ}
      → id_to_big a.node_id ≡ some p
      → id_to_big b.node_id ≡ some q
      → a.node_id ≢ self_id
      → b.node_id ≢ self_id
      → (in_range_open_open b.node_id a.node_id self_id ≡ true) ↔ (arc s p < arc s q)
  ordered_pair a b {p} {q} ha hb na nb =
      let inside = in_range_open_open_iff b.node_id a.node_id self_id hb ha hs in
      let order =
        arc_order s p q (id_to_big-lt self_id s hs) (id_to_big-lt a.node_id p ha)
          (id_to_big-lt b.node_id q hb) (place-ne ha na) (place-ne hb nb) in
      (λ h. order.0 (inside.0 h), λ h. inside.1 (order.1 h))

  -- From the loop over neighbours to the climb, from an entry on.
  Climbs-of_order :
      (i low : ℕ) (a : NodeInfo) {p : ℕ} (l : List NodeInfo)
      → id_to_big a.node_id ≡ some p
      → Placed l
      → Absent self_id (a ∷ l)
      → order_violations i self_id (a ∷ l) ≡ []
      → Climbs s (arc s p) l
  unfolding order_violations
  Climbs-of_order i low a [] ha placed absent h = tt
  Climbs-of_order i low a {p} (b ∷ l) ha ((q, hb), placed) (na, (nb, absent)) h =
      let step = ordered_pair a b ha hb na nb in
      let inside : in_range_open_open b.node_id a.node_id self_id ≡ true = ground arith in
      (q, hb, step.0 inside, Climbs-of_order (i + 1) low b l hb placed (nb, absent) (ground arith))

  order_of_Climbs :
      (i : ℕ) (a : NodeInfo) {p : ℕ} (l : List NodeInfo)
      → id_to_big a.node_id ≡ some p
      → Absent self_id (a ∷ l)
      → Climbs s (arc s p) l
      → order_violations i self_id (a ∷ l) ≡ []
  unfolding order_violations
  order_of_Climbs i a [] ha absent h = refl
  order_of_Climbs i a (b ∷ l) ha (na, (nb, absent)) (q, hb, up, rest) =
      let step = ordered_pair a b ha hb na nb in
      ground (arith, step.1 up, order_of_Climbs (i + 1) b l hb (nb, absent) rest)

-- What was seen lies no further than `low`.
abbrev Below : ℕ → ℕ → List Bytes → Type 0
Below s low seen = All (λ k. (p : ℕ) × (id_to_big k ≡ some p) × (arc s p ≤ low)) seen

Below-le : (s low up : ℕ) (seen : List Bytes) → low ≤ up → Below s low seen → Below s up seen
Below-le s low up [] h b = tt
Below-le s low up (k ∷ seen) h ((p, e, le), b) = ((p, e, le_trans le h), Below-le s low up seen h b)

not_seen :
    (s low : ℕ) (id : Bytes) {p : ℕ} (seen : List Bytes)
    → id_to_big id ≡ some p
    → low < arc s p
    → Below s low seen
    → has id seen ≡ false
not_seen s low id [] h lt b = refl
not_seen s low id {p} (k ∷ seen) h lt ((q, e, le), b) = elim (Bool-cases (same id k)) [
  | inl eq ↦
      let both : some q ≡ some p = sym e ∙ ap id_to_big (sym ((same_iff id k).0 eq)) ∙ h in
      absurd (ground (arith, both))
  | inr ne ↦ rw ne (not_seen s low id seen h lt b)
]

entries_of_Climbs :
    (s i low : ℕ) (seen : List Bytes) (l : List NodeInfo)
    → Below s low seen
    → Climbs s low l
    → entry_violations i seen l ≡ []
unfolding entry_violations
entries_of_Climbs s i low seen [] b h = refl
entries_of_Climbs s i low seen (n ∷ l) b (p, e, lt, rest) =
    let new = not_seen s low n.node_id seen e lt b in
    let filled : is_empty n.node_id ≡ false = not_empty_of_place n.node_id p e in
    let rest_ok =
      entries_of_Climbs s (i + 1) (arc s p) (n.node_id ∷ seen) l
        ((p, e, omega arith), Below-le s low (arc s p) seen (omega arith) b) rest in
    rw (filled, new) rest_ok

append-eq-nil : (xs ys : List Violation) → xs ++ ys ≡ [] → (xs ≡ []) × (ys ≡ [])
append-eq-nil [] ys h = (refl, h)
append-eq-nil (x ∷ xs) ys h = absurd (ground arith)

-- For a node whose identifier is valid, and a list of valid identifiers other than its own, the
-- audit reports no violation exactly when the list is not empty, starts with the successor, and
-- goes once clockwise round the ring from the node, never back and never twice to one place.
pub successor_list_violations_iff :
    (self_id successor_id : Bytes) {s : ℕ} (l : List NodeInfo)
    → id_to_big self_id ≡ some s
    → Placed l
    → Absent self_id l
    → is_empty successor_id ≡ false
    → (successor_list_violations self_id successor_id l ≡ [])
      ↔ ((first_id l ≡ some successor_id) × Climbs s 0 l)
unfolding successor_list_violations
successor_list_violations_iff self_id successor_id {s} [] hs placed absent filled =
    (λ h. absurd (ground arith), λ h. absurd (ground arith))
successor_list_violations_iff self_id successor_id {s} (a ∷ l) hs ((p, ha), placed) absent filled =
    (
      λ h.
          let (front, order_ok) =
            append-eq-nil (head_violations successor_id a ++ entry_violations 0 [] (a ∷ l))
              (order_violations 0 self_id (a ∷ l)) h in
          let (head_ok, _) =
            append-eq-nil (head_violations successor_id a) (entry_violations 0 [] (a ∷ l)) front in
          (
            ground arith,
            (
              p,
              ha,
              arc-pos s p (id_to_big-lt self_id s hs),
              Climbs-of_order self_id hs 0 0 a l ha placed absent order_ok,
            ),
          ),
      λ (head_ok, climb).
          let (q, hq, lt, rest) = climb in
          let entries = entries_of_Climbs s 0 0 [] (a ∷ l) tt climb in
          let order = order_of_Climbs self_id hs 0 a l hq absent rest in
          rw (entries, order) (ground arith),
    )
