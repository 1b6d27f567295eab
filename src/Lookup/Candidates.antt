-- ===== src/Lookup/Candidates.antt =====
-- The candidates for the next hop lie strictly between the node and the target, and the choice
-- among them, whatever the scores, brings the lookup closer.
use chord_dht.Base.{
  ℕ, ◌≡◌, ◌⊎◌, inl, inr, refl, true, false, List, [], ◌∷◌, ◌++◌, Bytes, is_empty, arith, All,
  reverse, if_cases, option_cases,
}
use chord_dht.Id.{id_to_big, in_range_open_open}
use chord_dht.Types.{NodeInfo, FingerEntry}
use chord_dht.Lookup.{
  Scoring, gather, trusted, nodes_of, gather_fingers, collect_candidates, score, best_of,
  choose_best, closest_preceding_node,
}

-- A candidate for the next hop towards `target`.
abbrev pub Between : Bytes → Bytes → NodeInfo → Type 0
Between self_id target c =
    (is_empty c.node_id ≡ false) × (in_range_open_open c.node_id self_id target ≡ true)

gather-Between :
    (self_id target : Bytes) (seen : List Bytes) (l : List NodeInfo)
    → All (Between self_id target) (gather self_id target seen l).0
unfolding gather
gather-Between self_id target seen [] = tt
gather-Between self_id target seen (n ∷ l) = ground (
  arith,
  gather-Between self_id target seen l,
  gather-Between self_id target (n.node_id ∷ seen) l,
)

gather_fingers-Between :
    (self_id target : Bytes) (fingers : List FingerEntry)
    → All (Between self_id target) (gather_fingers self_id target fingers).0
unfolding gather_fingers
gather_fingers-Between self_id target fingers =
    pick (gather self_id target (self_id ∷ []) (trusted (reverse fingers)))
      (gather-Between self_id target (self_id ∷ []) (trusted (reverse fingers)))
  where
    pick :
        (sure : List NodeInfo × List Bytes)
        → All (Between self_id target) sure.0
        → All
            (Between self_id target)
            (elim sure.0 as (λ x. List NodeInfo × List Bytes) [
              | [] ↦ gather self_id target sure.1 (nodes_of (reverse fingers))
              | c ∷ l ↦ sure
            ]).0
    pick ([], seen) h = gather-Between self_id target seen (nodes_of (reverse fingers))
    pick (c ∷ l, seen) h = h

All-append : (P : NodeInfo → Type 0) (l r : List NodeInfo) → All P l → All P r → All P (l ++ r)
All-append P [] r h k = k
All-append P (n ∷ l) r h k = (h.0, All-append P l r h.1 k)

-- Every candidate has an identifier that lies strictly between the node and the target.
pub collect_candidates-Between :
    (self : NodeInfo) (target : Bytes) (fingers : List FingerEntry) (successors : List NodeInfo)
    → All (Between self.node_id target) (collect_candidates self target fingers successors)
unfolding collect_candidates
collect_candidates-Between self target fingers successors =
    let first = gather_fingers self.node_id target fingers in
    All-append (Between self.node_id target) first.0
      (gather self.node_id target first.1 (reverse successors)).0
      (gather_fingers-Between self.node_id target fingers)
      (gather-Between self.node_id target first.1 (reverse successors))

module _ {F : Type 0} (sc : Scoring F) (P : NodeInfo → Type 0) where
  best_of-All :
      (region : Bytes) (target : ℕ) (best : NodeInfo) (best_score : F) (l : List NodeInfo)
      → P best
      → All P l
      → P (best_of sc region target best best_score l)
  unfolding best_of
  best_of-All region target best best_score [] h a = h
  best_of-All region target best best_score (c ∷ l) h (hc, a) =
      option_cases {A = NodeInfo} P (id_to_big c.node_id)
        (λ bad. best_of-All region target best best_score l h a)
        (λ place e.
          if_cases {A = NodeInfo} P (sc.above (score sc region target place c) best_score)
            (λ better. best_of-All region target c (score sc region target place c) l hc a)
            (λ worse. best_of-All region target best best_score l h a))

  choose_best-All :
      (region target : Bytes) (c : NodeInfo) (l : List NodeInfo)
      → All P (c ∷ l)
      → P (choose_best sc region target c l)
  unfolding choose_best
  choose_best-All region target c [] a = a.0
  choose_best-All region target c (d ∷ l) a =
      option_cases {A = NodeInfo} P (id_to_big target) (λ bad. a.0)
        (λ t e. best_of-All region t c sc.minus_one (c ∷ d ∷ l) a.0 a)

-- Whatever the floats do, the next hop is the node itself, which then knows of no candidate, or a
-- node that lies strictly between it and the target.
pub closest_preceding_node-Between :
    {F : Type 0} (sc : Scoring F) (region : Bytes) (self : NodeInfo) (target : Bytes)
    (fingers : List FingerEntry) (successors : List NodeInfo)
    → ((collect_candidates self target fingers successors ≡ [])
        × (closest_preceding_node sc region self target fingers successors ≡ self))
      ⊎ Between self.node_id target
          (closest_preceding_node sc region self target fingers successors)
unfolding closest_preceding_node
closest_preceding_node-Between sc region self target fingers successors =
    pick (collect_candidates self target fingers successors)
      (collect_candidates-Between self target fingers successors)
  where
    pick :
        (l : List NodeInfo)
        → All (Between self.node_id target) l
        → ((l ≡ [])
            × ((elim l as (λ x. NodeInfo) [ [] ↦ self | c ∷ r ↦ choose_best sc region target c r ])
                ≡ self))
          ⊎ Between self.node_id target
              (elim l as (λ x. NodeInfo) [ [] ↦ self | c ∷ r ↦ choose_best sc region target c r ])
    pick [] a = inl (refl, refl)
    pick (c ∷ l) a = inr (choose_best-All sc (Between self.node_id target) region target c l a)
