-- ===== src/SuccessorList/Merge.antt =====
-- What the merge of a successor with its list gives.
use chord_dht.Base.{
  ℕ, ◌+◌, ◌-◌, ◌≤◌, ◌<◌, ◌≡◌, ◌≢◌, refl, true, false, List, [], ◌∷◌, Bytes, same, is_empty, has,
  length, arith, All, any, some, inl, inr, ◌⊎◌,
}
use mathlib.Core.List.{head?}
use chord_dht.Node.{Node}
use chord_dht.Types.{NodeInfo, core}
use chord_dht.SuccessorList.{
  size_limit, anchor_limit, count, skipped, counted, merge_loop, merge_successor_list, or_self,
}

-- No identifier twice, none empty, and none among `seen`.
abbrev pub Fresh : List Bytes → List NodeInfo → Type 0
Fresh seen [] = Unit
Fresh seen (n ∷ l) =
    (is_empty n.node_id ≡ false) × (has n.node_id seen ≡ false) × Fresh (n.node_id ∷ seen) l

abbrev pub anchors_of : List NodeInfo → List Bytes
anchors_of [] = []
anchors_of (n ∷ l) = n.anchor_id ∷ anchors_of l

merge_loop-Fresh :
    (per_anchor room : ℕ) (seen anchors : List Bytes) (l : List NodeInfo)
    → Fresh seen (merge_loop per_anchor room seen anchors l)
unfolding merge_loop skipped
merge_loop-Fresh per_anchor room seen anchors [] = tt
merge_loop-Fresh per_anchor room seen anchors (c ∷ l) = ground (
  arith,
  merge_loop-Fresh per_anchor room seen anchors l,
  merge_loop-Fresh per_anchor (room - 1) (c.node_id ∷ seen) (counted c.anchor_id anchors) l,
)

length-merge_loop-le :
    (per_anchor room : ℕ) (seen anchors : List Bytes) (l : List NodeInfo)
    → 0 < room
    → length (merge_loop per_anchor room seen anchors l) ≤ room
unfolding merge_loop
length-merge_loop-le per_anchor room seen anchors [] h = omega arith
length-merge_loop-le per_anchor room seen anchors (c ∷ l) h = ground (
  arith,
  length-merge_loop-le per_anchor room seen anchors l,
  length-merge_loop-le per_anchor (room - 1) (c.node_id ∷ seen) (counted c.anchor_id anchors) l,
)

-- The entries of an anchor, with those taken before, stay within the limit.
count-merge_loop-le :
    (a : Bytes) (per_anchor room : ℕ) (seen anchors : List Bytes) (l : List NodeInfo)
    → is_empty a ≡ false
    → count a anchors ≤ per_anchor
    → count a anchors + count a (anchors_of (merge_loop per_anchor room seen anchors l))
      ≤ per_anchor
unfolding merge_loop skipped
count-merge_loop-le a per_anchor room seen anchors [] ha h = omega arith
count-merge_loop-le a per_anchor room seen anchors (c ∷ l) ha h = ground (
  arith,
  count-merge_loop-le a per_anchor room seen anchors l,
  count-merge_loop-le a per_anchor (room - 1) (c.node_id ∷ seen) (counted c.anchor_id anchors) l,
)

-- The anchor counts of a merged list.
abbrev pub Diverse : ℕ → List NodeInfo → Type 0
Diverse per_anchor l = (a : Bytes) → is_empty a ≡ false → count a (anchors_of l) ≤ per_anchor

pub record IsMerged (n : Node) (successor : NodeInfo) (remote l : List NodeInfo) : Type 0 where
  pub not_empty : 0 < length l
  pub bounded : length l ≤ size_limit n
  pub distinct : (l ≡ core n.self ∷ []) ⊎ Fresh (n.self.node_id ∷ []) l
  pub diverse : Diverse (anchor_limit n) l
  pub offered :
      All
        (λ e. (e ≡ core n.self) ⊎ (any (λ o. same e.node_id o.node_id) (successor ∷ remote) ≡ true))
        l
  pub headed :
      is_empty successor.node_id ≡ false
      → successor.node_id ≢ n.self.node_id
      → head? l ≡ some (core successor)

merge_loop-offered :
    (self : NodeInfo) (all : List NodeInfo) (per_anchor room : ℕ) (seen anchors : List Bytes)
    (l : List NodeInfo)
    → All (λ c. any (λ o. same c.node_id o.node_id) all ≡ true) l
    → All
        (λ e. (e ≡ core self) ⊎ (any (λ o. same e.node_id o.node_id) all ≡ true))
        (merge_loop per_anchor room seen anchors l)
unfolding merge_loop
merge_loop-offered self all per_anchor room seen anchors [] h = tt
merge_loop-offered self all per_anchor room seen anchors (c ∷ l) h = ground (
  arith,
  merge_loop-offered self all per_anchor room seen anchors l h.1,
  merge_loop-offered self all per_anchor (room - 1) (c.node_id ∷ seen) (counted c.anchor_id anchors)
      l h.1,
)

merge_loop-head :
    (per_anchor room : ℕ) (seen : List Bytes) (c : NodeInfo) (l : List NodeInfo)
    → is_empty c.node_id ≡ false
    → has c.node_id seen ≡ false
    → 0 < per_anchor
    → head? (merge_loop per_anchor room seen [] (c ∷ l)) ≡ some (core c)
unfolding merge_loop skipped
merge_loop-head per_anchor room seen c l he hs pos = ground arith

any_append :
    (c : NodeInfo) (o : NodeInfo) (all : List NodeInfo)
    → any (λ x. same c.node_id x.node_id) all ≡ true
    → any (λ x. same c.node_id x.node_id) (o ∷ all) ≡ true
any_append c o all h = ground arith

offered_under :
    (o : NodeInfo) (all l : List NodeInfo)
    → All (λ c. any (λ x. same c.node_id x.node_id) all ≡ true) l
    → All (λ c. any (λ x. same c.node_id x.node_id) (o ∷ all) ≡ true) l
offered_under o all [] h = tt
offered_under o all (c ∷ l) h = (any_append c o all h.0, offered_under o all l h.1)

-- Every entry of a list is among its entries.
offered_self : (l : List NodeInfo) → All (λ c. any (λ o. same c.node_id o.node_id) l ≡ true) l
offered_self [] = tt
offered_self (c ∷ l) = (ground arith, offered_under c l l (offered_self l))

or_self-cases :
    (self : NodeInfo) (l : List NodeInfo)
    → ((l ≡ []) × (or_self self l ≡ core self ∷ [])) ⊎ ((0 < length l) × (or_self self l ≡ l))
or_self-cases self [] = inl (refl, refl)
or_self-cases self (c ∷ l) = inr (omega arith, refl)

-- `mergeSuccessorListLocked` gives a list that is not empty and within the configured size; either
-- it is the node alone, or it has no identifier twice, none that is empty and not the node's own;
-- no anchor has more entries than its share; every entry was offered; and the successor comes first.
pub merge_successor_list-IsMerged :
    (n : Node) (successor : NodeInfo) (remote : List NodeInfo)
    → IsMerged n successor remote (merge_successor_list n successor remote)
unfolding merge_successor_list
merge_successor_list-IsMerged n successor remote = elim (or_self-cases n.self out) [
  | inl (none_left, alone) ↦ rw alone (record {
    not_empty = omega arith;
    bounded = ground arith;
    distinct = inl refl;
    diverse = λ a ha. ground arith;
    offered = (inl refl, tt);
    headed = λ he hs. let e = first he hs in absurd (ground (arith, e, none_left));
  })
  | inr (some_left, kept) ↦ rw kept (record {
    not_empty = some_left;
    bounded = length-merge_loop-le (anchor_limit n) (size_limit n) seen [] offers (ground arith);
    distinct = inr (merge_loop-Fresh (anchor_limit n) (size_limit n) seen [] offers);
    diverse = λ a ha.
        omega (arith, count-merge_loop-le a (anchor_limit n) (size_limit n) seen [] offers ha);
    offered =
        merge_loop-offered n.self (successor ∷ remote) (anchor_limit n) (size_limit n) seen []
          offers (offered_self offers);
    headed = λ he hs. first he hs;
  })
]
  where
    seen : List Bytes
    seen = n.self.node_id ∷ []

    offers : List NodeInfo
    offers = core successor ∷ remote

    out : List NodeInfo
    out = merge_loop (anchor_limit n) (size_limit n) seen [] offers

    first :
        is_empty successor.node_id ≡ false
        → successor.node_id ≢ n.self.node_id
        → head? out ≡ some (core successor)
    first he hs =
        merge_loop-head (anchor_limit n) (size_limit n) seen (core successor) remote he
          (ground arith) (ground arith)
