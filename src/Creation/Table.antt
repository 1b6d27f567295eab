-- ===== src/Creation/Table.antt =====
-- The finger table of a new node.
use mathlib.Core.Path.{subst}
use chord_dht.Base.{
  ℕ, zero, suc, ◌+◌, ◌%◌, ◌^◌, ◌≤◌, ◌<◌, ◌≡◌, refl, sym, ap, ◌∙◌, none, some, List, [], ◌∷◌, Bytes,
  leb, arith, if_cases, option_cases,
}
use chord_dht.Creation.{new_node, new_fingers, blank, self_info, with_defaults}
use chord_dht.Creation.Outcomes.{outcome_cases, is_ok, ok_inj}
use chord_dht.Fingers.Table.{IsTableFrom, IsTable}
use chord_dht.Id.{Outcome, ok, m, ring_size, id_to_big, finger_start}
use chord_dht.Id.Fingers.{finger_start_place}
use chord_dht.Node.{Node, Options}
use chord_dht.Proofs.{Ed25519}
use chord_dht.Types.{NodeInfo, FingerEntry, initializing}
use chord_dht.Uri.{Platform}

new_fingers-IsTable :
    (self : NodeInfo) (i count : ℕ) (l : List FingerEntry)
    → (i + count) ≡ m
    → new_fingers self i count ≡ ok l
    → IsTableFrom self.node_id i l
unfolding new_fingers
new_fingers-IsTable self i zero l e =
    λ h. subst (λ x. IsTableFrom self.node_id i x) (ok_inj h) (ground (arith, e))
new_fingers-IsTable self i (suc count) l e =
    outcome_cases {B = Outcome (List FingerEntry)} (λ q. q ≡ ok l → IsTableFrom self.node_id i l)
      (finger_start self.node_id i) (λ h. ground (arith, ap is_ok h))
      (λ h. ground (arith, ap is_ok h))
      (λ start starts.
        outcome_cases {B = Outcome (List FingerEntry)}
          (λ q. q ≡ ok l → IsTableFrom self.node_id i l) (new_fingers self (suc i) count)
          (λ h. ground (arith, ap is_ok h)) (λ h. ground (arith, ap is_ok h))
          (λ rest made h.
            subst (λ x. IsTableFrom self.node_id i x) (ok_inj h)
              (
                record { indexed = refl; starts = starts; honest = λ f. ground (arith, f) },
                new_fingers-IsTable self (suc i) count rest (ground (arith, e)) made,
              )))

blank-IsTable :
    (self : NodeInfo) (fingers : List FingerEntry) (o : Options) (region : Bytes) (now : ℕ)
    → new_fingers self 0 m ≡ ok fingers
    → IsTable (blank self fingers o region now)
unfolding blank
blank-IsTable self fingers o region now made = new_fingers-IsTable self 0 160 fingers refl made

-- A start that was computed is at its place on the ring.
finger_start-placed :
    (id start : Bytes) (i place : ℕ)
    → id_to_big id ≡ some place
    → i < m
    → finger_start id i ≡ ok start
    → id_to_big start ≡ some ((place + 2 ^ i) % ring_size)
finger_start-placed id start i place h lt made =
    let (written, ok_written, valid, back) = finger_start_place id place i h lt in
    ap id_to_big (ok_inj (sym made ∙ ok_written)) ∙ back

-- Fingers from an index on, each with its start 2 ^ index places on from a place.
abbrev pub IsPlacedFrom : ℕ → ℕ → List FingerEntry → Type 0
IsPlacedFrom place i [] = i ≡ m
IsPlacedFrom place i (f ∷ l) =
    (f.index ≡ i)
    × (id_to_big f.start ≡ some ((place + 2 ^ i) % ring_size))
    × IsPlacedFrom place (suc i) l

below_m : (id : Bytes) (i : ℕ) (l : List FingerEntry) → IsTableFrom id i l → i ≤ m
below_m id i [] h = ground (arith, h)
below_m id i (f ∷ l) (_, h) = ground (arith, below_m id (suc i) l h)

IsPlacedFrom-of-IsTableFrom :
    (id : Bytes) (place i : ℕ) (l : List FingerEntry)
    → id_to_big id ≡ some place
    → IsTableFrom id i l
    → IsPlacedFrom place i l
IsPlacedFrom-of-IsTableFrom id place i [] h t = t
IsPlacedFrom-of-IsTableFrom id place i (f ∷ l) h (t, ts) = (
  t.indexed,
  finger_start-placed id f.start i place h (omega (arith, below_m id (suc i) l ts)) t.starts,
  IsPlacedFrom-of-IsTableFrom id place (suc i) l h ts,
)

-- The identifier of a table that is not empty has a place.
place_of_start :
    (id : Bytes) (i : ℕ) (start : Bytes)
    → finger_start id i ≡ ok start
    → (place : ℕ) × (id_to_big id ≡ some place)
unfolding finger_start
place_of_start id i start =
    let G = (place : ℕ) × (id_to_big id ≡ some place) in
    if_cases {A = Outcome Bytes} (λ q. q ≡ ok start → G) (leb m i)
      (λ _ e. ground (arith, ap is_ok e))
      (λ _.
        option_cases {A = Outcome Bytes} (λ q. q ≡ ok start → G) (id_to_big id)
          (λ _ e. ground (arith, ap is_ok e)) (λ place found e. (place, found)))

place_of_table :
    (id : Bytes) (l : List FingerEntry)
    → IsTableFrom id 0 l
    → (place : ℕ) × (id_to_big id ≡ some place)
place_of_table id [] h = ground (arith, h)
place_of_table id (f ∷ l) (h, _) = place_of_start id 0 f.start h.starts

new_node_lem :
    (os : Platform) (ed : Ed25519) (uri : Bytes) (o : Options) (region : Bytes) (now : ℕ) (n : Node)
    → new_node os ed uri o region now ≡ ok n
    → IsTable n
      × (self : NodeInfo) × (fingers : List FingerEntry) × (blank self fingers
            (with_defaults o)
            region
            now
          ≡ n)
unfolding new_node
new_node_lem os ed uri o region now n =
    let Made : Node → Type 0 = λ q.
      IsTable q
      × (self : NodeInfo) × (fingers : List FingerEntry) × (blank self fingers (with_defaults o)
            region now
          ≡ q) in
    let G = Made n in
    option_cases {A = Outcome Node} (λ q. q ≡ ok n → G) (self_info os ed uri o)
      (λ _ e. ground (arith, ap is_ok e))
      (λ self _.
        outcome_cases {B = Outcome Node} (λ q. q ≡ ok n → G) (new_fingers self 0 m)
          (λ e. ground (arith, ap is_ok e)) (λ e. ground (arith, ap is_ok e))
          (λ fingers made e.
            subst Made (ok_inj e)
              (blank-IsTable self fingers (with_defaults o) region now made, self, fingers, refl)))

-- What a new node is: its identifier has a place, its fingers are placed from there, none of them
-- valid that is not `ok`; it is alone on its ring.
pub record IsNew (n : Node) : Type 0 where
  pub table : IsTable n
  pub place : ℕ
  pub placed_self : id_to_big n.self.node_id ≡ some place
  pub placed : IsPlacedFrom place 0 n.fingers
  pub own_id : n.successor.node_id ≡ n.self.node_id
  pub own_uri : n.successor.uri ≡ n.self.uri
  pub alone : n.successor_list ≡ n.successor ∷ []
  pub unpreceded : n.predecessor ≡ none
  pub begins : n.status ≡ initializing

-- A node that `NewNode` makes has an identifier with a place on the ring, and the fingers 0 to 159,
-- each with its start 2 ^ index places on, modulo the ring, and none marked valid unless it is `ok`;
-- its successor has its own identifier and URI and is all of the successor list; it has no
-- predecessor, and its status is `INITIALIZING`.
pub new_node-IsNew :
    (os : Platform) (ed : Ed25519) (uri : Bytes) (o : Options) (region : Bytes) (now : ℕ) (n : Node)
    → new_node os ed uri o region now ≡ ok n
    → IsNew n
unfolding blank
new_node-IsNew os ed uri o region now n made =
    let (table, self, fingers, built) = new_node_lem os ed uri o region now n made in
    let (place, found) = place_of_table n.self.node_id n.fingers table in
    record {
      table = table;
      place = place;
      placed_self = found;
      placed = IsPlacedFrom-of-IsTableFrom n.self.node_id place 0 n.fingers found table;
      own_id = rw (sym built) refl;
      own_uri = rw (sym built) refl;
      alone = rw (sym built) refl;
      unpreceded = rw (sym built) refl;
      begins = rw (sym built) refl;
    }
