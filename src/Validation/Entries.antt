-- ===== src/Validation/Entries.antt =====
-- The entries that a validation keeps: within the limit, distinct, and every one heard from.
use chord_dht.Base.{
  ℕ, ◌-◌, ◌≤◌, ◌<◌, ◌≡◌, ◌⊎◌, inl, inr, refl, ◌∙◌, Bool, true, false, List, [], ◌∷◌, ◌++◌, Bytes,
  is_empty, has, ◌==◌, length, length-append, arith, All,
}
use chord_dht.Types.{NodeInfo, core}
use chord_dht.SuccessorList.Merge.{Fresh}
use chord_dht.World.{World}
use chord_dht.Validation.{ids_of, live_entries}

-- An entry answered a call, or is the node itself.
abbrev pub Heard : Bytes → List Bytes → NodeInfo → Type 0
Heard self_id heard n = (n.node_id ≡ self_id) ⊎ (has n.node_id heard ≡ true)

-- The log only grows.
abbrev pub Grows : List Bytes → List Bytes → Type 0
Grows old new = (id : Bytes) → has id old ≡ true → has id new ≡ true

pub Heard-Grows :
    (self_id : Bytes) (old new : List Bytes) (n : NodeInfo)
    → Grows old new
    → Heard self_id old n
    → Heard self_id new n
Heard-Grows self_id old new n g (inl e) = inl e
Heard-Grows self_id old new n g (inr h) = inr (g n.node_id h)

pub All-Heard-Grows :
    (self_id : Bytes) (old new : List Bytes) (l : List NodeInfo)
    → Grows old new
    → All (Heard self_id old) l
    → All (Heard self_id new) l
All-Heard-Grows self_id old new [] g h = tt
All-Heard-Grows self_id old new (n ∷ l) g (h, hs) =
    (Heard-Grows self_id old new n g h, All-Heard-Grows self_id old new l g hs)

pub All-append : (P : NodeInfo → Type 0) (l r : List NodeInfo) → All P l → All P r → All P (l ++ r)
All-append P [] r h k = k
All-append P (n ∷ l) r h k = (h.0, All-append P l r h.1 k)

pub Fresh-append :
    (seen : List Bytes) (l : List NodeInfo) (n : NodeInfo)
    → Fresh seen l
    → is_empty n.node_id ≡ false
    → has n.node_id seen ≡ false
    → has n.node_id (ids_of l) ≡ false
    → Fresh seen (l ++ core n ∷ [])
Fresh-append seen [] n f he hs hl = (he, hs, tt)
Fresh-append seen (a ∷ l) n (fa, fs, f) he hs hl =
    (fa, fs, Fresh-append (a.node_id ∷ seen) l n f he (ground arith) (ground arith))

pub live_entries-Fresh :
    (room : ℕ) (seen : List Bytes) (l : List (NodeInfo × Bool))
    → Fresh seen (live_entries room seen l)
unfolding live_entries
live_entries-Fresh room seen [] = tt
live_entries-Fresh room seen ((n, alive) ∷ l) =
    ground
      (arith, live_entries-Fresh room seen l, live_entries-Fresh (room - 1) (n.node_id ∷ seen) l)

pub length-live_entries-le :
    (room : ℕ) (seen : List Bytes) (l : List (NodeInfo × Bool))
    → 0 < room
    → length (live_entries room seen l) ≤ room
unfolding live_entries
length-live_entries-le room seen [] h = omega arith
length-live_entries-le room seen ((n, alive) ∷ l) h = ground (
  arith,
  length-live_entries-le room seen l,
  length-live_entries-le (room - 1) (n.node_id ∷ seen) l,
)

abbrev pub AliveHeard : Bytes → List Bytes → NodeInfo × Bool → Type 0
AliveHeard self_id heard r = r.1 ≡ true → Heard self_id heard r.0

pub live_entries-heard :
    (self_id : Bytes) (heard : List Bytes) (room : ℕ) (seen : List Bytes)
    (l : List (NodeInfo × Bool))
    → All (AliveHeard self_id heard) l
    → All (Heard self_id heard) (live_entries room seen l)
unfolding live_entries
live_entries-heard self_id heard room seen [] h = tt
live_entries-heard self_id heard room seen ((n, true) ∷ l) (h, hs) = ground (
  arith,
  h refl,
  live_entries-heard self_id heard room seen l hs,
  live_entries-heard self_id heard (room - 1) (n.node_id ∷ seen) l hs,
)
live_entries-heard self_id heard room seen ((n, false) ∷ l) (h, hs) =
    live_entries-heard self_id heard room seen l hs

-- A list within the limit, with no empty or double identifier, whose entries all answered.
pub record IsLive (limit : ℕ) (self_id : Bytes) (heard : List Bytes) (l : List NodeInfo)
    : Type 0 where
  pub fresh : Fresh [] l
  pub bounded : length l ≤ limit
  pub answered : All (Heard self_id heard) l

pub IsLive-Grows :
    (limit : ℕ) (self_id : Bytes) (old new : List Bytes) (l : List NodeInfo)
    → Grows old new
    → IsLive limit self_id old l
    → IsLive limit self_id new l
IsLive-Grows limit self_id old new l g v = record {
  fresh = v.fresh;
  bounded = v.bounded;
  answered = All-Heard-Grows self_id old new l g v.answered;
}

pub IsLive-append :
    (limit : ℕ) (self_id : Bytes) (heard : List Bytes) (l : List NodeInfo) (n : NodeInfo)
    → IsLive limit self_id heard l
    → (length l == limit) ≡ false
    → is_empty n.node_id ≡ false
    → has n.node_id (ids_of l) ≡ false
    → Heard self_id heard n
    → IsLive limit self_id heard (l ++ core n ∷ [])
IsLive-append limit self_id heard l n v room he new h = record {
  fresh = Fresh-append [] l n v.fresh he refl new;
  bounded = ground (arith, length-append l (core n ∷ []), v.bounded);
  answered = All-append (Heard self_id heard) l (core n ∷ []) v.answered (h, tt);
}

-- What holds after a part of the validation that starts with `w` and ends in `w'`.
pub record Continues (w w' : World) : Type 0 where
  pub grows : Grows w.heard w'.heard
  pub same_id : w'.node.self.node_id ≡ w.node.self.node_id
  pub same_options : w'.node.options ≡ w.node.options

pub Continues-trans : {u v w : World} → Continues u v → Continues v w → Continues u w
Continues-trans a b = record {
  grows = λ id h. b.grows id (a.grows id h);
  same_id = b.same_id ∙ a.same_id;
  same_options = b.same_options ∙ a.same_options;
}

pub Continues-refl : (w : World) → Continues w w
Continues-refl w = record { grows = λ id h. h; same_id = refl; same_options = refl }
