-- ===== src/Store/Laws.antt =====
-- The list and the map name the same keys, each once, through every operation.
use chord_dht.Base.{
  suc, ◌≤◌, ◌≡◌, refl, ap, ◌≢◌, true, false, none, some, List, [], ◌∷◌, Bytes, same, has, any,
  length, arith,
}
use chord_dht.Store.{Store, keys, find, update, delete, erase, back}

-- No key twice.
abbrev pub Distinct : List Bytes → Type 0
Distinct [] = Unit
Distinct (x ∷ xs) = (has x xs ≡ false) × Distinct xs

pub record IsCoherent {V : Type 0} (s : Store V) : Type 0 where
  pub order_distinct : Distinct s.order
  pub items_distinct : Distinct (keys s.items)
  pub agree : (k : Bytes) → has k s.order ≡ has k (keys s.items)
  pub equal_sizes : length s.items ≡ length s.order

pub has-erase_ne : (k q : Bytes) (xs : List Bytes) → q ≢ k → has q (erase k xs) ≡ has q xs
unfolding erase
has-erase_ne k q [] h = refl
has-erase_ne k q (x ∷ xs) h = ground (arith, has-erase_ne k q xs)

pub has-erase_self : (k : Bytes) (xs : List Bytes) → Distinct xs → has k (erase k xs) ≡ false
unfolding erase
has-erase_self k [] d = refl
has-erase_self k (x ∷ xs) d = ground (arith, has-erase_self k xs)

pub not_has-erase : (k q : Bytes) (xs : List Bytes) → has q xs ≡ false → has q (erase k xs) ≡ false
unfolding erase
not_has-erase k q [] h = refl
not_has-erase k q (x ∷ xs) h = ground (arith, not_has-erase k q xs)

pub erase-Distinct : (k : Bytes) (xs : List Bytes) → Distinct xs → Distinct (erase k xs)
unfolding erase
erase-Distinct k [] d = tt
erase-Distinct k (x ∷ xs) d = ground (arith, erase-Distinct k xs, has-erase_ne k x xs)

pub length-erase :
    (k : Bytes) (xs : List Bytes) → has k xs ≡ true → suc (length (erase k xs)) ≡ length xs
unfolding erase
length-erase k [] h = ground arith
length-erase k (x ∷ xs) h = ground (arith, length-erase k xs)

pub erase_absent : (k : Bytes) (xs : List Bytes) → has k xs ≡ false → erase k xs ≡ xs
unfolding erase
erase_absent k [] h = refl
erase_absent k (x ∷ xs) h = ground (arith, erase_absent k xs)

pub length-erase-le : (k : Bytes) (xs : List Bytes) → length (erase k xs) ≤ length xs
unfolding erase
length-erase-le k [] = omega arith
length-erase-le k (x ∷ xs) = ground (arith, length-erase-le k xs)

pub has-back : (xs : List Bytes) (k : Bytes) → back xs ≡ some k → has k xs ≡ true
unfolding back
has-back [] k h = ground arith
has-back (x ∷ []) k h = ground arith
has-back (x ∷ y ∷ xs) k h = ground (arith, has-back (y ∷ xs) k)

module _ {V : Type 0} where
  pub keys-update : (k : Bytes) (v : V) (l : List (Bytes × V)) → keys (update k v l) ≡ keys l
  unfolding update
  keys-update k v [] = refl
  keys-update k v (e ∷ l) = ground (arith, keys-update k v l)

  pub keys-delete : (k : Bytes) (l : List (Bytes × V)) → keys (delete k l) ≡ erase k (keys l)
  unfolding delete erase
  keys-delete k [] = refl
  keys-delete k (e ∷ l) = ground (arith, keys-delete k l)

  pub length-keys : (l : List (Bytes × V)) → length (keys l) ≡ length l
  length-keys [] = refl
  length-keys (e ∷ l) = ap suc (length-keys l)

  pub has-keys_of_find :
      (k : Bytes) (l : List (Bytes × V)) (v : V) → find k l ≡ some v → has k (keys l) ≡ true
  unfolding find
  has-keys_of_find k [] v h = ground arith
  has-keys_of_find k (e ∷ l) v h = ground (arith, has-keys_of_find k l v)

  pub not_has-keys_of_find :
      (k : Bytes) (l : List (Bytes × V)) → find k l ≡ none → has k (keys l) ≡ false
  unfolding find
  not_has-keys_of_find k [] h = refl
  not_has-keys_of_find k (e ∷ l) h = ground (arith, not_has-keys_of_find k l)

  pub find_of_not_has :
      (k : Bytes) (l : List (Bytes × V)) → has k (keys l) ≡ false → find k l ≡ none
  unfolding find
  find_of_not_has k [] h = refl
  find_of_not_has k (e ∷ l) h = ground (arith, find_of_not_has k l)

  pub find-update_self :
      (k : Bytes) (v : V) (l : List (Bytes × V))
      → has k (keys l) ≡ true
      → find k (update k v l) ≡ some v
  unfolding find update
  find-update_self k v [] h = ground arith
  find-update_self k v (e ∷ l) h = ground (arith, find-update_self k v l)

  pub find-update_ne :
      (k q : Bytes) (v : V) (l : List (Bytes × V)) → q ≢ k → find q (update k v l) ≡ find q l
  unfolding find update
  find-update_ne k q v [] h = refl
  find-update_ne k q v (e ∷ l) h = ground (arith, find-update_ne k q v l)

  pub find-delete_ne : (k q : Bytes) (l : List (Bytes × V)) → q ≢ k → find q (delete k l) ≡ find q l
  unfolding find delete
  find-delete_ne k q [] h = refl
  find-delete_ne k q (e ∷ l) h = ground (arith, find-delete_ne k q l)

  pub has-keys-any : (k : Bytes) (l : List (Bytes × V)) → has k (keys l) ≡ any (λ e. same k e.0) l
  has-keys-any k [] = refl
  has-keys-any k (e ∷ l) = rw (has-keys-any k l)

  pub find-delete_self :
      (k : Bytes) (l : List (Bytes × V)) → Distinct (keys l) → find k (delete k l) ≡ none
  unfolding find delete
  find-delete_self k [] d = refl
  find-delete_self k (e ∷ l) d = ground (arith, find-delete_self k l, find_of_not_has k l)
