-- ===== src/Store/Coherence.antt =====
-- Every operation of a store keeps its list and its map coherent.
use chord_dht.Base.{
  suc, ◌≤◌, ◌<◌, ◌≡◌, refl, sym, ap, ◌∙◌, ◌≢◌, true, false, none, some, List, [], ◌∷◌, Bytes, has,
  length, arith, inl, inr, Bool-cases, Option-cases, Bytes-discrete,
}
use chord_dht.Store.{
  Store, keys, find, update, delete, erase, back, empty, move_to_front, overwrite, push_front,
  evict, evict_back,
}
use chord_dht.Store.Laws.{
  IsCoherent, has-erase_ne, has-erase_self, erase-Distinct, length-erase, length-erase-le,
  erase_absent, not_has-erase, has-back, keys-update, keys-delete, length-keys, find-delete_ne,
}

-- A key to the front changes neither what is in the list nor how much.
has-front : (k q : Bytes) (xs : List Bytes) → has k xs ≡ true → has q (k ∷ erase k xs) ≡ has q xs
has-front k q xs h = elim (Bytes-discrete q k) [
  | yes e ↦ ground (arith, has-erase_ne k q xs)
  | no n ↦ ground (arith, has-erase_ne k q xs)
]

back-ne-none : (xs : List Bytes) → 0 < length xs → back xs ≢ none
unfolding back
back-ne-none [] h e = absurd (omega arith)
back-ne-none (x ∷ []) h e = ground arith
back-ne-none (x ∷ y ∷ xs) h e = back-ne-none (y ∷ xs) (omega arith) e

module _ {V : Type 0} where
  pub empty-IsCoherent : IsCoherent (empty {V = V})
  unfolding empty
  empty-IsCoherent = record {
    order_distinct = tt;
    items_distinct = tt;
    agree = λ k. refl;
    equal_sizes = refl;
  }

  pub move_to_front-IsCoherent :
      (k : Bytes) (s : Store V)
      → IsCoherent s
      → has k (keys s.items) ≡ true
      → IsCoherent (move_to_front k s)
  unfolding move_to_front
  move_to_front-IsCoherent k s c h =
      let there : has k s.order ≡ true = c.agree k ∙ h in
      record {
        order_distinct =
            (has-erase_self k s.order c.order_distinct, erase-Distinct k s.order c.order_distinct);
        items_distinct = c.items_distinct;
        agree = λ q. has-front k q s.order there ∙ c.agree q;
        equal_sizes = c.equal_sizes ∙ sym (length-erase k s.order there);
      }

  length-update : (k : Bytes) (v : V) (l : List (Bytes × V)) → length (update k v l) ≡ length l
  length-update k v l =
      sym (length-keys (update k v l)) ∙ ap length (keys-update k v l) ∙ length-keys l

  pub overwrite-IsCoherent :
      (k : Bytes) (v : V) (s : Store V)
      → IsCoherent s
      → has k (keys s.items) ≡ true
      → IsCoherent (overwrite k v s)
  unfolding overwrite
  overwrite-IsCoherent k v s c h =
      let there : has k s.order ≡ true = c.agree k ∙ h in
      record {
        order_distinct =
            (has-erase_self k s.order c.order_distinct, erase-Distinct k s.order c.order_distinct);
        items_distinct = rw (keys-update k v s.items) c.items_distinct;
        agree = λ q. rw (keys-update k v s.items) (has-front k q s.order there ∙ c.agree q);
        equal_sizes =
            length-update k v s.items ∙ c.equal_sizes ∙ sym (length-erase k s.order there);
      }

  pub push_front-IsCoherent :
      (k : Bytes) (v : V) (s : Store V)
      → IsCoherent s
      → has k (keys s.items) ≡ false
      → IsCoherent (push_front k v s)
  unfolding push_front
  push_front-IsCoherent k v s c h = record {
    order_distinct = (c.agree k ∙ h, c.order_distinct);
    items_distinct = (h, c.items_distinct);
    agree = λ q. ground (arith, c.agree q);
    equal_sizes = ap suc c.equal_sizes;
  }

  pub evict-IsCoherent :
      (k : Bytes) (s : Store V) → IsCoherent s → has k s.order ≡ true → IsCoherent (evict k s)
  unfolding evict
  evict-IsCoherent k s c there = record {
    order_distinct = erase-Distinct k s.order c.order_distinct;
    items_distinct = rw (keys-delete k s.items) (erase-Distinct k (keys s.items) c.items_distinct);
    agree = λ q. rw (keys-delete k s.items) (agree_without q);
    equal_sizes = omega (
      arith,
      c.equal_sizes,
      length-erase k s.order there,
      length-erase k (keys s.items) (sym (c.agree k) ∙ there),
      ap length (keys-delete k s.items),
      length-keys (delete k s.items),
      length-keys s.items,
    );
  }
    where
      agree_without : (q : Bytes) → has q (erase k s.order) ≡ has q (erase k (keys s.items))
      agree_without q = elim (Bytes-discrete q k) [
        | yes e ↦ rw (
          e,
          has-erase_self k s.order c.order_distinct,
          has-erase_self k (keys s.items) c.items_distinct,
        )
        | no n ↦ has-erase_ne k q s.order n ∙ c.agree q ∙ sym (has-erase_ne k q (keys s.items) n)
      ]

  -- After an eviction from a list that is not empty there is room for one more.
  pub evict_back_lem :
      (s : Store V)
      → IsCoherent s
      → 0 < length s.order
      → IsCoherent (evict_back s) × (suc (length (evict_back s).order) ≡ length s.order)
  unfolding evict_back
  evict_back_lem s c pos = elim (Option-cases (back s.order)) [
    | inl none_back ↦ absurd (back-ne-none s.order pos none_back)
    | inr (k, e) ↦
        let there = has-back s.order k e in
        rw (e, evict_back)
          (evict-IsCoherent k s c there, unfold evict in length-erase k s.order there)
  ]

  -- `evict_back` takes away no key but the last.
  pub find-evict_back :
      (s : Store V) (q : Bytes)
      → back s.order ≢ some q
      → find q (evict_back s).items ≡ find q s.items
  unfolding evict_back
  find-evict_back s q h = elim (Option-cases (back s.order)) [
    | inl e ↦ rw (e, evict_back)
    | inr (k, e) ↦ rw (e, evict_back) (find-delete_ne k q s.items (λ p. h (e ∙ ap some (sym p))))
  ]

  -- An eviction brings no key in.
  pub not_has-evict :
      (k q : Bytes) (s : Store V)
      → has q (keys s.items) ≡ false
      → has q (keys (evict k s).items) ≡ false
  unfolding evict
  not_has-evict k q s h = rw (keys-delete k s.items) (not_has-erase k q (keys s.items) h)

  pub not_has-evict_back :
      (q : Bytes) (s : Store V)
      → has q (keys s.items) ≡ false
      → has q (keys (evict_back s).items) ≡ false
  unfolding evict_back
  not_has-evict_back q s h = elim (Option-cases (back s.order)) [
    | inl e ↦ rw (e, evict_back) h
    | inr (k, e) ↦ rw (e, evict_back) (not_has-evict k q s h)
  ]

  pub length-order-evict : (k : Bytes) (s : Store V) → length (evict k s).order ≤ length s.order
  unfolding evict
  length-order-evict k s = length-erase-le k s.order

  pub length-order-front :
      (k : Bytes) (s : Store V)
      → IsCoherent s
      → has k (keys s.items) ≡ true
      → length (k ∷ erase k s.order) ≡ length s.order
  length-order-front k s c h = length-erase k s.order (c.agree k ∙ h)

  delete_absent : (k : Bytes) (l : List (Bytes × V)) → has k (keys l) ≡ false → delete k l ≡ l
  unfolding delete
  delete_absent k [] h = refl
  delete_absent k (e ∷ l) h = ground (arith, delete_absent k l)

  -- An eviction by key, whether or not the key is there.
  pub evict-IsCoherent_any : (k : Bytes) (s : Store V) → IsCoherent s → IsCoherent (evict k s)
  unfolding evict
  evict-IsCoherent_any k s c = elim (Bool-cases (has k s.order)) [
    | inl there ↦ evict-IsCoherent k s c there
    | inr gone ↦
        rw (evict, delete_absent k s.items (sym (c.agree k) ∙ gone), erase_absent k s.order gone) c
  ]
