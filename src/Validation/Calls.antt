-- ===== src/Validation/Calls.antt =====
-- What the calls of a validation leave behind: the entries it keeps, and the identity of the node.
use chord_dht.Base.{
  ℕ, ◌≡◌, inl, inr, ◌∙◌, true, not, ◌&&◌, ◌||◌, Option, none, some, List, [], ◌∷◌, ◌++◌, Bytes,
  same, is_empty, has, ltb, ◌==◌, length, arith, All, Bool-cases, Option-cases,
}
use mathlib.Core.Path.{subst}
use chord_dht.Liveness.{ping_liveness, call_state}
use chord_dht.Failures.{mark_success}
use chord_dht.Types.{NodeInfo, RemoteState, core}
use chord_dht.World.{Net, World, Keeps}
use chord_dht.Validation.{ids_of, ping_all, extend, extend_from, extended, last}
use chord_dht.Validation.Entries.{
  Heard, Grows, AliveHeard, Heard-Grows, IsLive, IsLive-Grows, IsLive-append, Continues,
  Continues-trans, Continues-refl,
}

module _ (net : Net) where
  ping_liveness-Grows : (n : NodeInfo) (w : World) → Grows w.heard (ping_liveness net n w).1.heard
  unfolding ping_liveness
  ping_liveness-Grows n w id h = ground arith

  ping_liveness-heard :
      (n : NodeInfo) (w : World)
      → (ping_liveness net n w).0 ≡ true
      → Heard w.node.self.node_id (ping_liveness net n w).1.heard n
  unfolding ping_liveness
  ping_liveness-heard n w h = ground arith

  module _ (k : Keeps net) where
    ping_liveness-keeps :
        (n : NodeInfo) (w : World)
        → ((ping_liveness net n w).1.node.self.node_id ≡ w.node.self.node_id)
          × ((ping_liveness net n w).1.node.options ≡ w.node.options)
    unfolding ping_liveness mark_success
    ping_liveness-keeps n w =
        ground (arith, k.keeps_id w.calls w.node, k.keeps_options w.calls w.node)

    pub ping_liveness-Continues : (n : NodeInfo) (w : World) → Continues w (ping_liveness net n w).1
    ping_liveness-Continues n w =
        let (id_kept, options_kept) = ping_liveness-keeps n w in
        record { grows = ping_liveness-Grows n w; same_id = id_kept; same_options = options_kept }

    pub ping_all_lem :
        (l : List NodeInfo) (w : World)
        → Continues w (ping_all net l w).1
          × All (AliveHeard w.node.self.node_id (ping_all net l w).1.heard) (ping_all net l w).0
    unfolding ping_all
    ping_all_lem [] w = (Continues-refl w, tt)
    ping_all_lem (n ∷ l) w =
        let w1 = (ping_liveness net n w).1 in
        let (later, rest) = ping_all_lem l w1 in
        let first = ping_liveness-Continues n w in
        (
          Continues-trans first later,
          (
            λ alive.
                Heard-Grows w.node.self.node_id w1.heard (ping_all net l w1).1.heard n later.grows
                  (ping_liveness-heard n w alive),
            subst (λ s. All (AliveHeard s (ping_all net l w1).1.heard) (ping_all net l w1).0)
                first.same_id rest,
          ),
        )

    extend_lem :
        (limit : ℕ) (self_id : Bytes) (l valid : List NodeInfo) (w : World)
        → w.node.self.node_id ≡ self_id
        → IsLive limit self_id w.heard valid
        → Continues w (extend net limit self_id l valid w).1
          × IsLive limit self_id
              (extend net limit self_id l valid w).1.heard
              (extend net limit self_id l valid w).0
    unfolding extend
    extend_lem limit self_id [] valid w e v = (Continues-refl w, v)
    extend_lem limit self_id (n ∷ l) valid w e v =
        let w1 = (ping_liveness net n w).1 in
        let first = ping_liveness-Continues n w in
        let e1 : w1.node.self.node_id ≡ self_id = first.same_id ∙ e in
        let v1 = IsLive-Grows limit self_id w.heard w1.heard valid first.grows v in
        elim (Bool-cases (length valid == limit)) [
          | inl full ↦ rw full (Continues-refl w, v)
          | inr room ↦
              elim (Bool-cases
                (is_empty n.node_id || (same n.node_id self_id || has n.node_id (ids_of valid)))) [
                  | inl skip ↦ rw (room, skip) (extend_lem limit self_id l valid w e v)
                  | inr new ↦ elim (Bool-cases (ping_liveness net n w).0) [
                    | inr dead ↦
                        let (later, out) = extend_lem limit self_id l valid w1 e1 v1 in
                        rw (room, new, dead) (Continues-trans first later, out)
                    | inl alive ↦
                        let h = subst (λ s. Heard s w1.heard n) e (ping_liveness-heard n w alive) in
                        let v2 =
                          IsLive-append limit self_id w1.heard valid n v1 room (ground arith)
                            (ground arith) h in
                        let (later, out) =
                          extend_lem limit self_id l (valid ++ core n ∷ []) w1 e1 v2 in
                        rw (room, new, alive) (Continues-trans first later, out)
                  ]
                ]
        ]

    pub call_state-Continues : (n : NodeInfo) (w : World) → Continues w (call_state net n w).1
    unfolding call_state
    call_state-Continues n w = record {
      grows = λ id h. ground arith;
      same_id = ground (arith, k.keeps_id w.calls w.node);
      same_options = ground (arith, k.keeps_options w.calls w.node);
    }

    extend_from_lem :
        (limit : ℕ) (self_id : Bytes) (valid : List NodeInfo) (o : Option RemoteState) (w : World)
        → w.node.self.node_id ≡ self_id
        → IsLive limit self_id w.heard valid
        → Continues w (extend_from net limit self_id valid (o, w)).1
          × IsLive limit self_id
              (extend_from net limit self_id valid (o, w)).1.heard
              (extend_from net limit self_id valid (o, w)).0
    unfolding extend_from
    extend_from_lem limit self_id valid none w e v = (Continues-refl w, v)
    extend_from_lem limit self_id valid (some s) w e v =
        extend_lem limit self_id s.successor_list valid w e v

    pub extended_lem :
        (limit : ℕ) (self_id : Bytes) (valid : List NodeInfo) (w : World)
        → w.node.self.node_id ≡ self_id
        → IsLive limit self_id w.heard valid
        → Continues w (extended net limit self_id valid w).1
          × IsLive limit self_id
              (extended net limit self_id valid w).1.heard
              (extended net limit self_id valid w).0
    unfolding extended
    extended_lem limit self_id valid w e v = elim (Option-cases (last valid)) [
      | inl nothing ↦ rw (nothing, extended) (Continues-refl w, v)
      | inr (end, found) ↦
          elim (Bool-cases
            (not (ltb (length valid) limit && net.has_client) || same end.node_id self_id)) [
              | inl enough ↦ rw (found, extended, enough) (Continues-refl w, v)
              | inr short ↦
                  let w1 = (call_state net end w).1 in
                  let first = call_state-Continues end w in
                  let (later, out) =
                    extend_from_lem limit self_id valid (call_state net end w).0 w1
                      (first.same_id ∙ e)
                      (IsLive-Grows limit self_id w.heard w1.heard valid first.grows v) in
                  rw (found, extended, short) (Continues-trans first later, out)
            ]
    ]

    extend-Continues :
        (limit : ℕ) (self_id : Bytes) (l valid : List NodeInfo) (w : World)
        → Continues w (extend net limit self_id l valid w).1
    unfolding extend
    extend-Continues limit self_id [] valid w = Continues-refl w
    extend-Continues limit self_id (n ∷ l) valid w =
        let w1 = (ping_liveness net n w).1 in
        let first = ping_liveness-Continues n w in
        elim (Bool-cases (length valid == limit)) [
          | inl full ↦ rw full (Continues-refl w)
          | inr room ↦
              elim (Bool-cases
                (is_empty n.node_id || (same n.node_id self_id || has n.node_id (ids_of valid)))) [
                  | inl skip ↦ rw (room, skip) (extend-Continues limit self_id l valid w)
                  | inr new ↦ elim (Bool-cases (ping_liveness net n w).0) [
                    | inr dead ↦
                        rw (room, new, dead)
                          (Continues-trans first (extend-Continues limit self_id l valid w1))
                    | inl alive ↦
                        rw (room, new, alive)
                          (Continues-trans first
                            (extend-Continues limit self_id l (valid ++ core n ∷ []) w1))
                  ]
                ]
        ]

    extend_from-Continues :
        (limit : ℕ) (self_id : Bytes) (valid : List NodeInfo) (o : Option RemoteState) (w : World)
        → Continues w (extend_from net limit self_id valid (o, w)).1
    unfolding extend_from
    extend_from-Continues limit self_id valid none w = Continues-refl w
    extend_from-Continues limit self_id valid (some s) w =
        extend-Continues limit self_id s.successor_list valid w

    pub extended-Continues :
        (limit : ℕ) (self_id : Bytes) (valid : List NodeInfo) (w : World)
        → Continues w (extended net limit self_id valid w).1
    unfolding extended
    extended-Continues limit self_id valid w = elim (Option-cases (last valid)) [
      | inl nothing ↦ rw (nothing, extended) (Continues-refl w)
      | inr (end, found) ↦
          elim (Bool-cases
            (not (ltb (length valid) limit && net.has_client) || same end.node_id self_id)) [
              | inl enough ↦ rw (found, extended, enough) (Continues-refl w)
              | inr short ↦
                  rw (found, extended, short)
                    (Continues-trans (call_state-Continues end w) (
                      extend_from-Continues limit self_id valid (call_state net end w).0
                        (call_state net end w).1))
            ]
    ]
