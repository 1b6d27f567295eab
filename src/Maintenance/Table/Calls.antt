-- ===== src/Maintenance/Table/Calls.antt =====
-- The finger table over the calls of the maintenance.
use chord_dht.Base.{
  ℕ, Bool, not, ◌&&◌, ◌||◌, ◌==◌, Option, none, some, List, [], ◌∷◌, ◌++◌, Bytes, same, is_empty,
  has, length, ltb, if_cases, option_cases,
}
use chord_dht.Fingers.Table.{IsTable, mark_success-IsTable, first_finger-IsTable}
use chord_dht.Liveness.{ping_liveness, call_state, call_both, fetch_successor_state, rectify_peer}
use chord_dht.Node.{Node, emit_topology_change}
use chord_dht.SuccessorList.{size_limit}
use chord_dht.Types.{NodeInfo, RemoteState, core}
use chord_dht.Validation.{
  ids_of, last, current_list, live_entries, ping_all, extend, extend_from, extended, store_valid,
  isolate, validate_successor_list,
}
use chord_dht.World.{Net, World, passed}

module _ (net : Net) (calm : (i : ℕ) (n : Node) → IsTable n → IsTable (net.others i n)) where
  abbrev pub Sound : World → Type 0
  Sound w = IsTable w.node

  abbrev SoundAfter : {A : Type 0} → A × World → Type 0
  SoundAfter r = Sound r.1

  pub ping_liveness-IsTable :
      (t : NodeInfo) (w : World) → Sound w → IsTable (ping_liveness net t w).1.node
  unfolding ping_liveness
  ping_liveness-IsTable t w h =
      let P : Bool × World → Type 0 = SoundAfter in
      let later = calm w.calls w.node h in
      if_cases P (is_empty t.node_id) (λ _. h)
        (λ _.
          if_cases P (same t.node_id w.node.self.node_id) (λ _. h)
            (λ _.
              if_cases P (not net.has_client) (λ _. h)
                (λ _.
                  if_cases P (net.ping_liveness w.calls t.uri)
                    (λ _. mark_success-IsTable t.node_id (net.others w.calls w.node) later)
                    (λ _. later))))

  pub call_state-IsTable :
      (t : NodeInfo) (w : World) → Sound w → IsTable (call_state net t w).1.node
  unfolding call_state
  call_state-IsTable t w h =
      let later = calm w.calls w.node h in
      option_cases {A = Option RemoteState × World} SoundAfter (net.state w.calls t) (λ _. later)
        (λ _ _. later)

  call_both-IsTable : (t : NodeInfo) (w : World) → Sound w → IsTable (call_both net t w).1.node
  unfolding call_both
  call_both-IsTable t w h =
      let P : Option RemoteState × World → Type 0 = SoundAfter in
      let w1 = passed net w in
      let later = calm w.calls w.node h in
      let last = calm w1.calls w1.node later in
      option_cases P (net.predecessor w.calls t) (λ _. later)
        (λ p _. option_cases P (net.successor_list w1.calls t) (λ _. last) (λ l _. last))

  pub fetch-IsTable :
      (t : NodeInfo) (w : World) → Sound w → IsTable (fetch_successor_state net t w).1.node
  unfolding fetch_successor_state
  fetch-IsTable t w h =
      let P : Option RemoteState × World → Type 0 = SoundAfter in
      if_cases P (not net.has_client) (λ _. h)
        (λ _.
          if_cases P w.node.options.stabilize_atomic_state (λ _. call_state-IsTable t w h)
            (λ _. call_both-IsTable t w h))

  pub rectify_peer-IsTable :
      (t self : NodeInfo) (w : World) → Sound w → IsTable (rectify_peer net t self w).node
  unfolding rectify_peer
  rectify_peer-IsTable t self w h =
      let later = calm w.calls w.node h in
      if_cases Sound
        (not net.has_client || (is_empty t.node_id || same t.node_id w.node.self.node_id)) (λ _. h)
        (λ _. if_cases Sound (net.rectify w.calls t self) (λ _. later) (λ _. calm _ _ later))

  ping_all-IsTable : (l : List NodeInfo) (w : World) → Sound w → IsTable (ping_all net l w).1.node
  unfolding ping_all
  ping_all-IsTable [] w h = h
  ping_all-IsTable (n ∷ l) w h =
      ping_all-IsTable l (ping_liveness net n w).1 (ping_liveness-IsTable n w h)

  extend-IsTable :
      (limit : ℕ) (id : Bytes) (l valid : List NodeInfo) (w : World)
      → Sound w
      → IsTable (extend net limit id l valid w).1.node
  unfolding extend
  extend-IsTable limit id [] valid w h = h
  extend-IsTable limit id (n ∷ l) valid w h =
      let P : List NodeInfo × World → Type 0 = SoundAfter in
      let w1 = (ping_liveness net n w).1 in
      let later = ping_liveness-IsTable n w h in
      if_cases P (length valid == limit) (λ _. h)
        (λ _.
          if_cases P (is_empty n.node_id || (same n.node_id id || has n.node_id (ids_of valid)))
            (λ _. extend-IsTable limit id l valid w h)
            (λ _.
              if_cases P (ping_liveness net n w).0
                (λ _. extend-IsTable limit id l (valid ++ core n ∷ []) w1 later)
                (λ _. extend-IsTable limit id l valid w1 later)))

  extend_from-IsTable :
      (limit : ℕ) (id : Bytes) (valid : List NodeInfo) (r : Option RemoteState × World)
      → Sound r.1
      → IsTable (extend_from net limit id valid r).1.node
  unfolding extend_from
  extend_from-IsTable limit id valid (none, w) h = h
  extend_from-IsTable limit id valid (some s, w) h =
      extend-IsTable limit id s.successor_list valid w h

  extended-IsTable :
      (limit : ℕ) (id : Bytes) (valid : List NodeInfo) (w : World)
      → Sound w
      → IsTable (extended net limit id valid w).1.node
  unfolding extended
  extended-IsTable limit id valid w h =
      let P : List NodeInfo × World → Type 0 = SoundAfter in
      option_cases P (last valid) (λ _. h)
        (λ end _.
          if_cases P (not (ltb (length valid) limit && net.has_client) || same end.node_id id)
            (λ _. h)
            (λ _.
              extend_from-IsTable limit id valid (call_state net end w)
                (call_state-IsTable end w h)))

  store_valid-IsTable :
      (self : NodeInfo) (l : List NodeInfo) (w : World)
      → Sound w
      → IsTable (store_valid net self l w).node
  unfolding store_valid isolate emit_topology_change
  store_valid-IsTable self [] w h = h
  store_valid-IsTable self (a ∷ l) w h =
      first_finger-IsTable a w.node.self.node_id 0 w.node.fingers h

  pub validate-IsTable : (w : World) → Sound w → IsTable (validate_successor_list net w).node
  unfolding validate_successor_list
  validate-IsTable w h =
      let self = core w.node.self in
      let limit = size_limit w.node in
      let (results, w1) = ping_all net (current_list w.node) w in
      let (valid, w2) = extended net limit self.node_id (live_entries limit [] results) w1 in
      store_valid-IsTable self valid w2 (
        extended-IsTable limit self.node_id (live_entries limit [] results) w1
          (ping_all-IsTable (current_list w.node) w h))
