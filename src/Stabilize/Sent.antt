-- ===== src/Stabilize/Sent.antt =====
-- What the calls of a stabilization tell the peers.
use chord_dht.Base.{
  ◌≡◌, refl, Bool, not, ◌||◌, ◌&&◌, Option, none, some, List, [], ◌∷◌, ◌++◌, Bytes, ℕ, same, has,
  is_empty, length, ltb, ◌==◌, All, if_cases, option_cases,
}
use chord_dht.Liveness.{ping_liveness, call_state, call_both, fetch_successor_state, rectify_peer}
use chord_dht.Types.{NodeInfo, RemoteState, core}
use chord_dht.Validation.{
  ids_of, last, current_list, ping_all, extend, extend_from, extended, store_valid,
  validate_successor_list,
}
use chord_dht.World.{
  Net, World, passed, Message, rectify_sent, notify_sent, leave_sent, deregister_sent,
  register_sent,
}

-- A message that describes its sender does so as `x`.
abbrev pub Describes : NodeInfo → Message → Type 0
Describes x (rectify_sent id y) = y ≡ x
Describes x (notify_sent id y) = y ≡ x
Describes x (leave_sent id req) = Unit
Describes x deregister_sent = Unit
Describes x register_sent = Unit

module _ (net : Net) (x : NodeInfo) where
  abbrev pub Ok : World → Type 0
  Ok w = All (Describes x) w.sent

  pub ping_liveness-Ok : (t : NodeInfo) (w : World) → Ok w → Ok (ping_liveness net t w).1
  unfolding ping_liveness
  ping_liveness-Ok t w h =
      let P : Bool × World → Type 0 = λ r. Ok r.1 in
      if_cases P (is_empty t.node_id) (λ _. h)
        (λ _.
          if_cases P (same t.node_id w.node.self.node_id) (λ _. h)
            (λ _.
              if_cases P (not net.has_client) (λ _. h)
                (λ _. if_cases P (net.ping_liveness w.calls t.uri) (λ _. h) (λ _. h))))

  call_state-Ok : (t : NodeInfo) (w : World) → Ok w → Ok (call_state net t w).1
  unfolding call_state
  call_state-Ok t w h =
      option_cases {A = Option RemoteState × World} (λ r. Ok r.1) (net.state w.calls t) (λ _. h)
        (λ _ _. h)

  call_both-Ok : (t : NodeInfo) (w : World) → Ok w → Ok (call_both net t w).1
  unfolding call_both
  call_both-Ok t w h =
      let P : Option RemoteState × World → Type 0 = λ r. Ok r.1 in
      option_cases P (net.predecessor w.calls t) (λ _. h)
        (λ p _. option_cases P (net.successor_list (passed net w).calls t) (λ _. h) (λ _ _. h))

  pub fetch-Ok : (t : NodeInfo) (w : World) → Ok w → Ok (fetch_successor_state net t w).1
  unfolding fetch_successor_state
  fetch-Ok t w h =
      let P : Option RemoteState × World → Type 0 = λ r. Ok r.1 in
      if_cases P (not net.has_client) (λ _. h)
        (λ _.
          if_cases P w.node.options.stabilize_atomic_state (λ _. call_state-Ok t w h)
            (λ _. call_both-Ok t w h))

  pub rectify_peer-Ok : (t : NodeInfo) (w : World) → Ok w → Ok (rectify_peer net t x w)
  unfolding rectify_peer
  rectify_peer-Ok t w h =
      if_cases Ok (not net.has_client || (is_empty t.node_id || same t.node_id w.node.self.node_id))
        (λ _. h)
        (λ _. if_cases Ok (net.rectify w.calls t x) (λ _. (refl, h)) (λ _. (refl, (refl, h))))

  ping_all-Ok : (l : List NodeInfo) (w : World) → Ok w → Ok (ping_all net l w).1
  unfolding ping_all
  ping_all-Ok [] w h = h
  ping_all-Ok (n ∷ l) w h = ping_all-Ok l (ping_liveness net n w).1 (ping_liveness-Ok n w h)

  extend-Ok :
      (limit : ℕ) (id : Bytes) (l valid : List NodeInfo) (w : World)
      → Ok w
      → Ok (extend net limit id l valid w).1
  unfolding extend
  extend-Ok limit id [] valid w h = h
  extend-Ok limit id (n ∷ l) valid w h =
      let P : List NodeInfo × World → Type 0 = λ r. Ok r.1 in
      let w1 = (ping_liveness net n w).1 in
      let h1 = ping_liveness-Ok n w h in
      if_cases P (length valid == limit) (λ _. h)
        (λ _.
          if_cases P (is_empty n.node_id || (same n.node_id id || has n.node_id (ids_of valid)))
            (λ _. extend-Ok limit id l valid w h)
            (λ _.
              if_cases P (ping_liveness net n w).0
                (λ _. extend-Ok limit id l (valid ++ core n ∷ []) w1 h1)
                (λ _. extend-Ok limit id l valid w1 h1)))

  extend_from-Ok :
      (limit : ℕ) (id : Bytes) (valid : List NodeInfo) (s : Option RemoteState × World)
      → Ok s.1
      → Ok (extend_from net limit id valid s).1
  unfolding extend_from
  extend_from-Ok limit id valid (none, w) h = h
  extend_from-Ok limit id valid (some s, w) h = extend-Ok limit id s.successor_list valid w h

  extended-Ok :
      (limit : ℕ) (id : Bytes) (valid : List NodeInfo) (w : World)
      → Ok w
      → Ok (extended net limit id valid w).1
  unfolding extended
  extended-Ok limit id valid w h =
      let P : List NodeInfo × World → Type 0 = λ r. Ok r.1 in
      option_cases P (last valid) (λ _. h)
        (λ end _.
          if_cases P (not (ltb (length valid) limit && net.has_client) || same end.node_id id)
            (λ _. h) (λ _. extend_from-Ok limit id valid _ (call_state-Ok end w h)))

  store_valid-Ok :
      (self : NodeInfo) (valid : List NodeInfo) (w : World)
      → Ok w
      → Ok (store_valid net self valid w)
  unfolding store_valid
  store_valid-Ok self [] w h = h
  store_valid-Ok self (a ∷ l) w h = h

  pub validate_successor_list-Ok : (w : World) → Ok w → Ok (validate_successor_list net w)
  unfolding validate_successor_list
  validate_successor_list-Ok w h =
      store_valid-Ok _ _ _ (extended-Ok _ _ _ _ (ping_all-Ok (current_list w.node) w h))
