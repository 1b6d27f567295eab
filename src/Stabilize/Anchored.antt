-- ===== src/Stabilize/Anchored.antt =====
-- Every way out of a stabilization leaves the successor at the head of the successor list.
use chord_dht.Base.{
  ◌≡◌, ◌≢◌, refl, sym, ap, ◌∙◌, true, false, not, ◌||◌, List, [], ◌∷◌, same, is_empty, arith, All,
  if_cases, option_cases,
}
use chord_dht.Node.{dedupe_nodes}
use chord_dht.Types.{NodeInfo, RemoteState, core, active}
use chord_dht.Id.{in_range_open_open}
use chord_dht.Failures.{mark_success, mark_failure}
use chord_dht.Liveness.{ping_liveness, fetch_successor_state, rectify_peer}
use chord_dht.Uri.{Platform, validate_node_info}
use chord_dht.Validation.{validate_successor_list}
use chord_dht.Validation.Entries.{Continues, Continues-refl, Continues-trans}
use chord_dht.Validation.Calls.{ping_liveness-Continues}
use chord_dht.Validation.Outcome.{
  validate_successor_list-outcome, validate_successor_list-Continues,
}
use chord_dht.World.{Net, World, Keeps, with_node}
use chord_dht.Stabilize.{
  Start, remote_list, validate_if_asked, bootstrap, choose, choose_between, adopt, give_up,
  try_self, use_state, try_peer, try_candidates, start, stabilize,
}
use chord_dht.Stabilize.Calls.{ping_liveness-filled, rectify_peer-Continues, fetch-Continues}
use chord_dht.Stabilize.Writes.{
  IsAnchored, Peer, validated-IsAnchored, emit-IsAnchored, settle_alone-IsAnchored,
  isolate-IsAnchored, write_successor-IsAnchored, is_active_lem, mark_failure-self, dedupe-filled,
}

module _ (net : Net) (k : Keeps net) where
  validate_if_asked-IsAnchored :
      (os : Platform) (w : World) → IsAnchored w.node → IsAnchored (validate_if_asked os net w).node
  unfolding validate_if_asked
  validate_if_asked-IsAnchored os w a =
      if_cases {A = World} (λ v. IsAnchored v.node) w.node.options.validate_after_stabilize
        (λ on.
          validated-IsAnchored w (validate_successor_list net w)
            (validate_successor_list-outcome net w k)
            (validate_successor_list-Continues net w k).same_options)
        (λ off. a)

  module _ (os : Platform) where
    adopt-IsAnchored :
        (st : Start) (s : NodeInfo) (remote : List NodeInfo) (w : World)
        → Peer w.node s
        → IsAnchored (adopt os net st (s, remote) w).node
    unfolding adopt
    adopt-IsAnchored st s remote w (filled, other, cored) =
        let w1 = rectify_peer net s st.with_cert w in
        let still : Peer w1.node s = (
          filled,
          λ e. other (e ∙ (rectify_peer-Continues net k s st.with_cert w).same_id),
          cored,
        ) in
        let a = write_successor-IsAnchored s remote w1.node still in
        if_cases {A = World} (λ v. IsAnchored v.node)
          (not (same s.node_id st.current_successor.node_id))
          (λ changed.
            emit-IsAnchored _ (
              validate_if_asked-IsAnchored os _
                (record { headed = a.headed; bounded = a.bounded })))
          (λ kept.
            validate_if_asked-IsAnchored os _ (record { headed = a.headed; bounded = a.bounded }))

    bootstrap-IsAnchored :
        (st : Start) (p : NodeInfo) (w : World)
        → Peer w.node p
        → IsAnchored (bootstrap os net st p w).node
    unfolding bootstrap
    bootstrap-IsAnchored st p w (filled, other, cored) =
        let fetched = fetch_successor_state net p w in
        let before =
          Continues-trans (fetch-Continues net k p w)
            (rectify_peer-Continues net k p st.with_cert fetched.1) in
        let w2 = rectify_peer net p st.with_cert fetched.1 in
        let a =
          write_successor-IsAnchored p (remote_list fetched.0) w2.node
            (filled, λ e. other (e ∙ before.same_id), cored) in
        emit-IsAnchored _ (validate_if_asked-IsAnchored os _ a)

    -- A peer other than the node, which answers a ping.
    Peer-of_ping :
        (st : Start) (p : NodeInfo) (w : World)
        → st.self.node_id ≡ w.node.self.node_id
        → (ping_liveness net (core p) w).0 ≡ true
        → p.node_id ≢ st.self.node_id
        → Peer (ping_liveness net (core p) w).1.node (core p)
    Peer-of_ping st p w e alive other = (
      ping_liveness-filled net k (core p) w alive,
      λ q. other (q ∙ (ping_liveness-Continues net k (core p) w).same_id ∙ sym e),
      refl,
    )

    abbrev Chosen : World → (NodeInfo × List NodeInfo) × World → Type 0
    Chosen w r = Continues w r.1 × Peer r.1.node r.0.0

    choose_between_lem :
        (st : Start) (c : NodeInfo) (state : RemoteState) (p : NodeInfo) (w : World)
        → st.self.node_id ≡ w.node.self.node_id
        → is_empty c.node_id ≡ false
        → c.node_id ≢ st.self.node_id
        → Chosen w (choose_between os net st c state p w)
    unfolding choose_between
    choose_between_lem st c state p w e filled other =
        let w1 = (ping_liveness net (core p) w).1 in
        let later = ping_liveness-Continues net k (core p) w in
        let stay : Peer w.node (core c) = (filled, λ q. other (q ∙ sym e), refl) in
        let back : Peer w1.node (core c) = (filled, λ q. other (q ∙ later.same_id ∙ sym e), refl) in
        if_cases {A = (NodeInfo × List NodeInfo) × World} (Chosen w)
          (same p.node_id st.self.node_id
            || not (in_range_open_open p.node_id st.self.node_id c.node_id))
          {x = ((core c, state.successor_list), w)} (λ outside. (Continues-refl w, stay))
          (λ between.
            if_cases {A = (NodeInfo × List NodeInfo) × World} (Chosen w)
              (not (validate_node_info os (core p))) {x = ((core c, state.successor_list), w)}
              (λ unsound. (Continues-refl w, stay))
              (λ sound.
                if_cases {A = (NodeInfo × List NodeInfo) × World} (Chosen w)
                  (ping_liveness net (core p) w).0
                  {x = ((core p, core c ∷ state.successor_list), w1)}
                  {y = ((core c, state.successor_list), w1)}
                  (λ alive. (later, Peer-of_ping st p w e alive (ground arith)))
                  (λ dead. (later, back))))

    choose_lem :
        (st : Start) (c : NodeInfo) (state : RemoteState) (w : World)
        → st.self.node_id ≡ w.node.self.node_id
        → is_empty c.node_id ≡ false
        → c.node_id ≢ st.self.node_id
        → Chosen w (choose os net st c state w)
    unfolding choose
    choose_lem st c state w e filled other =
        option_cases {A = (NodeInfo × List NodeInfo) × World} (Chosen w) state.predecessor
          {a = ((core c, state.successor_list), w)} {f = λ p. choose_between os net st c state p w}
          (λ nobody. (Continues-refl w, (filled, λ q. other (q ∙ sym e), refl)))
          (λ p found. choose_between_lem st c state p w e filled other)

    use_state-IsAnchored :
        (st : Start) (c : NodeInfo) (state : RemoteState) (w : World)
        → st.self.node_id ≡ w.node.self.node_id
        → is_empty c.node_id ≡ false
        → c.node_id ≢ st.self.node_id
        → IsAnchored (use_state os net st c state w).node
    unfolding use_state mark_success
    use_state-IsAnchored st c state w e filled other =
        let w' = with_node (mark_success c.node_id w.node) w in
        let (_, peer) = choose_lem st c state w' e filled other in
        adopt-IsAnchored st (choose os net st c state w').0.0 (choose os net st c state w').0.1
          (choose os net st c state w').1 peer

    abbrev Next : Start → (World → World) → Type 0
    Next st next = (w : World) → st.self.node_id ≡ w.node.self.node_id → IsAnchored (next w).node

    give_up-IsAnchored : (st : Start) (w : World) → IsAnchored (give_up os net st w).node
    unfolding give_up
    give_up-IsAnchored st w = emit-IsAnchored _ (isolate-IsAnchored st.self _ w.node)

    try_self-IsAnchored :
        (st : Start) (next : World → World) (w : World)
        → Next st next
        → st.self.node_id ≡ w.node.self.node_id
        → IsAnchored (try_self os net st next w).node
    unfolding try_self
    try_self-IsAnchored st next w h e =
        option_cases {A = World} (λ v. IsAnchored v.node) st.current_predecessor
          (λ nobody. settle_alone-IsAnchored st _ w.node)
          (λ p found.
            if_cases {A = World} (λ v. IsAnchored v.node)
              (same p.node_id st.self.node_id || not net.has_client)
              (λ own. settle_alone-IsAnchored st _ w.node)
              (λ peer.
                if_cases {A = World} (λ v. IsAnchored v.node) (ping_liveness net (core p) w).0
                  (λ alive.
                    bootstrap-IsAnchored st (core p) (ping_liveness net (core p) w).1
                      (Peer-of_ping st p w e alive (ground arith)))
                  (λ dead.
                    h (ping_liveness net (core p) w).1
                      (e ∙ sym (ping_liveness-Continues net k (core p) w).same_id))))

    try_peer-IsAnchored :
        (st : Start) (c : NodeInfo) (next : World → World) (w : World)
        → Next st next
        → st.self.node_id ≡ w.node.self.node_id
        → is_empty c.node_id ≡ false
        → c.node_id ≢ st.self.node_id
        → IsAnchored (try_peer os net st c next w).node
    unfolding try_peer
    try_peer-IsAnchored st c next w h e filled other =
        let fetched = fetch_successor_state net c w in
        let kept = (fetch-Continues net k c w).same_id in
        option_cases {A = World} (λ v. IsAnchored v.node) fetched.0
          (λ failed. h (with_node (mark_failure c.node_id fetched.1.node).1 fetched.1) (
            e
            ∙ sym kept
            ∙ sym (ap (λ (n : NodeInfo). n.node_id) (mark_failure-self c.node_id fetched.1.node))))
          (λ s answer. use_state-IsAnchored st c s fetched.1 (e ∙ sym kept) filled other)

    try_candidates-IsAnchored :
        (st : Start) (l : List NodeInfo) (w : World)
        → All (λ c. (is_empty c.node_id ≡ false) × (core c ≡ c)) l
        → st.self.node_id ≡ w.node.self.node_id
        → IsAnchored (try_candidates os net st l w).node
    unfolding try_candidates
    try_candidates-IsAnchored st [] w a e = give_up-IsAnchored st w
    try_candidates-IsAnchored st (c ∷ l) w ((filled, cored), a) e =
        let next : Next st (try_candidates os net st l) =
          λ w' e'. try_candidates-IsAnchored st l w' a e' in
        if_cases {A = World} (λ v. IsAnchored v.node) (same c.node_id st.self.node_id)
          (λ own. try_self-IsAnchored st (try_candidates os net st l) w next e)
          (λ peer.
            if_cases {A = World} (λ v. IsAnchored v.node) (not net.has_client)
              (λ alone. give_up-IsAnchored st w)
              (λ there.
                try_peer-IsAnchored st c (try_candidates os net st l) w next e filled
                  (ground arith)))

    -- Whatever the peers answer, and whatever the other goroutines do meanwhile that keeps the
    -- identity and the options of the node, a stabilization of an active node ends with the
    -- successor at the head of a successor list that is within the configured size.
    pub stabilize-IsAnchored :
        (w : World) → w.node.status ≡ active → IsAnchored (stabilize os net w).node
    unfolding stabilize
    stabilize-IsAnchored w e = rw (is_active_lem w.node.status e) (
        try_candidates-IsAnchored (start os net w.node)
          (dedupe_nodes (w.node.successor ∷ w.node.successor_list) []) w
          (unfold dedupe_nodes in dedupe-filled [] [] (w.node.successor ∷ w.node.successor_list))
          refl)
