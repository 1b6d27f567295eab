-- ===== src/Stabilize/Calls.antt =====
-- What the calls of a stabilization leave as it was.
use chord_dht.Base.{suc, ◌≡◌, true, false, not, ◌||◌, Option, same, is_empty, arith, if_cases}
use chord_dht.Types.{NodeInfo, RemoteState}
use chord_dht.Liveness.{ping_liveness, fetch_successor_state, rectify_peer, call_both}
use chord_dht.Validation.Entries.{Continues, Continues-refl, Continues-trans}
use chord_dht.Validation.Calls.{call_state-Continues}
use chord_dht.World.{Net, World, Keeps, passed, log, Message, rectify_sent, notify_sent}

module _ (net : Net) (k : Keeps net) where
  pub ping_liveness-filled :
      (n : NodeInfo) (w : World) → (ping_liveness net n w).0 ≡ true → is_empty n.node_id ≡ false
  unfolding ping_liveness
  ping_liveness-filled n w h = ground arith

  pub passed-Continues : (w : World) → Continues w (passed net w)
  passed-Continues w = record {
    grows = λ id h. h;
    same_id = k.keeps_id w.calls w.node;
    same_options = k.keeps_options w.calls w.node;
  }

  pub after_log : {m : Message} {w w' : World} → Continues (log m w) w' → Continues w w'
  after_log c = record { grows = c.grows; same_id = c.same_id; same_options = c.same_options }

  pub call_both-Continues : (c : NodeInfo) (w : World) → Continues w (call_both net c w).1
  unfolding call_both
  call_both-Continues c w = ground (
    arith,
    k.keeps_id w.calls w.node,
    k.keeps_options w.calls w.node,
    k.keeps_id (suc w.calls) (net.others w.calls w.node),
    k.keeps_options (suc w.calls) (net.others w.calls w.node),
  )

  pub rectify_peer-Continues :
      (target self : NodeInfo) (w : World) → Continues w (rectify_peer net target self w)
  unfolding rectify_peer
  rectify_peer-Continues target self w =
      let first = passed-Continues (log (rectify_sent target.node_id self) w) in
      if_cases {A = World} (Continues w)
        (not net.has_client || (is_empty target.node_id || same target.node_id w.node.self.node_id))
        (λ skip. Continues-refl w)
        (λ go.
          if_cases {A = World} (Continues w) (net.rectify w.calls target self)
            (λ done. after_log first)
            (λ failed. after_log (
              Continues-trans first (
                after_log (
                  passed-Continues (
                    log (notify_sent target.node_id self)
                      (passed net (log (rectify_sent target.node_id self) w))))))))

  pub fetch-Continues : (c : NodeInfo) (w : World) → Continues w (fetch_successor_state net c w).1
  unfolding fetch_successor_state
  fetch-Continues c w =
      if_cases {A = Option RemoteState × World} (λ r. Continues w r.1) (not net.has_client)
        (λ none_there. Continues-refl w)
        (λ there.
          if_cases {A = Option RemoteState × World} (λ r. Continues w r.1)
            w.node.options.stabilize_atomic_state (λ atomic. call_state-Continues net k c w)
            (λ two. call_both-Continues c w))
