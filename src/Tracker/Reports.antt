-- ===== src/Tracker/Reports.antt =====
-- How often a node reports, and how much.
use chord_dht.Base.{
  ℕ, ◌+◌, ◌-◌, ◌≤◌, ◌≡◌, ◌≢◌, sym, ap, Bool, true, false, not, ◌||◌, Option, none, some, List, [],
  ◌∷◌, Bytes, length, arith, if_cases, option_cases,
}
use chord_dht.Maintenance.{get_tracker_heartbeat_interval}
use chord_dht.Node.{Node, is_vnode}
use chord_dht.Tracker.{
  Heartbeat, batch, batch_limit, Reporter, Event, heartbeat_sent, is_due, is_after, compose,
  send_heartbeat, report_to_tracker,
}
use chord_dht.Types.{is_active}
use chord_dht.Uri.{Platform}
use chord_dht.World.{Net, World, passed, now}

length-batch-le :
    (rtts : List (Bytes × ℕ)) (when room : ℕ) (l : List Node)
    → length (batch rtts when room l) ≤ room
unfolding batch
length-batch-le rtts when room [] = ground arith
length-batch-le rtts when room (n ∷ l) =
    ground (arith, length-batch-le rtts when room l, length-batch-le rtts when (room - 1) l)

-- The time of a recorded heartbeat, if there is one, lies an interval before another.
abbrev pub Rested : ℕ → ℕ → Option ℕ → Type 0
Rested interval when none = Unit
Rested interval when (some last) = last + interval ≤ when

Rested-is_due :
    (interval when : ℕ) (last recorded : Option ℕ)
    → is_due interval when last ≡ true
    → is_after recorded last ≡ false
    → Rested interval when recorded
unfolding is_due
Rested-is_due interval when last none due kept = tt
Rested-is_due interval when none (some r) due kept = ground arith
Rested-is_due interval when (some l) (some r) due kept = ground (arith, due, kept)

abbrev first : Event → List Event → Event
first other [] = other
first other (e ∷ l) = e

not_empty : (e : Event) (l : List Event) → [] ≢ (e ∷ l)
not_empty e l h = ground (arith, ap (λ (x : List Event). length x) h)

-- What a report that sends `e` first has passed, and what `e` is.
pub record IsReported (net : Net) (w : World) (e : Event) : Type 0 where
  pub working : is_active w.node.status ≡ true
  pub anchor : is_vnode w.node ≡ false
  pub rested :
      Rested
        (get_tracker_heartbeat_interval w.node)
        (now net w)
        (net.others w.calls w.node).last_tracker_heartbeat_at
  pub beat : Heartbeat
  pub sent : e ≡ heartbeat_sent (net.others w.calls w.node).self.node_id beat
  pub small : length beat.vnode_heartbeats ≤ batch_limit (net.others w.calls w.node)

-- If a call of `ReportToTracker` sends anything, then the node is an active anchor, and the last heartbeat
-- that is recorded at the moment of the write, by this goroutine or another, lies an interval back. What
-- it sends first is a heartbeat, with no more virtual nodes than the limit.
pub report_to_tracker-IsReported :
    (net : Net) (os : Platform) (tracker : Option Reporter) (rtts : List (Bytes × ℕ))
    (refresh : Bool) (version : ℕ) (peers : List Node) (w : World) (e : Event) (l : List Event)
    → (report_to_tracker net os tracker rtts refresh version peers w).0 ≡ (e ∷ l)
    → IsReported net w e
unfolding report_to_tracker send_heartbeat compose batch_limit
report_to_tracker-IsReported net os tracker rtts refresh version peers w e l =
    let P : List Event × World → Type 0 = λ r. r.0 ≡ (e ∷ l) → IsReported net w e in
    let w1 = passed net w in
    let n = record w1.node { last_tracker_heartbeat_at = some (now net w) } in
    let last = w.node.last_tracker_heartbeat_at in
    option_cases P tracker (λ _ h. absurd (not_empty e l h))
      (λ t _.
        if_cases P (is_vnode w.node || not (is_active w.node.status))
          (λ _ h. absurd (not_empty e l h))
          (λ able.
            if_cases P (not (is_due (get_tracker_heartbeat_interval w.node) (now net w) last))
              (λ _ h. absurd (not_empty e l h))
              (λ due.
                if_cases P (is_after w1.node.last_tracker_heartbeat_at last)
                  (λ _ h. absurd (not_empty e l h))
                  (λ kept h. record {
                    working = ground (arith, able);
                    anchor = ground (arith, able);
                    rested =
                        Rested-is_due (get_tracker_heartbeat_interval w.node) (now net w) last
                          (net.others w.calls w.node).last_tracker_heartbeat_at
                          (ground (arith, due)) kept;
                    beat = compose net os tracker rtts refresh version peers (now net w) n;
                    sent = sym (ap (first e) h);
                    small = length-batch-le rtts (now net w) (batch_limit n) peers;
                  }))))
