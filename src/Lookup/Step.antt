-- ===== src/Lookup/Step.antt =====
-- The routing step: what `HandleFindSuccessor` answers.
use chord_dht.Base.{
  ℕ, ◌+◌, ◌<◌, ◌≡◌, ◌≢◌, inl, inr, ap, true, false, not, ◌||◌, Option, some, List, Bytes, same, has,
  arith, option_cases, leb, if_cases, same_iff,
}
use chord_dht.Id.{ring_size, id_to_big, in_range_open_closed, validate_id}
use chord_dht.Id.Arc.{arc}
use chord_dht.Id.Digits.{id_to_big-lt}
use chord_dht.Id.Fingers.{in_range_open_open_iff}
use chord_dht.Node.{Node}
use chord_dht.RoutingCache.{RoutingEntry}
use chord_dht.Types.{
  NodeInfo, FindSuccessorRequest, FindSuccessorResponse, Reply, reply, core, is_leaving,
  is_isolated,
}
use chord_dht.Lookup.{
  Scoring, closest_preceding_node, route, recall, hop_limit, handle_find_successor,
}
use chord_dht.Lookup.Candidates.{Between, closest_preceding_node-Between}

-- A step inside the interval shortens the walk to the target.
arc-step :
    (s t c : ℕ)
    → s < ring_size
    → t < ring_size
    → c < ring_size
    → arc s c < arc s t
    → arc c t < arc s t
arc-step s t c hs ht hc h = ground arith

Between-shorter :
    (self_id target : Bytes) (c : NodeInfo) {s t p : ℕ}
    → id_to_big self_id ≡ some s
    → id_to_big target ≡ some t
    → id_to_big c.node_id ≡ some p
    → Between self_id target c
    → arc p t < arc s t
Between-shorter self_id target c {s} {t} {p} hs ht hp (filled, inside) =
    arc-step s t p (id_to_big-lt self_id s hs) (id_to_big-lt target t ht)
      (id_to_big-lt c.node_id p hp)
      ((in_range_open_open_iff c.node_id self_id target hp hs ht).0 inside)

-- What a forwarding answer says: the next hop is another node, with a place on the ring, from which
-- the walk to the target is shorter than from this node; the hop is counted; the target is not the
-- successor's; and this node is not leaving, not isolated and not visited before.
pub record IsForward (n : Node) (req : FindSuccessorRequest) (r : FindSuccessorResponse)
    : Type 0 where
  pub next : NodeInfo
  pub next_is : r.next_hop ≡ some next
  pub between : Between n.self.node_id req.id next
  pub counted : r.hop_count ≡ req.hop_count + 1
  pub not_mine :
      (same n.successor.node_id n.self.node_id ≡ false)
      × (in_range_open_closed req.id n.self.node_id n.successor.node_id ≡ false)
  pub here :
      (is_leaving n.status ≡ false)
      × (is_isolated n.status ≡ false)
      × (has n.self.node_id req.visited_nodes ≡ false)

abbrev Forwards : Node → FindSuccessorRequest → Reply FindSuccessorResponse → Type 0
Forwards n req a = (r : FindSuccessorResponse) → a ≡ reply r → r.found ≡ false → IsForward n req r

clash : (a b : Bytes) → same a b ≡ false → a ≢ b
clash a b h e = ground (arith, same_iff a b)

route-IsForward :
    {F : Type 0} (sc : Scoring F) (when : ℕ) (hints : List (Bytes × ℕ)) (req : FindSuccessorRequest)
    (n : Node)
    → Forwards n req (route sc when hints req n).0
unfolding route
route-IsForward sc when hints req n =
    let next = closest_preceding_node sc n.region (core n.self) req.id n.fingers n.successor_list in
    let P : Reply FindSuccessorResponse × Node → Type 0 = λ a. Forwards n req a.0 in
    if_cases P (is_leaving n.status) (λ _ r e f. ground arith)
      (λ active.
        if_cases P (is_isolated n.status) (λ _ r e f. ground arith)
          (λ joined.
            if_cases P (has n.self.node_id req.visited_nodes) (λ _ r e f. ground arith)
              (λ fresh.
                if_cases P
                  (same n.successor.node_id n.self.node_id
                    || in_range_open_closed req.id n.self.node_id n.successor.node_id)
                  (λ _ r e f. ground arith)
                  (λ far.
                    if_cases P (same next.node_id n.self.node_id) (λ _ r e f. ground arith)
                      (λ other r e f. record {
                        next = next;
                        next_is = ground arith;
                        between =
                            elim (closest_preceding_node-Between sc n.region (core n.self) req.id
                              n.fingers n.successor_list) [
                                | inl (_, alone) ↦
                                    elim (clash next.node_id n.self.node_id other
                                      (ap (λ x. x.node_id) alone)) [ ]
                                | inr inside ↦ inside
                              ];
                        counted = ground arith;
                        not_mine = (ground arith, ground arith);
                        here = (active, joined, fresh);
                      })))))

recall-IsForward :
    {F : Type 0} (sc : Scoring F)
    (visit : List (Bytes × RoutingEntry) → List (Bytes × RoutingEntry)) (when : ℕ) (target : Bytes)
    (n : Node) (req : FindSuccessorRequest) (r : FindSuccessorResponse)
    → IsForward (recall sc visit when target n).1 req r
    → IsForward n req r
unfolding recall
recall-IsForward sc visit when target n req r =
    option_cases {A = Option NodeInfo × Node} (λ a. IsForward a.1 req r → IsForward n req r)
      n.routing_cache (λ _ h. h)
      (λ c _ h. record {
        next = h.next;
        next_is = h.next_is;
        between = h.between;
        counted = h.counted;
        not_mine = h.not_mine;
        here = h.here;
      })

-- When `HandleFindSuccessor` forwards, the request is sound and has hops left, the next hop has a
-- name and lies strictly between this node and the target, the hop is counted, the target does not
-- lie between the node and its successor, and the node is neither leaving nor isolated nor visited
-- before.
pub handle_find_successor-IsForward :
    {F : Type 0} (sc : Scoring F)
    (visit : List (Bytes × RoutingEntry) → List (Bytes × RoutingEntry)) (when : ℕ)
    (hints : List (Bytes × ℕ)) (req : FindSuccessorRequest) (n : Node) (r : FindSuccessorResponse)
    → (handle_find_successor sc visit when hints req n).0 ≡ reply r
    → r.found ≡ false
    → (validate_id req.id ≡ true)
      × (leb (hop_limit sc req n) req.hop_count ≡ false)
      × IsForward n req r
unfolding handle_find_successor
handle_find_successor-IsForward sc visit when hints req n r =
    let n1 = (recall sc visit when req.id n).1 in
    let Goal =
      (validate_id req.id ≡ true)
      × (leb (hop_limit sc req n) req.hop_count ≡ false)
      × IsForward n req r in
    let P : Reply FindSuccessorResponse × Node → Type 0 =
      λ a. a.0 ≡ reply r → r.found ≡ false → Goal in
    if_cases P (not (validate_id req.id)) (λ _ e f. ground arith)
      (λ sound.
        if_cases P (leb (hop_limit sc req n) req.hop_count) (λ _ e f. ground arith)
          (λ hops.
            option_cases P (recall sc visit when req.id n).0
              (λ _ e f. (
                ground arith,
                hops,
                recall-IsForward sc visit when req.id n req r
                    (route-IsForward sc when hints req n1 r e f),
              ))
              (λ s _ e f. ground arith)))
