-- ===== src/Lookup/Iterative/Walk.antt =====
-- The walk of a lookup is bounded.
use chord_dht.Base.{
  ℕ, zero, suc, ◌+◌, ◌≤◌, ◌≡◌, refl, ap, ◌∙◌, true, not, ◌&&◌, ltb, Option, none, some, List, [],
  ◌∷◌, ◌++◌, Bytes, has, length, length-take-le, arith, if◌then◌else◌, if_cases, option_cases,
  list_cases,
}
use chord_dht.Id.{validate_id}
use chord_dht.Lookup.{Scoring, recall, collect_candidates, top_k_closest_preceding}
use chord_dht.Lookup.Iterative.{
  ask, finish, follow, use_answer, hops, ask_all, first_named, parallel_candidates,
  parallel_request, settle, lookup_parallel, lookup_iterative, race, lookup_successor,
}
use chord_dht.RoutingCache.{RoutingEntry}
use chord_dht.Node.{Node, Options, identity}
use chord_dht.Types.{
  NodeInfo, FindSuccessorRequest, FindSuccessorResponse, Reply, reply, refuse, core,
}
use chord_dht.World.{Net, World, Keeps, passed, with_node, now}

-- The requests that a parallel lookup may send at once.
abbrev pub width_of : Options → ℕ
width_of o =
    if o.parallel_lookup_enabled && ltb 1 o.parallel_lookup_candidates
    then o.parallel_lookup_candidates
    else 0

module _ {F : Type 0} (sc : Scoring F)
    (visit : List (Bytes × RoutingEntry) → List (Bytes × RoutingEntry)) (hints : List (Bytes × ℕ))
    (net : Net) where
  ask-calls :
      (current : NodeInfo) (req : FindSuccessorRequest) (w : World)
      → (ask sc visit hints net current req w).1.calls ≤ suc w.calls
  unfolding ask
  ask-calls current req w = ground arith

  use_answer-calls :
      (id : Bytes) (current : NodeInfo) (a : Reply FindSuccessorResponse)
      (next : NodeInfo → World → Reply NodeInfo × World) (w : World) (n : ℕ)
      → ((c : NodeInfo) → (next c w).1.calls ≤ w.calls + n)
      → (use_answer sc visit hints net id current a next w).1.calls ≤ w.calls + n
  unfolding use_answer finish follow
  use_answer-calls id current (refuse e) next w n h = ground arith
  use_answer-calls id current (reply r) next w n h =
      let P : Reply NodeInfo × World → Type 0 = λ a. a.1.calls ≤ w.calls + n in
      if_cases P r.found (λ _. option_cases P r.successor (λ _. ground arith) (λ s _. ground arith))
        (λ _. option_cases P r.next_hop (λ _. ground arith) (λ c _. h _))

  abbrev request : ℕ → Bytes → List Bytes → World → FindSuccessorRequest
  request hop id visited w = record {
    id = id;
    hop_count = hop;
    max_hops = w.node.options.max_hops;
    visited_nodes = visited;
    requester_region = [];
    prefer_region = [];
  }

  hops-calls :
      (left hop : ℕ) (id : Bytes) (visited : List Bytes) (current : NodeInfo) (w : World)
      → (hops sc visit hints net left hop id visited current w).1.calls ≤ w.calls + left
  unfolding hops
  hops-calls zero hop id visited current w = ground arith
  hops-calls (suc left) hop id visited current w =
      let P : Reply NodeInfo × World → Type 0 = λ a. a.1.calls ≤ w.calls + suc left in
      if_cases P (has current.node_id visited) (λ _. ground arith)
        (λ _. ground (
          arith,
          ask-calls current (request hop id visited w) w,
          use_answer-calls id current
              (ask sc visit hints net current (request hop id visited w) w).0
              (hops sc visit hints net left (suc hop) id (visited ++ (current.node_id ∷ [])))
              (ask sc visit hints net current (request hop id visited w) w).1 left
              (λ c.
                hops-calls left (suc hop) id (visited ++ (current.node_id ∷ [])) c
                  (ask sc visit hints net current (request hop id visited w) w).1),
        ))

  recall-options :
      (when : ℕ) (id : Bytes) (n : Node) → (recall sc visit when id n).1.options ≡ n.options
  unfolding recall
  recall-options when id n =
      option_cases {A = Option NodeInfo × Node} (λ a. a.1.options ≡ n.options) n.routing_cache
        (λ _. refl) (λ _ _. refl)

  ask_all-calls :
      (req : FindSuccessorRequest) (l : List NodeInfo) (w : World)
      → (ask_all sc visit hints net req l w).1.calls ≤ w.calls + length l
  unfolding ask_all
  ask_all-calls req [] w = ground arith
  ask_all-calls req (c ∷ l) w = ground (arith, ask_all-calls req l (passed net w))

  ask_all-options :
      Keeps net
      → (req : FindSuccessorRequest) (l : List NodeInfo) (w : World)
      → (ask_all sc visit hints net req l w).1.node.options ≡ w.node.options
  unfolding ask_all
  ask_all-options keeps req [] w = refl
  ask_all-options keeps req (c ∷ l) w =
      if_cases {A = List (Reply FindSuccessorResponse) × World}
        (λ r. r.1.node.options ≡ w.node.options) net.has_client
        (λ _. ask_all-options keeps req l (passed net w) ∙ keeps.keeps_options w.calls w.node)
        (λ _. refl)

  lookup_iterative-calls :
      (id : Bytes) (w : World)
      → (lookup_iterative sc visit hints net id w).1.calls ≤ w.calls + w.node.options.max_hops
  unfolding lookup_iterative
  lookup_iterative-calls id w =
      hops-calls w.node.options.max_hops 0 id [] (core (identity w.node)) w

  settle-calls :
      (id self_id : Bytes) (s : Option NodeInfo) (w : World)
      → (settle sc visit hints net id self_id s w).1.calls ≤ w.calls + w.node.options.max_hops
  unfolding settle
  settle-calls id self_id none w = lookup_iterative-calls id w
  settle-calls id self_id (some s) w = ground arith

  lookup_parallel-calls :
      Keeps net
      → (id : Bytes) (w : World) → ltb 1 w.node.options.parallel_lookup_candidates ≡ true
      → (lookup_parallel sc visit hints net id w).1.calls
        ≤ w.calls + w.node.options.parallel_lookup_candidates + w.node.options.max_hops
  unfolding lookup_parallel race parallel_candidates top_k_closest_preceding
  lookup_parallel-calls keeps id w wide =
      let k = w.node.options.parallel_lookup_candidates in
      let P : Reply NodeInfo × World → Type 0 =
        λ r. r.1.calls ≤ w.calls + k + w.node.options.max_hops in
      let l = parallel_candidates sc visit hints net id w.node in
      let req = parallel_request sc visit hints net id w.node in
      let (answers, w1) = ask_all sc visit hints net req l w in
      list_cases P l (λ _. ground (arith, lookup_iterative-calls id w))
        (λ c r _. ground (
          arith,
          wide,
          settle-calls id w.node.self.node_id
              (first_named sc visit hints net (net.arrived w.calls answers)) w1,
          ask_all-calls req l w,
          ap (λ o. o.max_hops) (ask_all-options keeps req l w),
          length-take-le (if ltb 0 k then k else 3)
              (collect_candidates (core w.node.self) id w.node.fingers w.node.successor_list),
        ))

  -- If the other goroutines keep the options of the node, a lookup makes at most as many calls as the
  -- configured numbers of hops and, where parallel lookups are on, of candidates, whatever the peers
  -- answer.
  pub lookup_successor-calls :
      Keeps net
      → (id : Bytes) (w : World)
      → (lookup_successor sc visit hints net id w).1.calls
        ≤ w.calls + width_of w.node.options + w.node.options.max_hops
  unfolding lookup_successor
  lookup_successor-calls keeps id w =
      let P : Reply NodeInfo × World → Type 0 =
        λ a. a.1.calls ≤ w.calls + width_of w.node.options + w.node.options.max_hops in
      let n = (recall sc visit (now net w) id w.node).1 in
      let kept = recall-options (now net w) id w.node in
      let o = n.options in
      if_cases P (not (validate_id id)) (λ _. ground arith)
        (λ _.
          option_cases P (recall sc visit (now net w) id w.node).0
            (λ _.
              if_cases P (o.parallel_lookup_enabled && ltb 1 o.parallel_lookup_candidates)
                (λ on. ground (
                  arith,
                  on,
                  kept,
                  lookup_parallel-calls keeps id (with_node n w) (ground (arith, on)),
                ))
                (λ _. ground (arith, kept, lookup_iterative-calls id (with_node n w))))
            (λ s _. ground arith))
