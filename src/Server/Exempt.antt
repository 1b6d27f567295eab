-- ===== src/Server/Exempt.antt =====
-- What can be reached without authentication.
use mathlib.Core.Path.{subst⁻¹}
use chord_dht.Auth.Certificates.{Crypto}
use chord_dht.Auth.Verifier.{Verifier, Request, admitted, middleware}
use chord_dht.Base.{
  ℕ, ◌≡◌, refl, sym, ap, ◌∙◌, Bool, true, false, ◌==◌, Option, some, List, [], ◌∷◌, ◌++◌, Bytes,
  Bytes-discrete, codes, same, All, any, arith, if◌then◌else◌, if_cases, option_cases,
}
use chord_dht.Lookup.{Scoring}
use chord_dht.Node.{Node, identity, is_vnode}
use chord_dht.RoutingCache.{RoutingEntry}
use chord_dht.Server.{
  NodePool, Operation, identity_op, state_op, ping_op, find_successor_op, predecessor_op, notify_op,
  rectify_op, successor_list_op, join_op, leave_op, finger_table_op, rtt_op, status_op,
  invariant_op, transfer_keys_op, transfer_ack_op, vnode_info_op, list_vnodes_op, name_of,
  node_operations, Route, routes_under, base_of, routes_of, routes_of_all, handler_routes,
  after_slash, exempt_name, exempt_paths,
}
use chord_dht.Server.Handlers.{Decoder, Host, Answer, handle, dispatch, resolve, serve}
use chord_dht.Uri.{Platform}
use chord_dht.World.{Net}

-- The four operations that need no authentication.
abbrev pub is_public : Operation → Bool
is_public ping_op = true
is_public identity_op = true
is_public rtt_op = true
is_public status_op = true
is_public _ = false

abbrev pub SlashFree : Bytes → Type 0
SlashFree id = any (λ x. x == 47) id ≡ false

after_slash_lem : (id rest : Bytes) → SlashFree id → after_slash (id ++ (47 ∷ rest)) ≡ some rest
unfolding after_slash
after_slash_lem [] rest h = refl
after_slash_lem (x ∷ id) rest h = ground (arith, after_slash_lem id rest, h)

name_of-public :
    (op : Operation)
    → (exempt_paths (codes "/chord/" ++ name_of op) ≡ is_public op)
      × (exempt_name (name_of op) ≡ is_public op)
unfolding exempt_paths after_slash Bytes-discrete
name_of-public identity_op = (refl, refl)
name_of-public state_op = (refl, refl)
name_of-public ping_op = (refl, refl)
name_of-public find_successor_op = (refl, refl)
name_of-public predecessor_op = (refl, refl)
name_of-public notify_op = (refl, refl)
name_of-public rectify_op = (refl, refl)
name_of-public successor_list_op = (refl, refl)
name_of-public join_op = (refl, refl)
name_of-public leave_op = (refl, refl)
name_of-public finger_table_op = (refl, refl)
name_of-public rtt_op = (refl, refl)
name_of-public status_op = (refl, refl)
name_of-public invariant_op = (refl, refl)
name_of-public transfer_keys_op = (refl, refl)
name_of-public transfer_ack_op = (refl, refl)
name_of-public vnode_info_op = (refl, refl)
name_of-public list_vnodes_op = (refl, refl)

append_slash : (id name : Bytes) → (id ++ (47 ∷ [])) ++ name ≡ id ++ (47 ∷ name)
append_slash [] name = refl
append_slash (x ∷ id) name = ap (λ l. x ∷ l) (append_slash id name)

nested-exempt :
    (id name : Bytes) → SlashFree id → exempt_paths (base_of id ++ name) ≡ exempt_name name
unfolding exempt_paths Bytes-discrete
nested-exempt id name h = rw (append_slash id name, exempt_paths, after_slash_lem id name h) refl

module _ {F : Type 0} (sc : Scoring F)
    (visit : List (Bytes × RoutingEntry) → List (Bytes × RoutingEntry)) (hints : List (Bytes × ℕ))
    (net : Net) (os : Platform) (cr : Crypto) (json : Decoder) (pool : NodePool) where
  -- A `GET` leaves the host as it is.
  handle-public :
      (op : Operation) (when : ℕ) (r : Request) (h : Host)
      → is_public op ≡ true
      → (handle sc visit hints net os cr json pool op when r h).1 ≡ h
  unfolding handle
  handle-public identity_op when r h e =
      if_cases {A = Answer × Host} (λ a. a.1 ≡ h) (same r.method (codes "GET")) (λ _. refl)
        (λ _. refl)
  handle-public state_op when r h e = ground (arith, e)
  handle-public ping_op when r h e =
      if_cases {A = Answer × Host} (λ a. a.1 ≡ h) (same r.method (codes "GET")) (λ _. refl)
        (λ _. refl)
  handle-public find_successor_op when r h e = ground (arith, e)
  handle-public predecessor_op when r h e = ground (arith, e)
  handle-public notify_op when r h e = ground (arith, e)
  handle-public rectify_op when r h e = ground (arith, e)
  handle-public successor_list_op when r h e = ground (arith, e)
  handle-public join_op when r h e = ground (arith, e)
  handle-public leave_op when r h e = ground (arith, e)
  handle-public finger_table_op when r h e = ground (arith, e)
  handle-public rtt_op when r h e =
      if_cases {A = Answer × Host} (λ a. a.1 ≡ h) (same r.method (codes "GET")) (λ _. refl)
        (λ _. refl)
  handle-public status_op when r h e =
      if_cases {A = Answer × Host} (λ a. a.1 ≡ h) (same r.method (codes "GET")) (λ _. refl)
        (λ _. refl)
  handle-public invariant_op when r h e = ground (arith, e)
  handle-public transfer_keys_op when r h e = ground (arith, e)
  handle-public transfer_ack_op when r h e = ground (arith, e)
  handle-public vnode_info_op when r h e = ground (arith, e)
  handle-public list_vnodes_op when r h e = ground (arith, e)

  middleware-exempt :
      (v : Verifier) (r : Request) (when : ℕ)
      → exempt_paths r.path ≡ true
      → middleware os cr exempt_paths v r when ≡ (admitted, v)
  unfolding middleware
  middleware-exempt v r when exempt = rw exempt refl

  serve-public :
      (op : Operation) (when : ℕ) (r : Request) (h : Host)
      → is_public op ≡ true
      → exempt_paths r.path ≡ true
      → (serve sc visit hints net os cr json pool (some op) when r h).1 ≡ h
  unfolding serve resolve dispatch
  serve-public op when r h public exempt =
      option_cases {A = Answer × Host} (λ a. a.1 ≡ h) h.verifier
        (λ _. handle-public op when r h public)
        (λ v stored.
          let kept : record h { verifier = some v } ≡ h =
            ap {A = Option Verifier} (λ o. record h { verifier = o }) (sym stored) in
          subst⁻¹ (λ d. (resolve sc visit hints net os cr json pool (some op) when r h d).1 ≡ h)
            (middleware-exempt v r when exempt)
            (handle-public op when r (record h { verifier = some v }) public ∙ kept))

  -- What an exempt path of a route reaches changes nothing.
  abbrev pub Harmless : Route → Type 0
  Harmless route =
      exempt_paths route.pattern ≡ true
      → (when : ℕ) (r : Request) (h : Host) → r.path ≡ route.pattern
      → (serve sc visit hints net os cr json pool (some route.operation) when r h).1 ≡ h

  route-Harmless :
      (base id : Bytes) (op : Operation)
      → exempt_paths (base ++ name_of op) ≡ is_public op
      → Harmless (record { pattern = base ++ name_of op; node_id = id; operation = op })
  route-Harmless base id op public exempt when r h path =
      serve-public op when r h (sym public ∙ exempt) (ap exempt_paths path ∙ exempt)

  routes_under-Harmless :
      (base id : Bytes) (l : List Operation)
      → ((op : Operation) → exempt_paths (base ++ name_of op) ≡ is_public op)
      → All Harmless (routes_under base id l)
  unfolding routes_under
  routes_under-Harmless base id [] k = tt
  routes_under-Harmless base id (op ∷ l) k =
      (route-Harmless base id op (k op), routes_under-Harmless base id l k)

  All-append : (l l' : List Route) → All Harmless l → All Harmless l' → All Harmless (l ++ l')
  All-append [] l' h k = k
  All-append (x ∷ l) l' (h, hs) k = (h, All-append l l' hs k)

  abbrev Named : Node → Type 0
  Named n = SlashFree (identity n).node_id

  routes_of-Harmless : (n : Node) → Named n → All Harmless (routes_of n)
  unfolding routes_of
  routes_of-Harmless n named =
      let id = (identity n).node_id in
      let extra = (if is_vnode n then vnode_info_op else list_vnodes_op) ∷ [] in
      let public =
        λ (op : Operation). nested-exempt id (name_of op) named ∙ (name_of-public op).1 in
      All-append (routes_under (base_of id) id node_operations) (routes_under (base_of id) id extra)
        (routes_under-Harmless (base_of id) id node_operations public)
        (routes_under-Harmless (base_of id) id extra public)

  routes_of_all-Harmless : (l : List Node) → All Named l → All Harmless (routes_of_all l)
  unfolding routes_of_all
  routes_of_all-Harmless [] h = tt
  routes_of_all-Harmless (n ∷ l) (h, hs) =
      All-append (routes_of n) (routes_of_all l) (routes_of-Harmless n h)
        (routes_of_all-Harmless l hs)

  -- If no identifier of a node holds a slash, then every route whose path needs no authentication leaves
  -- the node and the verifier as they are, whatever the request is.
  pub handler_routes-Harmless :
      (p : NodePool) → All Named (p.anchor ∷ p.vnodes) → All Harmless (handler_routes p)
  unfolding handler_routes
  handler_routes-Harmless p named =
      All-append (routes_under (codes "/chord/") (identity p.anchor).node_id node_operations)
        (routes_of_all (p.anchor ∷ p.vnodes))
        (routes_under-Harmless (codes "/chord/") (identity p.anchor).node_id node_operations
          (λ op. (name_of-public op).0))
        (routes_of_all-Harmless (p.anchor ∷ p.vnodes) named)
