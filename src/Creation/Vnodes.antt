-- ===== src/Creation/Vnodes.antt =====
-- How a virtual node names itself to its peers.
use mathlib.Core.List.{Memᴰ}
use mathlib.Core.List.Memᴰ
use mathlib.Core.Option.{none-ne-some}
use mathlib.Core.Path.{subst}
use chord_dht.Base.{
  some_inj, ℕ, ◌≡◌, ◌≢◌, ◌⊎◌, inl, inr, List, ◌∷◌, All, refl, sym, ap, ◌∙◌, Bool, true, false, not,
  ◌&&◌, Option, some, [], Bytes, same, same_iff, is_empty, ltb, arith, if_cases, option_cases,
  Bool-cases,
}
use chord_dht.Creation.{self_info, new_node, blank, new_fingers}
use chord_dht.Creation.Outcomes.{outcome_cases, is_ok, ok_inj}
use chord_dht.Id.{Outcome, ok, m, validate_id}
use chord_dht.Node.{Node, Options}
use chord_dht.Proofs.{Ed25519, derive_vnode_id}
use chord_dht.Rectify.{handle_rectify}
use chord_dht.Stabilize.{start, stabilize}
use chord_dht.Stabilize.Described.{stabilize-Ok}
use chord_dht.Stabilize.Sent.{Describes}
use chord_dht.Types.{NodeInfo, Reply, refuse, api_error, invalid_request, RectifyResponse}
use chord_dht.Uri.{Platform, normalize_uri, hash_uri, validate_node_info}
use chord_dht.World.{Net, World, Message, rectify_sent, notify_sent}

-- A description without an anchor is accepted only under the hash of its URI.
valid-hashed :
    (os : Platform) (node : NodeInfo)
    → node.anchor_id ≡ []
    → validate_node_info os node ≡ true
    → (u : Bytes) × (normalize_uri os node.uri ≡ some u) × (os.sha1_hex u ≡ node.node_id)
unfolding validate_node_info hash_uri
valid-hashed os node alone =
    let G = (u : Bytes) × (normalize_uri os node.uri ≡ some u) × (os.sha1_hex u ≡ node.node_id) in
    let P : Bool → Type 0 = λ b. b ≡ true → G in
    let anchored : not (is_empty node.anchor_id) ≡ false = ap (λ a. not (is_empty a)) alone in
    if_cases P (not (validate_id node.node_id)) (λ _ e. ground arith)
      (λ _.
        option_cases P (normalize_uri os node.uri) (λ _ e. ground arith)
          (λ u found.
            if_cases P (not (same u node.uri)) (λ _ e. ground arith)
              (λ _.
                if_cases P (not (is_empty node.anchor_id)) (λ yes e. ground (arith, yes, anchored))
                  (λ _.
                    rw found
                      (λ e. (u, refl, ground (arith, same_iff (os.sha1_hex u) node.node_id, e)))))))

module _ (os : Platform) (ed : Ed25519) where
  new_node_self :
      (uri : Bytes) (o : Options) (region : Bytes) (now : ℕ) (n : Node)
      → new_node os ed uri o region now ≡ ok n
      → (self : NodeInfo) × (self_info os ed uri o ≡ some self)
        × (n.self ≡ record self { region = region })
  unfolding new_node blank
  new_node_self uri o region now n =
      let G =
        (self : NodeInfo) × (self_info os ed uri o ≡ some self)
        × (n.self ≡ record self { region = region }) in
      option_cases {A = Outcome Node} (λ q. q ≡ ok n → G) (self_info os ed uri o)
        (λ _ e. ground (arith, ap is_ok e))
        (λ self found.
          outcome_cases {B = Outcome Node} (λ q. q ≡ ok n → G) (new_fingers self 0 m)
            (λ e. ground (arith, ap is_ok e)) (λ e. ground (arith, ap is_ok e))
            (λ fingers _ e. (self, found, sym (ap (λ (q : Node). q.self) (ok_inj e)))))

  self_info-virtual :
      (uri : Bytes) (o : Options) (self : NodeInfo)
      → (not (is_empty o.anchor_id) && ltb 0 o.vnode_index) ≡ true
      → self_info os ed uri o ≡ some self
      → (self.node_id ≡ derive_vnode_id ed o.anchor_id o.vnode_index) × (self.anchor_id ≡ [])
  unfolding self_info
  self_info-virtual uri o self virtual =
      let G =
        (self.node_id ≡ derive_vnode_id ed o.anchor_id o.vnode_index) × (self.anchor_id ≡ []) in
      if_cases {A = Option NodeInfo} (λ q. q ≡ some self → G)
        (not (is_empty o.anchor_id) && ltb 0 o.vnode_index)
        (λ _.
          option_cases {A = Option NodeInfo} (λ q. q ≡ some self → G) (normalize_uri os uri)
            (λ _ e. absurd (none-ne-some self e))
            (λ u _ e.
              let same_self = some_inj e in
              (sym (ap (λ q. q.node_id) same_self), sym (ap (λ q. q.anchor_id) same_self))))
        (λ no. ground (arith, virtual, no))

  rectify-invalid :
      (net : Net) (node : NodeInfo) (w : World)
      → validate_node_info os node ≡ false
      → ((handle_rectify os net node w).0 ≡ refuse (api_error 400 invalid_request))
        × ((handle_rectify os net node w).1 ≡ w)
  unfolding handle_rectify
  rectify-invalid net node w bad =
      let P : Reply RectifyResponse × World → Type 0 =
        λ a. (a.0 ≡ refuse (api_error 400 invalid_request)) × (a.1 ≡ w) in
      if_cases P (not (validate_node_info os node)) (λ _. (refl, refl))
        (λ yes. ground (arith, bad, yes))

  mem-Describes :
      (x : NodeInfo) (l : List Message) (m : Message)
      → All (Describes x) l
      → Memᴰ m l
      → Describes x m
  mem-Describes x (y ∷ l) m (h, hs) there = elim (Memᴰ.cases_cons there) [
    | inl here ↦ subst (Describes x) (sym here) h
    | inr later ↦ mem-Describes x l m hs later
  ]
  mem-Describes x [] m h there = absurd (Memᴰ.not-nil there)

  -- A description by the derived name and without the anchor, which every peer refuses as invalid,
  -- without a change.
  pub record IsRefused (o : Options) (node : NodeInfo) : Type 0 where
    pub derived : node.node_id ≡ derive_vnode_id ed o.anchor_id o.vnode_index
    pub alone : node.anchor_id ≡ []
    pub refused :
        (peers : Net) (v : World)
        → (handle_rectify os peers node v).0 ≡ refuse (api_error 400 invalid_request)
    pub same_peer : (peers : Net) (v : World) → (handle_rectify os peers node v).1 ≡ v

  with_cert-IsRefused :
      (uri : Bytes) (o : Options) (region : Bytes) (now : ℕ) (n later : Node) (net : Net)
      → (not (is_empty o.anchor_id) && ltb 0 o.vnode_index) ≡ true
      → new_node os ed uri o region now ≡ ok n
      → later.self ≡ n.self
      → ((u : Bytes)
          → normalize_uri os n.self.uri ≡ some u
          → os.sha1_hex u ≢ derive_vnode_id ed o.anchor_id o.vnode_index)
      → IsRefused o (start os net later).with_cert
  with_cert-IsRefused uri o region now n later net virtual made kept apart =
      let (self, found, named) = new_node_self uri o region now n made in
      let (id, alone) = self_info-virtual uri o self virtual found in
      let sent = (start os net later).with_cert in
      let sent_id : sent.node_id ≡ derive_vnode_id ed o.anchor_id o.vnode_index =
        ap (λ q. q.node_id) (kept ∙ named) ∙ id in
      let sent_alone : sent.anchor_id ≡ [] = ap (λ q. q.anchor_id) (kept ∙ named) ∙ alone in
      let bad : validate_node_info os sent ≡ false =
        elim (Bool-cases (validate_node_info os sent)) [
          | inr bad ↦ bad
          | inl sound ↦
              let (u, normal, hashed) = valid-hashed os sent sent_alone sound in
              absurd
                (apart u (ap (λ q. normalize_uri os q.uri) (sym kept) ∙ normal) (hashed ∙ sent_id))
        ] in
      record {
        derived = sent_id;
        alone = sent_alone;
        refused = λ peers v. (rectify-invalid peers sent v bad).0;
        same_peer = λ peers v. (rectify-invalid peers sent v bad).1;
      }

  -- A virtual node that `NewNode` made, at any later time that keeps its identity, describes itself in
  -- every rectify request and every notification of a stabilization by its derived name and without its
  -- anchor. Unless its URI has that name as its digest, every peer refuses such a request as invalid
  -- and changes nothing.
  pub vnode_rectify-IsRefused :
      (uri : Bytes) (o : Options) (region : Bytes) (now : ℕ) (n : Node) (net : Net) (w : World)
      → (not (is_empty o.anchor_id) && ltb 0 o.vnode_index) ≡ true
      → new_node os ed uri o region now ≡ ok n
      → w.node.self ≡ n.self
      → w.sent ≡ []
      → ((u : Bytes)
          → normalize_uri os n.self.uri ≡ some u
          → os.sha1_hex u ≢ derive_vnode_id ed o.anchor_id o.vnode_index)
      → (id : Bytes) (node : NodeInfo)
      → Memᴰ (rectify_sent id node) (stabilize os net w).sent
        ⊎ Memᴰ (notify_sent id node) (stabilize os net w).sent
      → IsRefused o node
  vnode_rectify-IsRefused uri o region now n net w virtual made kept quiet apart id node there =
      let x = (start os net w.node).with_cert in
      let told = stabilize-Ok os net w (subst (All (Describes x)) (sym quiet) tt) in
      let same_node : node ≡ x = elim there [
        | inl rectify ↦
            mem-Describes x (stabilize os net w).sent (rectify_sent id node) told rectify
        | inr notify ↦ mem-Describes x (stabilize os net w).sent (notify_sent id node) told notify
      ] in
      subst (IsRefused o) (sym same_node)
        (with_cert-IsRefused uri o region now n w.node net virtual made kept apart)
