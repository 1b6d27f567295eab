-- ===== src/World.antt =====
-- A node among its peers. The peers, the tracker and the clock are parameters: `Net` says what each
-- call returns, by the number of the call, so that two calls may be answered differently. A node
-- holds no lock while it waits for a peer, so at each call the other goroutines may change it:
-- `others` says how.
use chord_dht.Base.{ℕ, suc, Bool, Option, List, ◌∷◌, Bytes, ◌≡◌}
use chord_dht.Node.{Node}
use chord_dht.Types.{
  NodeInfo, FindSuccessorRequest, FindSuccessorResponse, JoinResponse, RemoteState, Reply,
  LeaveRequest,
}

-- `PeerClient` of internal/chord/types.go, whose errors are `none` or `false`.
pub record Net : Type 0 where
  pub has_client : Bool
  pub ping : ℕ → Bytes → Bool
  pub ping_liveness : ℕ → Bytes → Bool
  pub ping_with_latency : ℕ → Bytes → Option ℕ
  pub find_successor : ℕ → NodeInfo → FindSuccessorRequest → Reply FindSuccessorResponse
  pub join : ℕ → Bytes → NodeInfo → Option JoinResponse
  pub notify : ℕ → NodeInfo → NodeInfo → Bool
  pub rectify : ℕ → NodeInfo → NodeInfo → Bool
  pub state : ℕ → NodeInfo → Option RemoteState
  pub predecessor : ℕ → NodeInfo → Option (Option NodeInfo)
  pub successor_list : ℕ → NodeInfo → Option (List NodeInfo)
  pub leave : ℕ → NodeInfo → LeaveRequest → Bool
  -- The order in which the answers to calls made at once arrive.
  pub arrived : ℕ → List (Reply FindSuccessorResponse) → List (Reply FindSuccessorResponse)
  pub others : ℕ → Node → Node
  pub clock : ℕ → ℕ

-- What a node sends without reading an answer.
pub data Message : Type 0 where
  rectify_sent notify_sent : Bytes → NodeInfo → Message
  leave_sent : Bytes → LeaveRequest → Message
  deregister_sent register_sent : Message

-- `calls` counts the calls made. Two logs, which the program does not keep, serve the statements:
-- the identifiers of the peers that answered a ping or a state call, and the messages sent.
pub record World : Type 0 where
  pub node : Node
  pub calls : ℕ
  pub heard : List Bytes
  pub sent : List Message

-- The other goroutines leave the identity and the options of the node as they are.
pub record Keeps (net : Net) : Type 0 where
  pub keeps_id : (k : ℕ) (n : Node) → (net.others k n).self.node_id ≡ n.self.node_id
  pub keeps_options : (k : ℕ) (n : Node) → (net.others k n).options ≡ n.options

abbrev pub now : Net → World → ℕ
now net w = net.clock w.calls

-- A call has been made: time for the others.
abbrev pub passed : Net → World → World
passed net w = record w { node = net.others w.calls w.node; calls = suc w.calls }

abbrev pub answered : Bytes → World → World
answered id w = record w { heard = id ∷ w.heard }

abbrev pub with_node : Node → World → World
with_node n w = record w { node = n }

abbrev pub log : Message → World → World
log m w = record w { sent = m ∷ w.sent }
