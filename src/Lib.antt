-- ===== src/Lib.antt =====
-- The Chord node of internal/chord, the verification of requests of internal/auth, the HTTP interface of
-- internal/httpapi and the client of internal/client.
--
-- A node keeps its predecessor, its successor, a list of successors and a table of 160 fingers on a
-- ring of 2 ^ 160 places. Its maintenance (internal/chord/maintenance.go) stabilizes the successor,
-- validates the successor list, checks the predecessor, repairs fingers and joins again when it stands
-- alone, by calls to peers; its handlers (internal/chord/protocol.go and lookup.go) answer the same calls
-- of the peers; caches (routing_cache.go, shared_resources.go, rtt_cache.go) stand beside it. A request
-- is signed by the signer of internal/auth, sent by internal/client, passes the verifier of internal/auth
-- at its target, and reaches a handler by the routes of internal/httpapi.
--
-- Base         lists, texts and tests that all modules share
-- Id           internal/chord/id.go: identifiers, `FingerStart` and the two interval tests
-- Store        the map with a `container/list` of its keys under the caches
-- Types        internal/chord/types.go and errors.go
-- RoutingCache internal/chord/routing_cache.go
-- Shared       internal/chord/shared_resources.go
-- RttCache     internal/chord/rtt_cache.go
-- Node         internal/chord/node.go: the state of a node
-- Creation     `NewNode`
-- Views        the answers of `State`, `InvariantReport`, `FingerTable` and the other reports of node.go
-- Uri          `NormalizeURI`, `HashURI`, `NewNodeInfoFromURI` and `ValidateNodeInfo`
-- SuccessorList `mergeSuccessorListLocked` and `successorListViolations`
-- World        a node among its peers: `PeerClient`, the calls made, and the logs
-- Failures     `markFailure` and `markSuccess`
-- Liveness     `pingLiveness`, `fetchSuccessorState` and `rectifyPeer`
-- Validation   `validateSuccessorList`
-- Stabilize    `Stabilize`
-- Rectify      `HandleRectify` and `CheckPredecessor`
-- Join         `HandleJoin`, `ActivateSingleNode` and `joinNetworkWithSeeds`
-- Leave        `HandleLeave` and `GracefulLeave`
-- Recovery     `tryRecoverFromIsolation` with its five paths, `JoinNetwork` and
--              `retryBootstrapIfSingleton`
-- Lookup       `HandleFindSuccessor`, `closestPrecedingNode`, and in Lookup/Iterative
--              `LookupSuccessor`, `lookupIterative` and `lookupParallel`; Lookup/Bits is about the
--              length of a number
-- Proofs       internal/chord/vnode_proof.go
-- Fingers      `exponentialJumpIndex` and `nextKFingerIndices`; Fingers/Repair is `FixFingers`,
--              `repairFingerIndices` and the warm-up
-- Maintenance  `MaintenanceCycle`, `HealthCheckRing`, the rounds of the loops and their intervals;
--              Maintenance/Modes is `runModeManager`
-- Tracker      `SnapshotHeartbeat` and `ReportToTracker`
-- Auth         internal/auth: Nonces is nonce_cache.go, Certificates is cert.go and cert_cache.go, Crl
--              is crl.go, Verifier is verifier.go, Signer is signer.go, Int64 the wrapping integers of
--              its times
-- Client       internal/client/chord_client.go and json.go
-- Server       internal/httpapi/server.go and errors.go
-- Tests        a ring of three nodes and an example of each theorem below
--
-- Operations are functions from a state to a result and a state. A function that holds the lock of
-- the node throughout is a function of `Node`. One that calls peers is a function of `World`, over a
-- `Net` that says what the n-th call returns and what the other goroutines do to the node meanwhile
-- (`others`), since the code holds no lock while it waits. `calls` numbers the calls; the logs `heard`
-- and `sent` are kept for the statements alone. The goroutines of a batch of repairs and the loops of the
-- maintenance take their turns one after the other; the mode manager is a step relation, in which they
-- come in any order. What stands outside the repository is a parameter:
-- `net/url`, `net` and SHA-1 in `Platform`, the scores of routing candidates, which are floats, in
-- `Scoring`, and those of round-trip times in `Floats`; Ed25519, base64, JSON and `strconv` in `Crypto`,
-- `Ed25519` and `Encoder`; the bodies of requests in `Decoder`, the exchange with a host in `Http`, the
-- tracker in `Reporter` and in the `Tracker` of Recovery, and the choice of a route by `ServeMux`. The
-- order in which a `range` meets the entries of a map is a parameter `visit`, and the order in which the
-- answers to a parallel lookup arrive a field of `Net`. Go's errors are `none`, `false`, `refuse` or
-- `refused`.
--
-- Loops are structural, but for two. The digits of a number are written with one unit of fuel for each
-- unit of the number and one more; the bits of a distance are counted the same way. Both stop at zero,
-- which they reach sooner, because they divide. The walk of a lookup counts down from `MaxHops`, as the
-- loop of the source does, and `sampleFingers` has one turn for each index of the table.
--
-- Not modelled: the configuration, logging, the programs cmd/node and tools/ca, which are input and
-- output for the most part; the tracker's HTTP in internal/client/tracker_client.go; the
-- record of round-trip times at each call; tickers, their jitter and the start of the goroutines; and
-- reading and signing the revocation list.
pub mod Base
pub mod Id
pub mod Store
pub mod Types
pub mod RoutingCache
pub mod Node
pub mod SuccessorList
pub mod Tests
pub mod Uri
pub mod World
pub mod Failures
pub mod Liveness
pub mod Validation
pub mod Stabilize
pub mod Rectify
pub mod Lookup
pub mod Leave
pub mod Auth
pub mod Shared
pub mod Fingers
pub mod Proofs
pub mod Join
pub mod Recovery
pub mod Maintenance
pub mod RttCache
pub mod Views
pub mod Server
pub mod Tracker
pub mod Client
pub mod Creation
