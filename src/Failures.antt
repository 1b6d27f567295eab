-- ===== src/Failures.antt =====
-- Failure tracking: `markFailure` and `markSuccess` of internal/chord/maintenance.go.
pub mod Counting
pub mod Eviction
use chord_dht.Base.{
  ℕ, ◌+◌, Bool, true, false, not, ◌&&◌, List, [], ◌∷◌, Bytes, same, leb, ltb, if◌then◌else◌, keep,
  map,
}
use chord_dht.Node.{Node}
use chord_dht.Types.{NodeInfo, FingerEntry, FingerStatus, fresh, suspicious, unknown, core}

abbrev pub update : (Bytes → ℕ) → Bytes → ℕ → Bytes → ℕ
update f id v other = if same other id then v else f other

-- What happens to a finger that points at a peer: forgotten, suspected or cleared.
unfoldable pub forget : Bytes → NodeInfo → FingerEntry → FingerEntry
forget id self f =
    if same f.node.node_id id
    then record f { node = core self; status = unknown; valid = false }
    else f

unfoldable pub suspect : Bytes → FingerEntry → FingerEntry
suspect id f = if same f.node.node_id id then record f { status = suspicious; valid = false } else f

unfoldable pub clear : Bytes → FingerEntry → FingerEntry
clear id f = if same f.node.node_id id then record f { status = fresh } else f

unfoldable pub without : Bytes → List NodeInfo → List NodeInfo
without id l = keep (λ n. not (same n.node_id id)) l

-- The count of failures, whether the peer was evicted, and the new state.
unfoldable pub mark_failure : Bytes → Node → (ℕ × Bool) × Node
mark_failure id n =
    let count = n.failures id + 1 in
    let counted = record n { failures = update n.failures id count } in
    if leb n.options.failed_threshold count && ltb 0 n.options.failed_threshold
    then (
      (count, true),
      record counted {
        fingers = map (forget id n.self) n.fingers;
        successor_list = without id n.successor_list;
      },
    )
    else ((count, false), record counted { fingers = map (suspect id) n.fingers })

unfoldable pub mark_success : Bytes → Node → Node
mark_success id n = record n {
  failures = update n.failures id 0;
  fingers = map (clear id) n.fingers;
}
