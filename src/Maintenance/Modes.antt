-- ===== src/Maintenance/Modes.antt =====
-- `switchMode` and `runModeManager` of internal/chord/maintenance.go: a signal of a topology change
-- makes the maintenance active, a window without one makes it quiet. The goroutine, its timer and the
-- goroutines that send the signal take their steps in any order.
use chord_dht.Base.{ℕ, ◌+◌, ◌≤◌, ◌≡◌, ◌⊎◌, inl, inr, true, false, ltb, if◌then◌else◌, arith}
use chord_dht.Node.{Node, emit_topology_change}
use chord_dht.Types.{MaintenanceMode, active_maintenance, quiet_maintenance}

unfoldable pub switch_mode : MaintenanceMode → Node → Node
switch_mode mode n = record n { maintenance_mode = mode }

-- `TopologyChangeWindow`, or two minutes.
unfoldable pub window_of : Node → ℕ
window_of n =
    if ltb 0 n.options.topology_change_window
    then n.options.topology_change_window
    else 120_000_000_000

-- The node, the time, and the time at which `quietTimer` fires.
pub record Manager : Type 0 where
  pub node : Node
  pub now : ℕ
  pub due : ℕ

unfoldable pub start_manager : ℕ → Node → Manager
start_manager now n = record { node = n; now = now; due = now + window_of n }

-- The two cases of the `select`.
unfoldable pub on_change : ℕ → Manager → Manager
on_change window s = record s {
  node = record (switch_mode active_maintenance s.node) {
    last_change_time = s.now;
    topology_change = false;
  };
  due = s.now + window;
}

unfoldable pub on_quiet : ℕ → Manager → Manager
on_quiet window s = record s { node = switch_mode quiet_maintenance s.node; due = s.now + window }

-- Time passes, another goroutine sends a signal, or one of the cases is taken.
pub data Step (window : ℕ) : Manager → Manager → Type 0 where
  waits : (s : Manager) (later : ℕ) → s.now ≤ later → Step window s (record s { now = later })
  signals : (s : Manager) → Step window s (record s { node = emit_topology_change s.node })
  changes : (s : Manager) → s.node.topology_change ≡ true → Step window s (on_change window s)
  quiets : (s : Manager) → s.due ≤ s.now → Step window s (on_quiet window s)

pub data Reach (window : ℕ) (s : Manager) : Manager → Type 0 where
  here : Reach window s s
  next : {t u : Manager} → Reach window s t → Step window t u → Reach window s u

-- The timer fires a window after the last change or later; and while the mode is quiet there was no
-- change, or the last one is a window ago.
pub record IsTimed (window : ℕ) (s : Manager) : Type 0 where
  pub armed : s.node.last_change_time + window ≤ s.due
  pub past : s.node.last_change_time ≤ s.now
  pub rested :
      s.node.maintenance_mode ≡ quiet_maintenance
      → (s.node.last_change_time ≡ 0) ⊎ (s.node.last_change_time + window ≤ s.now)

Step-IsTimed : {window : ℕ} {s t : Manager} → Step window s t → IsTimed window s → IsTimed window t
unfolding on_change on_quiet switch_mode emit_topology_change
Step-IsTimed (waits s later le) h = record {
  armed = h.armed;
  past = ground (arith, le, h.past);
  rested = λ quiet. ground (arith, le, h.rested quiet);
}
Step-IsTimed (signals s) h = record { armed = h.armed; past = h.past; rested = h.rested }
Step-IsTimed (changes s e) h = record {
  armed = ground arith;
  past = ground arith;
  rested = λ quiet. ground (arith, quiet);
}
Step-IsTimed (quiets s due) h = record {
  armed = ground (arith, h.past);
  past = h.past;
  rested = λ quiet. inr (ground (arith, due, h.armed));
}

Reach-IsTimed :
    {window : ℕ} {s t : Manager} → IsTimed window s → Reach window s t → IsTimed window t
Reach-IsTimed h here = h
Reach-IsTimed h (next r one) = Step-IsTimed one (Reach-IsTimed h r)

-- From the start of the manager of a node without a change so far, in whatever order time, signals and
-- the two cases come: while the mode is quiet there has been no change, or the last one that was
-- handled lies a whole window back.
pub quiet-rested :
    (start : ℕ) (n : Node) (s : Manager)
    → n.last_change_time ≡ 0
    → Reach (window_of n) (start_manager start n) s
    → s.node.maintenance_mode ≡ quiet_maintenance
    → (s.node.last_change_time ≡ 0) ⊎ (s.node.last_change_time + window_of n ≤ s.now)
unfolding start_manager
quiet-rested start n s fresh r =
    let begun : IsTimed (window_of n) (start_manager start n) = record {
      armed = ground (arith, fresh);
      past = ground (arith, fresh);
      rested = λ quiet. inl fresh;
    } in
    (Reach-IsTimed begun r).rested
