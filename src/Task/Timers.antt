-- ===== src/Task/Timers.antt =====
-- The ready queue of kernel/crates/major/src/task/manager.rs and the sleeping threads of
-- kernel/crates/major/src/task/time.rs. The binary heap of timers is a list in the order in which the
-- heap gives them out; where two expire together the heap promises no order, and the list has the
-- one that was added first in front. Whether a thread's process still exists is a parameter.
pub mod Expiry
mod Tests
use neuclear.Base.{
  ℕ, ◌+◌, ◌^◌, Bool, true, false, List, [], ◌∷◌, ◌++◌, Option, none, some, leb, ltb, if◌then◌else◌,
  add64, sub64,
}

pub record TaskManager : Type 0 where
  pub ready_queue : List ℕ

unfoldable pub add : TaskManager → ℕ → TaskManager
add m task = record { ready_queue = m.ready_queue ++ task ∷ [] }

unfoldable pub fetch : TaskManager → Option ℕ × TaskManager
fetch m = elim m.ready_queue [
  | [] ↦ (none, m)
  | task ∷ rest ↦ (some task, record { ready_queue = rest })
]

pub record TimerCondVar : Type 0 where
  pub expire_ms : ℕ
  pub thread : ℕ

-- `partial_cmp` compares -(expire_ms as isize); adding 2^63 makes an isize a usize of the same order.
pub priority : TimerCondVar → ℕ
priority t = add64 (sub64 0 t.expire_ms) (2 ^ 63)

unfoldable pub push_timer : TimerCondVar → List TimerCondVar → List TimerCondVar
unfolding priority
push_timer t [] = t ∷ []
push_timer t (u ∷ timers) =
    let rest = push_timer t timers in
    if ltb (priority u) (priority t) then t ∷ u ∷ timers else u ∷ rest

unfoldable pub add_timer : ℕ → ℕ → List TimerCondVar → List TimerCondVar
unfolding push_timer
add_timer expire_ms thread timers =
    push_timer (record { expire_ms = expire_ms; thread = thread }) timers

-- The loop of `check_timer`.
unfoldable pub expire :
    (ℕ → Bool) → ℕ → List TimerCondVar → TaskManager → List TimerCondVar × TaskManager
unfolding add
expire alive now [] m = ([], m)
expire alive now (t ∷ timers) m =
    let popped = expire alive now timers (if alive t.thread then add m t.thread else m) in
    if leb t.expire_ms now then popped else (t ∷ timers, m)

abbrev pub is_empty_timers : List TimerCondVar → Bool
is_empty_timers [] = true
is_empty_timers (t ∷ timers) = false

-- The answer is whether no timer is left.
unfoldable pub check_timer :
    (ℕ → Bool) → ℕ → List TimerCondVar → TaskManager → List TimerCondVar × TaskManager × Bool
unfolding expire
check_timer alive now timers m =
    let (left, m') = expire alive now timers m in (left, m', is_empty_timers left)
