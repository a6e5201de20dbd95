-- ===== src/Task/Timers/Tests.antt =====
-- Two threads asleep, and a third one.
use neuclear.Base.{ℕ, Bool, true, List, [], ◌∷◌}
use neuclear.Task.Timers.{TaskManager, TimerCondVar}

abbrev timers : List TimerCondVar
timers = record { expire_ms = 10; thread = 1 } ∷ record { expire_ms = 30; thread = 2 } ∷ []

abbrev manager : TaskManager
manager = record { ready_queue = 9 ∷ [] }

abbrev all_alive : ℕ → Bool
all_alive thread = true
