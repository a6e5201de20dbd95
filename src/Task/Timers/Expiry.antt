-- ===== src/Task/Timers/Expiry.antt =====
-- Which timers expire.
use neuclear.Base.{ℕ, ◌^◌, ◌<◌, ◌≤◌, Bool, ◌&&◌, List, [], ◌∷◌, leb, if◌then◌else◌}
use neuclear.Task.Timers.{TimerCondVar}

-- In order of expiry, from `from` on and below 2^63 milliseconds.
abbrev pub Ordered : ℕ → List TimerCondVar → Type 0
Ordered from [] = Unit
Ordered from (t ∷ timers) =
    (from ≤ t.expire_ms) × (t.expire_ms < 2 ^ 63) × Ordered t.expire_ms timers

-- The threads of the timers that have expired, if their process exists.
abbrev pub woken : (ℕ → Bool) → ℕ → List TimerCondVar → List ℕ
woken alive now [] = []
woken alive now (t ∷ timers) =
    if leb t.expire_ms now && alive t.thread
    then t.thread ∷ woken alive now timers
    else woken alive now timers

abbrev pub pending : ℕ → List TimerCondVar → List TimerCondVar
pending now [] = []
pending now (t ∷ timers) =
    if leb t.expire_ms now then pending now timers else t ∷ pending now timers
