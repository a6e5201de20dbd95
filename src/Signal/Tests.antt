-- ===== src/Signal/Tests.antt =====
-- Runs of the calls on signals: addresses from 0x1000 on can be read and written.
use neuclear.Base.{ℕ, ◌≡◌, ◌≢◌, refl, inl, Bool, ◌||◌, arith, ◌==◌, leb}
use neuclear.Base.Int.{pos}
use neuclear.Base.Outcome.{ok}
use neuclear.Signal.{
  Signal, SignalAction, handlers_new, receiver_new, no_signals, action, ActionState, MaskState,
  sys_sigaction, sys_sigprocmask, Memory, IsApart,
}
use neuclear.Signal.Action.{IsFull, sys_sigaction-swaps}
use neuclear.Signal.Mask.{block_and_restore}

abbrev mapped : ℕ → Bool
mapped = leb 0x1000

abbrev new_action : SignalAction
new_action = record { handler = 0x10000; flags = 0; restorer = 0; mask = no_signals }

-- Objects that all are the same, where one that overlaps with a written one reads as that one.
abbrev filled_with : {A : Type 0} → ℕ → A → Memory A
filled_with n a = record { at = λ q. a; last = n; overlap = λ at ptr b q. b }

abbrev start : ActionState mapped mapped
start = record { memory = filled_with 31 new_action; handlers = handlers_new }

full : IsFull handlers_new
full = refl

sys_sigaction-swaps_example :
    let (result, s') = sys_sigaction mapped mapped 2 0x1000 0x2000 start in
    (result ≡ ok (pos 0))
    × (action handlers_new 2 ≡ ok (s'.memory.at 0x2000))
    × (action s'.handlers 2 ≡ ok new_action)
    × ((other : Signal) → other ≢ 2 → action s'.handlers other ≡ action handlers_new other)
    × ((q : ℕ) → IsApart start.memory q 0x2000 → s'.memory.at q ≡ new_action)
    × IsFull s'.handlers
sys_sigaction-swaps_example =
    sys_sigaction-swaps mapped mapped start 2 0x1000 0x2000 full (omega arith) (omega arith)
      (omega arith) (omega arith) (omega arith) (inl (omega arith)) refl refl

abbrev thread : MaskState mapped mapped
thread = record { memory = filled_with 7 (λ k. k == 15); receiver = receiver_new }

block_and_restore_example :
    let (first, s1) = sys_sigprocmask mapped mapped 0 0x1000 0x2000 8 thread in
    let (second, s2) = sys_sigprocmask mapped mapped 2 0x2000 0 8 s1 in
    (first ≡ ok (pos 0))
    × (second ≡ ok (pos 0))
    × ((k : ℕ) → s1.receiver.mask k ≡ (no_signals k || (k == 15)))
    × ((k : ℕ) → s2.receiver.mask k ≡ no_signals k)
    × (s2.receiver.received ≡ no_signals)
block_and_restore_example =
    block_and_restore mapped mapped thread 0x1000 0x2000 (omega arith) (omega arith)
      (inl (omega arith)) refl refl refl
