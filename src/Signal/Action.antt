-- ===== src/Signal/Action.antt =====
-- What sigaction does.
use neuclear.Base.{
  ℕ, ◌%◌, ◌<◌, ◌≤◌, ◌≡◌, ◌≢◌, refl, sym, ◌∙◌, ap, ◌⊎◌, Bool, true, false, arith, ◌==◌, ltb, set,
  length, length-set, get_elem?-in, get_elem?-set_self, get_elem?-set_ne,
}
use neuclear.Base.Int.{pos}
use neuclear.Base.Outcome.{ok, err, einval, unwrap}
use neuclear.Signal.{
  Signal, SignalAction, SignalHandlers, action, set_action, sigset_size, sigkill, sigstop,
  try_from_primitive, ActionState, load, save, set_new, save_old, change, sys_sigaction, put_at,
  put_at_same, put_at_apart, IsApart,
}

-- There is an action for each of the 64 signals.
abbrev pub IsFull : SignalHandlers → Type 0
IsFull h = length h.actions ≡ sigset_size

-- The actions are full, so none is out of bounds: a new action is the one found then, and the others
-- are as they were.
set_action-IsFull :
    (h : SignalHandlers) (signal : Signal) (new_action : SignalAction)
    → IsFull h
    → signal < sigset_size
    → (h' : SignalHandlers) × (set_action h signal new_action ≡ ok h')
      × IsFull h'
      × (action h' signal ≡ ok new_action)
      × ((other : Signal) → other ≢ signal → action h' other ≡ action h other)
unfolding set_action action
set_action-IsFull h signal new_action full small =
    let within : signal < length h.actions = omega (arith, full) in
    let test : ltb signal (length h.actions) ≡ true = ground arith in
    (
      record { actions = set h.actions signal new_action },
      rw test refl,
      length-set h.actions signal new_action ∙ full,
      ap unwrap (get_elem?-set_self h.actions signal new_action within),
      λ other ne. ap unwrap (get_elem?-set_ne h.actions signal other new_action (λ e. ne (sym e))),
    )

action-IsFull :
    (h : SignalHandlers) (signal : Signal)
    → IsFull h
    → signal < sigset_size
    → (a : SignalAction) × (action h signal ≡ ok a)
unfolding action
action-IsFull h signal full small =
    let (a, e) = get_elem?-in h.actions signal (omega (arith, full)) in (a, ap unwrap e)

module _ (can_read can_write : ℕ → Bool) where
  abbrev swapped :
      ActionState can_read can_write
      → ℕ
      → SignalAction
      → SignalHandlers
      → ActionState can_read can_write
  swapped s old_act old handlers = record {
    memory = put_at s.memory old_act old;
    handlers = handlers;
  }

  change_result :
      (s : ActionState can_read can_write) (signum act old_act : ℕ) (old : SignalAction)
      (h' : SignalHandlers)
      → act ≢ 0
      → old_act ≢ 0
      → IsApart s.memory act old_act
      → can_read act ≡ true
      → can_write old_act ≡ true
      → action s.handlers signum ≡ ok old
      → set_action s.handlers signum (s.memory.at act) ≡ ok h'
      → change can_read can_write signum act old_act s ≡ (ok (pos 0), swapped s old_act old h')
  unfolding change set_new save_old save load
  change_result s signum act old_act old h' act_given old_given apart reads writes found stored =
      let old_some : (old_act == 0) ≡ false = ground arith in
      let act_some : (act == 0) ≡ false = ground arith in
      let other = put_at_apart s.memory old_act old act apart in
      rw
        (
          change, save_old, save, set_new, load, old_some, found, writes, act_some, reads, other,
          stored,
        )
        refl

  sys_sigaction_allowed :
      (s : ActionState can_read can_write) (signum act old_act : ℕ)
      → signum < sigset_size
      → signum ≢ sigkill
      → signum ≢ sigstop
      → sys_sigaction can_read can_write signum act old_act s
        ≡ change can_read can_write signum act old_act s
  unfolding sys_sigaction try_from_primitive
  sys_sigaction_allowed s signum act old_act small not_kill not_stop =
      let same : signum % 256 ≡ signum = omega arith in
      let test : ltb signum 64 ≡ true = ground arith in
      let kill : (signum == sigkill) ≡ false = ground arith in
      let stop : (signum == sigstop) ≡ false = ground arith in
      rw (sys_sigaction, try_from_primitive, same, test, kill, stop) refl

  -- For a signal that may be changed, with handlers for all 64 signals and two valid pointers to actions
  -- that have no byte in common: sigaction returns 0, the old action stands at `old_act`, the signal has
  -- the action that `act` points to, every other signal keeps its own, every action in memory that has
  -- no byte in common with the one at `old_act` is as it was, and the handlers stay full.
  pub sys_sigaction-swaps :
      (s : ActionState can_read can_write) (signum act old_act : ℕ)
      → IsFull s.handlers
      → signum < sigset_size
      → signum ≢ sigkill
      → signum ≢ sigstop
      → act ≢ 0
      → old_act ≢ 0
      → IsApart s.memory act old_act
      → can_read act ≡ true
      → can_write old_act ≡ true
      → let (result, s') = sys_sigaction can_read can_write signum act old_act s in
        (result ≡ ok (pos 0))
        × (action s.handlers signum ≡ ok (s'.memory.at old_act))
        × (action s'.handlers signum ≡ ok (s.memory.at act))
        × ((other : Signal) → other ≢ signum → action s'.handlers other ≡ action s.handlers other)
        × ((q : ℕ) → IsApart s.memory q old_act → s'.memory.at q ≡ s.memory.at q)
        × IsFull s'.handlers
  sys_sigaction-swaps s signum act old_act full small not_kill not_stop act_given old_given apart
        reads writes =
      let (old, found) = action-IsFull s.handlers signum full small in
      let (h', stored, full', now, others) =
        set_action-IsFull s.handlers signum (s.memory.at act) full small in
      let e : sys_sigaction can_read can_write signum act old_act s
          ≡ (ok (pos 0), swapped s old_act old h') =
        sys_sigaction_allowed s signum act old_act small not_kill not_stop
        ∙ change_result s signum act old_act old h' act_given old_given apart reads writes found
            stored in
      rw e (
        refl,
        found ∙ ap ok (sym (put_at_same s.memory old_act old)),
        now,
        others,
        put_at_apart s.memory old_act old,
        full',
      )

  -- The error is EINVAL, and nothing changes, for a number whose low byte is no signal, is SIGKILL or
  -- is SIGSTOP.
  pub sys_sigaction-refused :
      (s : ActionState can_read can_write) (signum act old_act : ℕ)
      → (sigset_size ≤ signum % 256) ⊎ (signum % 256 ≡ sigkill) ⊎ (signum % 256 ≡ sigstop)
      → sys_sigaction can_read can_write signum act old_act s ≡ (err einval, s)
  unfolding sys_sigaction try_from_primitive
  sys_sigaction-refused s signum act old_act bad = ground arith
