-- ===== src/Signal.antt =====
-- kernel/crates/signal/src and the calls sigaction and sigprocmask of
-- kernel/crates/major/src/trap/syscall/process.rs. A `Signal` is its number; a `SignalSet` is the 64 bits
-- of a u64. User memory is the object that is read at each address, with the layout of the objects,
-- which is the compiler's: how long they are, and what is read where one overlaps with another that is
-- written. What check_ptr and check_ptr_mut answer for an address are parameters.
pub mod Action
pub mod Mask
mod Tests
use neuclear.Base.{
  ℕ, ◌+◌, ◌%◌, Bool, true, false, not, ◌&&◌, ◌||◌, List, Option, none, some, ◌==◌, ltb,
  if◌then◌else◌, get_elem?, ==_refl, ◌<◌, ◌⊎◌, inl, inr, ◌≡◌, refl, arith, set, replicate, length,
}
use neuclear.Base.Int.{ℤ, pos}
use neuclear.Base.Outcome.{Outcome, ok, err, panic, ◌>>=◌, unwrap, ok_or, Error, einval, efault}

abbrev pub sigset_size : ℕ
sigset_size = 64

abbrev pub SignalSet : Type 0
SignalSet = ℕ → Bool

unfoldable pub no_signals : SignalSet
no_signals k = false

unfoldable pub insert : SignalSet → SignalSet → SignalSet
insert a b k = a k || b k

unfoldable pub remove : SignalSet → SignalSet → SignalSet
remove a b k = a k && not (b k)

abbrev pub Signal : Type 0
Signal = ℕ

abbrev pub sigkill : Signal
sigkill = 9

abbrev pub sigstop : Signal
sigstop = 19

-- Every number below 64 is a signal.
unfoldable pub try_from_primitive : ℕ → Option Signal
try_from_primitive n = if ltb n 64 then some n else none

pub record SignalAction : Type 0 where
  pub handler : ℕ
  pub flags : ℕ
  pub restorer : ℕ
  pub mask : SignalSet

abbrev pub action_new : SignalAction
action_new = record { handler = 0; flags = 0; restorer = 0; mask = no_signals }

pub record SignalHandlers : Type 0 where
  pub actions : List SignalAction

abbrev pub handlers_new : SignalHandlers
handlers_new = record { actions = replicate sigset_size action_new }

pub clear : SignalHandlers → SignalHandlers
clear h = record { actions = replicate (length h.actions) action_new }

pub action : SignalHandlers → Signal → Outcome SignalAction
action h signal = unwrap (get_elem? h.actions signal)

pub set_action : SignalHandlers → Signal → SignalAction → Outcome SignalHandlers
set_action h signal new_action =
    if ltb signal (length h.actions)
    then ok (record { actions = set h.actions signal new_action })
    else panic

pub record SignalReceiver : Type 0 where
  pub mask : SignalSet
  pub received : SignalSet

abbrev pub receiver_new : SignalReceiver
receiver_new = record { mask = no_signals; received = no_signals }

-- `SignalReceiver::clear`
pub receiver_clear : SignalReceiver → SignalReceiver
receiver_clear r = record { mask = no_signals; received = no_signals }

-- What is read at each address; the offset of an object's last byte; and what is read, once an object
-- has been written to an address, at another address close to it.
pub record Memory (A : Type 0) : Type 0 where
  pub at : ℕ → A
  pub last : ℕ
  pub overlap : (ℕ → A) → ℕ → A → ℕ → A

-- The objects at the two addresses have no byte in common.
abbrev pub IsApart : {A : Type 0} → Memory A → ℕ → ℕ → Type 0
IsApart memory p q = (p + memory.last < q) ⊎ (q + memory.last < p)

unfoldable pub read_at : {A : Type 0} → Memory A → ℕ → A → ℕ → A
read_at memory ptr a q =
    if q == ptr
    then a
    else (if ltb (q + memory.last) ptr || ltb (ptr + memory.last) q
        then memory.at q
        else memory.overlap memory.at ptr a q)

abbrev pub put_at : {A : Type 0} → Memory A → ℕ → A → Memory A
put_at memory ptr a = record memory { at = read_at memory ptr a }

pub put_at_same :
    {A : Type 0} (memory : Memory A) (ptr : ℕ) (a : A) → (put_at memory ptr a).at ptr ≡ a
unfolding read_at
put_at_same memory ptr a = rw (==_refl ptr) refl

pub put_at_apart :
    {A : Type 0} (memory : Memory A) (ptr : ℕ) (a : A) (q : ℕ)
    → IsApart memory q ptr
    → (put_at memory ptr a).at q ≡ memory.at q
unfolding read_at
put_at_apart memory ptr a q (inl h) = ground arith
put_at_apart memory ptr a q (inr h) = ground arith

module _ (can_read can_write : ℕ → Bool) where
  -- `if !old.is_null() { *check_ptr_mut(old)? = value; }`
  unfoldable pub save : {A : Type 0} → ℕ → A → Memory A → Outcome (Memory A)
  save old value memory =
      if old == 0
      then ok memory
      else (if can_write old then ok (put_at memory old value) else err efault)

  -- `check_ptr(ptr)?`, and the object there.
  pub load : {A : Type 0} → ℕ → Memory A → Outcome A
  load ptr memory = if can_read ptr then ok (memory.at ptr) else err efault

  pub record ActionState : Type 0 where
    pub memory : Memory SignalAction
    pub handlers : SignalHandlers

  -- What is returned, and the state, which an error may leave changed.
  set_new : Signal → ℕ → ActionState → Outcome ℤ × ActionState
  set_new signal act s = if act == 0 then (ok (pos 0), s) else elim (load act s.memory) [
    | err e ↦ (err e, s)
    | panic ↦ (panic, s)
    | ok new_action ↦ elim (set_action s.handlers signal new_action) [
      | err e ↦ (err e, s)
      | panic ↦ (panic, s)
      | ok handlers ↦ (ok (pos 0), record s { handlers = handlers })
    ]
  ]

  save_old : Signal → ℕ → ActionState → Outcome ActionState
  save_old signal old_act s = if old_act == 0 then ok s else (do
    old ← action s.handlers signal
    memory ← save old_act old s.memory
    ok (record s { memory = memory }))

  change : Signal → ℕ → ℕ → ActionState → Outcome ℤ × ActionState
  unfolding set_new save_old
  change signal act old_act s = elim (save_old signal old_act s) [
    | err e ↦ (err e, s)
    | panic ↦ (panic, s)
    | ok s' ↦ set_new signal act s'
  ]

  pub sys_sigaction : ℕ → ℕ → ℕ → ActionState → Outcome ℤ × ActionState
  unfolding change
  sys_sigaction signum act old_act s = elim (try_from_primitive (signum % 256)) [
    | none ↦ (err einval, s)
    | some signal ↦
        if signal == sigkill || signal == sigstop
        then (err einval, s)
        else change signal act old_act s
  ]

  pub record MaskState : Type 0 where
    pub memory : Memory SignalSet
    pub receiver : SignalReceiver

  -- 0 is SIG_BLOCK, 1 is SIG_UNBLOCK, 2 is SIG_SETMASK.
  new_mask : ℕ → SignalSet → SignalSet → Outcome SignalSet
  new_mask how mask set =
      if how == 0
      then ok (insert mask set)
      else (if how == 1 then ok (remove mask set) else (if how == 2 then ok set else err einval))

  set_mask : ℕ → ℕ → MaskState → Outcome ℤ × MaskState
  unfolding new_mask
  set_mask how set s =
      if set == 0
      then (ok (pos 0), s)
      else elim (load set s.memory >>= new_mask how s.receiver.mask) [
        | err e ↦ (err e, s)
        | panic ↦ (panic, s)
        | ok mask ↦ (ok (pos 0), record s { receiver = record s.receiver { mask = mask } })
      ]

  pub sys_sigprocmask : ℕ → ℕ → ℕ → ℕ → MaskState → Outcome ℤ × MaskState
  unfolding set_mask
  sys_sigprocmask how set old_set sigsetsize s =
      if sigsetsize == 8
      then elim (save old_set s.receiver.mask s.memory) [
        | err e ↦ (err e, s)
        | panic ↦ (panic, s)
        | ok memory ↦ set_mask how set (record s { memory = memory })
      ]
      else (err einval, s)
