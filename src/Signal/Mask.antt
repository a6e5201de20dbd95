-- ===== src/Signal/Mask.antt =====
-- What sigprocmask does to the mask of a thread.
use neuclear.Base.{ℕ, ◌≡◌, ◌≢◌, refl, ◌∙◌, ap, Bool, true, false, ◌||◌, ◌⊎◌, ◌<◌, arith, ◌==◌}
use neuclear.Base.Int.{pos}
use neuclear.Base.Outcome.{ok, err, einval}
use neuclear.Signal.{
  SignalSet, insert, MaskState, load, save, new_mask, set_mask, sys_sigprocmask, put_at,
  put_at_same, put_at_apart, IsApart, Memory,
}

module _ (can_read can_write : ℕ → Bool) where
  abbrev pub Masks : Type 0
  Masks = MaskState can_read can_write

  abbrev with_mask : Masks → Memory SignalSet → SignalSet → Masks
  with_mask s memory mask = record { memory = memory; receiver = record s.receiver { mask = mask } }

  set_mask_result :
      (how set : ℕ) (s : Masks) (mask : SignalSet)
      → set ≢ 0
      → can_read set ≡ true
      → new_mask can_read can_write how s.receiver.mask (s.memory.at set) ≡ ok mask
      → set_mask can_read can_write how set s ≡ (ok (pos 0), with_mask s s.memory mask)
  unfolding set_mask load
  set_mask_result how set s mask given reads e =
      let some_set : (set == 0) ≡ false = ground arith in
      rw (set_mask, load, some_set, reads, e) refl

  -- With a valid place for the old mask, which has no byte in common with the new one.
  saved_result :
      (how set old : ℕ) (s : Masks) (mask : SignalSet)
      → set ≢ 0
      → old ≢ 0
      → IsApart s.memory set old
      → can_read set ≡ true
      → can_write old ≡ true
      → new_mask can_read can_write how s.receiver.mask (s.memory.at set) ≡ ok mask
      → sys_sigprocmask can_read can_write how set old 8 s
        ≡ (ok (pos 0), with_mask s (put_at s.memory old s.receiver.mask) mask)
  unfolding sys_sigprocmask save
  saved_result how set old s mask set_given old_given apart reads writes e =
      let some_old : (old == 0) ≡ false = ground arith in
      let unchanged = put_at_apart s.memory old s.receiver.mask set apart in
      rw (sys_sigprocmask, save, some_old, writes)
        (set_mask_result how set (record s { memory = put_at s.memory old s.receiver.mask }) mask
          set_given reads (ap (new_mask can_read can_write how s.receiver.mask) unchanged ∙ e))

  -- With no place for the old mask.
  unsaved_result :
      (how set : ℕ) (s : Masks) (mask : SignalSet)
      → set ≢ 0
      → can_read set ≡ true
      → new_mask can_read can_write how s.receiver.mask (s.memory.at set) ≡ ok mask
      → sys_sigprocmask can_read can_write how set 0 8 s ≡ (ok (pos 0), with_mask s s.memory mask)
  unfolding sys_sigprocmask save
  unsaved_result how set s mask given reads e = set_mask_result how set s mask given reads e

  abbrev blocked : Masks → ℕ → ℕ → Masks
  blocked s set old =
      with_mask s (put_at s.memory old s.receiver.mask) (insert s.receiver.mask (s.memory.at set))

  -- A critical section: SIG_BLOCK of a set that saves the old mask, and then SIG_SETMASK of what was
  -- saved. Both return 0; in between exactly the signals of the set and those blocked before are
  -- blocked; and at the end the mask and the received signals are those of the start. The two
  -- sets are at valid addresses and have no byte in common.
  pub block_and_restore :
      (s : Masks) (set old : ℕ)
      → set ≢ 0
      → old ≢ 0
      → IsApart s.memory set old
      → can_read set ≡ true
      → can_read old ≡ true
      → can_write old ≡ true
      → let (first, s1) = sys_sigprocmask can_read can_write 0 set old 8 s in
        let (second, s2) = sys_sigprocmask can_read can_write 2 old 0 8 s1 in
        (first ≡ ok (pos 0))
        × (second ≡ ok (pos 0))
        × ((k : ℕ) → s1.receiver.mask k ≡ (s.receiver.mask k || s.memory.at set k))
        × ((k : ℕ) → s2.receiver.mask k ≡ s.receiver.mask k)
        × (s2.receiver.received ≡ s.receiver.received)
  unfolding new_mask insert
  block_and_restore s set old set_given old_given apart reads old_reads writes =
      let first : sys_sigprocmask can_read can_write 0 set old 8 s
          ≡ (ok (pos 0), blocked s set old) =
        saved_result 0 set old s (insert s.receiver.mask (s.memory.at set)) set_given old_given
          apart reads writes refl in
      let back : (blocked s set old).memory.at old ≡ s.receiver.mask =
        put_at_same s.memory old s.receiver.mask in
      let second : sys_sigprocmask can_read can_write 2 old 0 8 (blocked s set old)
          ≡ (ok (pos 0), with_mask (blocked s set old) (blocked s set old).memory s.receiver.mask) =
        unsaved_result 2 old (blocked s set old) s.receiver.mask old_given old_reads (ap ok back) in
      rw (first, second) (refl, refl, (λ k. refl), (λ k. refl), refl)

  -- With a valid set and no place for the old mask, the call returns EINVAL for a set of another size
  -- than 8 bytes and for an unknown `how`, and nothing changes.
  pub sys_sigprocmask-refused :
      (s : Masks) (how set sigsetsize : ℕ)
      → set ≢ 0
      → can_read set ≡ true
      → (sigsetsize ≢ 8) ⊎ (2 < how)
      → sys_sigprocmask can_read can_write how set 0 sigsetsize s ≡ (err einval, s)
  unfolding sys_sigprocmask set_mask new_mask save load
  sys_sigprocmask-refused s how set sigsetsize given reads bad = ground arith
