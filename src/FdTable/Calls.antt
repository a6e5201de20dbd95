-- ===== src/FdTable/Calls.antt =====
-- What `close`, `dup`, `dup3`, `pipe2`, `fcntl` and `exec` do to the descriptors, on every branch.
use neuclear.Base.{
  ℕ, zero, suc, ◌+◌, ◌-◌, ◌%◌, ◌≤◌, ◌<◌, ◌≡◌, ◌≢◌, refl, sym, ◌∙◌, ap, dec_lt, ◌⊎◌, inl, inr, Bool,
  true, false, not, [], ◌∷◌, ◌++◌, Option, none, some, arith, leb, leb→le, ◌==◌, ==_refl,
  Bool-cases, Option-cases, if◌then◌else◌, set, length, replicate, length-append, length-replicate,
  has_bit, set_bit,
}
use neuclear.Base.Int.{ℤ, pos}
use neuclear.Base.Outcome.{Outcome, ok, err, ebadf, temp}
use neuclear.Files.{
  FileRef, FileStore, inode, InodeFile, readable, writable, is_dir, status, o_cloexec,
  set_close_on_exec, update,
}
use neuclear.FdTable.{
  Table, State, open_file_at, alloc_fd, install, sys_close, sys_dup, sys_dup3, sys_fcntl64, fcntl,
  sys_pipe2, f_getfd, f_setfd, prepare_io, write_target, writev_target, close_on_exec,
}
use neuclear.FdTable.Alloc.{
  IsFree, Least, alloc_fd-Least, open_file_at-set, open_file_at-grown, open_file_at-out,
}

-- The call returned `fd`, at which `f` is open now, and changed no other descriptor and no file.
pub record Opened (s : State) (f : FileRef) (fd : ℕ) (result : Outcome ℤ × State) : Type 0 where
  pub returned : result.0 ≡ ok (pos fd)
  pub entries :
      (j : ℕ)
      → open_file_at result.1.fd_table j ≡ (if j == fd then some f else open_file_at s.fd_table j)
  pub same_files : result.1.files ≡ s.files

-- No descriptor below `fd` is free.
abbrev pub IsLeastFree : Table → ℕ → Type 0
IsLeastFree t fd = IsFree t fd × ((j : ℕ) → j < fd → open_file_at t j ≢ none)

pub install-Opened :
    (s : State) (f : FileRef) → (fd : ℕ) × Opened s f fd (install s f) × IsLeastFree s.fd_table fd
unfolding install
install-Opened s f =
    let l = alloc_fd-Least s.fd_table in
    (
      (alloc_fd s.fd_table).0,
      record {
        returned = refl;
        entries = λ j. rw (open_file_at-set _ _ j (some f) l.inside, l.same j) refl;
        same_files = refl;
      },
      (l.is_free, λ j h. l.minimal j (omega arith) h),
    )

get-open_file_at : (t : Table) (fd : ℕ) (f : FileRef) → open_file_at t fd ≡ some f → fd < length t
unfolding open_file_at
get-open_file_at t fd f h = elim (Bool-cases (leb (length t) fd)) [
  | inl out ↦ absurd (some_ne (sym h ∙ open_file_at-out t fd (leb→le _ _ out)))
  | inr inside ↦ ground arith
]
  where
    some_ne : some f ≢ none
    some_ne e = cc

-- `dup`: the file of an open descriptor is opened at the least free one as well; any other
-- descriptor is refused, and nothing changes.
pub sys_dup-Opened :
    (s : State) (fd : ℕ)
    → ((IsFree s.fd_table fd) × (sys_dup fd s ≡ (err temp, s)))
      ⊎ ((f : FileRef) × (new : ℕ) × (open_file_at s.fd_table fd ≡ some f)
          × Opened s f new (sys_dup fd s)
          × IsLeastFree s.fd_table new)
unfolding sys_dup
sys_dup-Opened s fd = elim (Option-cases (open_file_at s.fd_table fd)) [
  | inl closed ↦ inl (closed, ground arith)
  | inr (f, open_at) ↦
      let (new, opened, least) = install-Opened s f in
      let inside = get-open_file_at s.fd_table fd f open_at in
      let e : sys_dup fd s ≡ install s f = ground arith in inr (f, new, open_at, rw e opened, least)
]

-- `close` frees an open descriptor and no other; any other descriptor is refused, and nothing
-- changes.
pub sys_close-frees :
    (s : State) (fd : ℕ)
    → ((IsFree s.fd_table fd) × (sys_close fd s ≡ (err ebadf, s)))
      ⊎ (((sys_close fd s).0 ≡ ok (pos 0))
          × ((j : ℕ)
              → open_file_at (sys_close fd s).1.fd_table j
                ≡ (if j == fd then none else open_file_at s.fd_table j))
          × ((sys_close fd s).1.files ≡ s.files))
unfolding sys_close
sys_close-frees s fd = elim (Option-cases (open_file_at s.fd_table fd)) [
  | inl closed ↦ inl (closed, rw (closed, sys_close))
  | inr (f, open_at) ↦
      let inside = get-open_file_at s.fd_table fd f open_at in
      inr (
        rw (open_at, sys_close),
        (λ j. rw (open_at, sys_close) (open_file_at-set s.fd_table fd j none inside)),
        rw (open_at, sys_close),
      )
]

abbrev grown_for : ℕ → Table → Table
grown_for new t = if leb (length t) new then t ++ replicate (new + 1 - length t) none else t

grown_for-same : (new : ℕ) (t : Table) (j : ℕ) → open_file_at (grown_for new t) j ≡ open_file_at t j
grown_for-same new t j = ground (arith, open_file_at-grown t (new + 1 - length t) j)

grown_for-inside : (new : ℕ) (t : Table) → new < length (grown_for new t)
grown_for-inside new t = ground (
  arith,
  length-append t (replicate (new + 1 - length t) none),
  length-replicate {A = Option ℕ} (new + 1 - length t) none,
)

-- `dup3`: the file of an open descriptor is opened at `new` too, in place of what was there; any
-- other descriptor is refused, and no descriptor changes.
pub sys_dup3-Opened :
    (s : State) (old new : ℕ)
    → ((IsFree s.fd_table old)
        × ((sys_dup3 old new s).0 ≡ err temp)
        × ((j : ℕ) → open_file_at (sys_dup3 old new s).1.fd_table j ≡ open_file_at s.fd_table j)
        × ((sys_dup3 old new s).1.files ≡ s.files))
      ⊎ ((f : FileRef) × (open_file_at s.fd_table old ≡ some f)
          × Opened s f new (sys_dup3 old new s))
unfolding sys_dup3
sys_dup3-Opened s old new = elim (Bool-cases (leb (length s.fd_table) old)) [
  | inl out ↦ inl (
    open_file_at-out s.fd_table old (leb→le _ _ out),
    rw (out, sys_dup3),
    λ j. rw (out, sys_dup3) refl,
    rw (out, sys_dup3),
  )
  | inr inside ↦ elim (Option-cases (open_file_at s.fd_table old)) [
    | inl closed ↦
        let e = grown_for-same new s.fd_table old ∙ closed in
        inl (
          closed,
          rw (inside, e),
          (λ j. rw (inside, e) (grown_for-same new s.fd_table j)),
          rw (inside, e),
        )
    | inr (f, open_at) ↦
        let e = grown_for-same new s.fd_table old ∙ open_at in
        inr (
          f,
          open_at,
          rw (inside, e)
              (record {
                returned = refl;
                entries = λ j.
                    open_file_at-set (grown_for new s.fd_table) new j (some f)
                      (grown_for-inside new s.fd_table)
                    ∙ ap (λ o. if j == new then some f else o) (grown_for-same new s.fd_table j);
                same_files = refl;
              }),
        )
  ]
]

-- `pipe2` opens the two ends at the two least free descriptors, the read end first.
pub sys_pipe2-Opened :
    (s : State) (read_end write_end : FileRef)
    → let ((r, w), s') = sys_pipe2 read_end write_end s in
      IsLeastFree s.fd_table r
      × ((r < w)
          × (IsFree s.fd_table w
              × (((j : ℕ) → j < w → j ≢ r → open_file_at s.fd_table j ≢ none)
                  × ((j : ℕ)
                      → open_file_at s'.fd_table j ≡ (
                          if j == w
                          then some write_end
                          else (if j == r then some read_end else open_file_at s.fd_table j))))))
unfolding sys_pipe2
sys_pipe2-Opened s read_end write_end = (
  (l₁.is_free, λ j h. l₁.minimal j (omega arith) h),
  (
    omega (arith, w_ne, w_ge),
    (
      sym (mid_ne w w_ne) ∙ l₂.is_free,
      (
        (λ j h ne o. l₂.minimal j (omega arith) h (mid_ne j ne ∙ o)),
        λ j.
            open_file_at-set _ w j (some write_end) l₂.inside
            ∙ ap (λ o. if j == w then some write_end else o) (l₂.same j ∙ mid j),
      ),
    ),
  ),
)
  where
    t : Table
    t = s.fd_table

    r : ℕ
    r = (alloc_fd t).0

    t₁ : Table
    t₁ = set (alloc_fd t).1 r (some read_end)

    w : ℕ
    w = (alloc_fd t₁).0

    l₁ : Least t 0 r (alloc_fd t).1
    l₁ = alloc_fd-Least t

    l₂ : Least t₁ 0 w (alloc_fd t₁).1
    l₂ = alloc_fd-Least t₁

    mid : (j : ℕ) → open_file_at t₁ j ≡ (if j == r then some read_end else open_file_at t j)
    mid j = rw (open_file_at-set (alloc_fd t).1 r j (some read_end) l₁.inside, l₁.same j) refl

    mid_ne : (j : ℕ) → j ≢ r → open_file_at t₁ j ≡ open_file_at t j
    mid_ne j ne = ground (arith, mid j)

    w_ne : w ≢ r
    w_ne e = ground (arith, mid w, l₂.is_free)

    w_ge : r ≤ w
    w_ge = elim (dec_lt w r) [
      | yes below ↦ absurd (l₁.minimal w (omega arith) below (sym (mid_ne w w_ne) ∙ l₂.is_free))
      | no other ↦ omega arith
    ]

-- `exec` closes exactly the descriptors whose file has the close-on-exec flag.
pub close_on_exec-closes :
    (files : FileStore) (t : Table) (j : ℕ)
    → open_file_at (close_on_exec files t) j ≡ (elim (open_file_at t j) [
      | none ↦ none
      | some f ↦ if has_bit (status (files f)) o_cloexec then none else some f
    ])
unfolding close_on_exec open_file_at
close_on_exec-closes files [] j = refl
close_on_exec-closes files (none ∷ t) zero = refl
close_on_exec-closes files (some f ∷ t) zero = ground arith
close_on_exec-closes files (none ∷ t) (suc j) = close_on_exec-closes files t j
close_on_exec-closes files (some f ∷ t) (suc j) = close_on_exec-closes files t j

cloexec_set : (flags : ℕ) (b : Bool) → has_bit (set_bit flags o_cloexec b) o_cloexec ≡ b
cloexec_set flags true = ground arith
cloexec_set flags false = ground arith

fcntl_set :
    (arg : ℕ) (f : FileRef) (s : State) (i : InodeFile)
    → s.files f ≡ inode i
    → fcntl f_setfd arg f s ≡ (
      ok (pos 0),
      record s {
        files =
            update s.files f
              (inode (record i { flags = set_bit i.flags o_cloexec (not (arg % 2 == 0)) }));
      },
    )
unfolding fcntl set_close_on_exec
fcntl_set arg f s i e = rw e

fcntl_get :
    (arg : ℕ) (f : FileRef) (s : State)
    → fcntl f_getfd arg f s
      ≡ (ok (pos (if has_bit (status (s.files f)) o_cloexec then 1 else 0)), s)
unfolding fcntl
fcntl_get arg f s = refl

sys_fcntl64_at :
    (fd cmd arg : ℕ) (f : FileRef) (s : State)
    → open_file_at s.fd_table fd ≡ some f
    → sys_fcntl64 fd cmd arg s ≡ fcntl cmd arg f s
unfolding sys_fcntl64
sys_fcntl64_at fd cmd arg f s e = rw (e, sys_fcntl64)

-- The flag that `fcntl(F_SETFD)` sets lives in the open file: every descriptor of the same inode file
-- reads it back by `fcntl(F_GETFD)`.
pub set_close_on_exec-shared :
    (s : State) (fd other arg other_arg : ℕ) (f : FileRef) (i : InodeFile)
    → open_file_at s.fd_table fd ≡ some f
    → open_file_at s.fd_table other ≡ some f
    → s.files f ≡ inode i
    → let (_, s') = sys_fcntl64 fd f_setfd arg s in
      (sys_fcntl64 other f_getfd other_arg s').0 ≡ ok (pos (if arg % 2 == 0 then 0 else 1))
unfolding status
set_close_on_exec-shared s fd other arg other_arg f i at at_other is_inode =
    rw (sys_fcntl64_at fd f_setfd arg f s at, fcntl_set arg f s i is_inode)
      (rw (sys_fcntl64_at other f_getfd other_arg f after at_other, fcntl_get other_arg f after)
        (rw (==_refl f) (rw (cloexec_set i.flags (not (arg % 2 == 0))) (ground arith))))
  where
    after : State
    after = record s {
      files =
          update s.files f
            (inode (record i { flags = set_bit i.flags o_cloexec (not (arg % 2 == 0)) }));
    }

-- `writev` asks for a readable file: on a descriptor that can only be written it fails where `write`
-- goes through, and on one that can only be read it goes through where `write` fails.
pub writev_target-readable :
    (s : State) (fd : ℕ) (f : FileRef)
    → open_file_at s.fd_table fd ≡ some f
    → is_dir (s.files f) ≡ false
    → readable (s.files f) ≡ not (writable (s.files f))
    → ((writable (s.files f) ≡ true)
        × (write_target s fd ≡ ok f)
        × (writev_target s fd ≡ err ebadf))
      ⊎ ((writable (s.files f) ≡ false)
          × (write_target s fd ≡ err ebadf)
          × (writev_target s fd ≡ ok f))
unfolding write_target writev_target prepare_io
writev_target-readable s fd f open_at plain one = elim (Bool-cases (writable (s.files f))) [
  | inl w ↦ inl (w, ground arith, ground arith)
  | inr r ↦ inr (r, ground arith, ground arith)
]
