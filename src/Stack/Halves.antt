-- ===== src/Stack/Halves.antt =====
-- The two halves of `init_stack`: the strings, and the vectors from an aligned stack pointer.
use neuclear.Base.{ℕ, ◌+◌, ◌-◌, ◌*◌, ◌%◌, ◌≤◌, ◌<◌, ◌≡◌, ap, List, Option, arith, length, inr}
use neuclear.Base.Outcome.{ok}
use neuclear.Stack.{StackInit, InfoBlock, push_usize, push_auxv, align, at_random}
use neuclear.Stack.Push.{Translates, linear}
use neuclear.Stack.Strings.{HasRoom}
use neuclear.Stack.Layout.{
  strings_size, Grown, Grown-trans, Word, push-Word, Words, push-Words, Strs, pushes-Strs,
  pushes_auxv,
}

-- What `init_stack` needs at most.
abbrev pub stack_need : InfoBlock → ℕ
stack_need info = 39 + strings_size info.args + 8 * length info.args + 16 * length info.auxv + 56

module _ (trans_va : ℕ → Option ℕ) (low high : ℕ) (f : ℕ → ℕ)
    (tr : Translates trans_va low high f) where
  abbrev pub Room : ℕ → StackInit → Type 0
  Room = HasRoom trans_va low high f tr

  pub align_lem :
      (n : ℕ) (s : StackInit)
      → Room (n + 7) s
      → s.sp < high
      → s.sp_kernel_va ≡ f s.sp
      → Room n (align trans_va s) × ((align trans_va s).sp % 8 ≡ 0)
  align_lem n s r inside follows = (
    record {
      room = omega (arith, r.room);
      top = omega (arith, r.top);
      followed = inr (omega arith, down);
    },
    omega arith,
  )
    where
      down : s.sp_kernel_va - s.sp_kernel_va % 8 ≡ f (s.sp - s.sp % 8)
      down =
          let e : f (s.sp - s.sp % 8 + s.sp % 8) ≡ f (s.sp - s.sp % 8) + s.sp % 8 =
            linear trans_va low high f tr (s.sp - s.sp % 8) (s.sp % 8) (omega (arith, r.room))
              (omega arith) (omega arith) in
          let whole : s.sp - s.sp % 8 + s.sp % 8 ≡ s.sp = omega arith in
          omega (arith, e, ap f whole, follows, tr.aligned s.sp (omega (arith, r.room)) inside)

  -- The first half: the strings.
  pub record Upper (time time' : ℕ) (info : InfoBlock) (s : StackInit) : Type 0 where
    pub s₁ : StackInit
    pub s₂ : StackInit
    pub s₃ : StackInit
    pub s₅ : StackInit
    pub s₆ : StackInit
    pub argv : List ℕ
    pub e₁ : push_usize trans_va 0 s ≡ ok s₁
    pub e₂ : push_usize trans_va time s₁ ≡ ok s₂
    pub e₃ : push_usize trans_va time' s₂ ≡ ok s₃
    pub e₅ : push_usize trans_va 0 s₃ ≡ ok s₅
    pub strs :
        Strs trans_va low high f tr info.args
          (63 + 8 * length info.args + 16 * length info.auxv)
          s₅
          argv
          s₆

  pub upper :
      (time time' : ℕ) (info : InfoBlock) (s : StackInit)
      → Room (stack_need info) s
      → s.sp % 8 ≡ 0
      → Upper time time' info s
  upper time time' info s r even =
      let n = 63 + 8 * length info.args + 16 * length info.auxv in
      let m = n + strings_size info.args in
      let r₀ : Room (m + 8 + 8 + 8 + 8) s = record {
        room = omega (arith, r.room);
        top = r.top;
        followed = r.followed;
      } in
      let (s₁, w₁) = push-Word trans_va low high f tr 0 (m + 8 + 8 + 8) s r₀ even in
      let (s₂, w₂) = push-Word trans_va low high f tr time (m + 8 + 8) s₁ w₁.room w₁.even in
      let (s₃, w₃) = push-Word trans_va low high f tr time' (m + 8) s₂ w₂.room w₂.even in
      let (s₅, w₅) = push-Word trans_va low high f tr 0 m s₃ w₃.room w₃.even in
      let (argv, s₆, q) =
        pushes-Strs trans_va low high f tr info.args n s₅ w₅.room w₅.puts.inside w₅.puts.follows in
      record {
        s₁ = s₁;
        s₂ = s₂;
        s₃ = s₃;
        s₅ = s₅;
        s₆ = s₆;
        argv = argv;
        e₁ = w₁.pushed;
        e₂ = w₂.pushed;
        e₃ = w₃.pushed;
        e₅ = w₅.pushed;
        strs = q;
      }

  -- The second half: the vectors, from an aligned stack pointer.
  pub record Lower (info : InfoBlock) (random_pos : ℕ) (argv : List ℕ) (u : StackInit)
      : Type 0 where
    pub s₇ : StackInit
    pub s₈ : StackInit
    pub s₉ : StackInit
    pub t₀ : StackInit
    pub t₁ : StackInit
    pub t₂ : StackInit
    pub t₄ : StackInit
    pub t₅ : StackInit
    pub t₆ : StackInit
    pub e₇ : push_usize trans_va 0 u ≡ ok s₇
    pub e₈ : push_usize trans_va 0 s₇ ≡ ok s₈
    pub e₉ : push_usize trans_va at_random s₈ ≡ ok s₉
    pub e₁₀ : push_usize trans_va random_pos s₉ ≡ ok t₀
    pub e₁₁ : push_auxv trans_va info.auxv t₀ ≡ ok t₁
    pub e₁₂ : push_usize trans_va 0 t₁ ≡ ok t₂
    pub top₂ : t₂.sp ≤ high
    pub null : Word trans_va low high f tr 0 (8 * length info.args + 8) t₂ t₄
    pub vector : Words trans_va low high f tr argv 8 t₄ t₅
    pub argc_word : Word trans_va low high f tr (length info.args) 0 t₅ t₆
    pub grown : Grown trans_va low high f tr u t₄

  -- The part of the arguments.
  Arguments : InfoBlock → List ℕ → StackInit → Type 0
  Arguments info argv t₁ =
      (t₂ : StackInit) × (t₄ : StackInit) × (t₅ : StackInit) × (t₆ : StackInit) × Word trans_va low
        high f tr 0 (8 * length info.args + 16) t₁ t₂
      × Word trans_va low high f tr 0 (8 * length info.args + 8) t₂ t₄
      × Words trans_va low high f tr argv 8 t₄ t₅
      × Word trans_va low high f tr (length info.args) 0 t₅ t₆

  arguments :
      (info : InfoBlock) (argv : List ℕ) (t₁ : StackInit)
      → length argv ≡ length info.args
      → Room (8 * length info.args + 24) t₁
      → t₁.sp % 8 ≡ 0
      → Arguments info argv t₁
  unfolding Arguments
  arguments info argv t₁ as_many r even =
      let n = 8 * length info.args in
      let r₂ : Room (n + 16 + 8) t₁ = record {
        room = omega (arith, r.room);
        top = r.top;
        followed = r.followed;
      } in
      let (t₂, v₂) = push-Word trans_va low high f tr 0 (n + 16) t₁ r₂ even in
      let r₄ : Room (n + 8 + 8) t₂ = record {
        room = omega (arith, v₂.room.room);
        top = v₂.room.top;
        followed = v₂.room.followed;
      } in
      let (t₄, v₄) = push-Word trans_va low high f tr 0 (n + 8) t₂ r₄ v₂.even in
      let r₅ : Room (8 + 8 * length argv) t₄ = record {
        room = omega (arith, v₄.room.room, as_many);
        top = v₄.room.top;
        followed = v₄.room.followed;
      } in
      let (t₅, v₅) = push-Words trans_va low high f tr argv 8 t₄ r₅ v₄.even in
      let r₆ : Room (0 + 8) t₅ = record {
        room = omega (arith, v₅.room.room);
        top = v₅.room.top;
        followed = v₅.room.followed;
      } in
      let (t₆, v₆) = push-Word trans_va low high f tr (length info.args) 0 t₅ r₆ v₅.even in
      (t₂, t₄, t₅, t₆, v₂, v₄, v₅, v₆)

  pub lower :
      (info : InfoBlock) (random_pos : ℕ) (argv : List ℕ) (u : StackInit)
      → length argv ≡ length info.args
      → Room (56 + 8 * length info.args + 16 * length info.auxv) u
      → u.sp % 8 ≡ 0
      → Lower info random_pos argv u
  unfolding Arguments
  lower info random_pos argv u as_many r even =
      let n = 8 * length info.args + 24 in
      let m = n + 16 * length info.auxv in
      let r₀ : Room (m + 8 + 8 + 8 + 8) u = record {
        room = omega (arith, r.room);
        top = r.top;
        followed = r.followed;
      } in
      let (s₇, w₇) = push-Word trans_va low high f tr 0 (m + 8 + 8 + 8) u r₀ even in
      let (s₈, w₈) = push-Word trans_va low high f tr 0 (m + 8 + 8) s₇ w₇.room w₇.even in
      let (s₉, w₉) = push-Word trans_va low high f tr at_random (m + 8) s₈ w₈.room w₈.even in
      let (t₀, v₀) = push-Word trans_va low high f tr random_pos m s₉ w₉.room w₉.even in
      let (t₁, v₁) = pushes_auxv trans_va low high f tr info.auxv n t₀ v₀.room v₀.even in
      let (t₂, t₄, t₅, t₆, v₂, v₄, v₅, v₆) = arguments info argv t₁ as_many v₁.room v₁.even in
      record {
        s₇ = s₇;
        s₈ = s₈;
        s₉ = s₉;
        t₀ = t₀;
        t₁ = t₁;
        t₂ = t₂;
        t₄ = t₄;
        t₅ = t₅;
        t₆ = t₆;
        e₇ = w₇.pushed;
        e₈ = w₈.pushed;
        e₉ = w₉.pushed;
        e₁₀ = v₀.pushed;
        e₁₁ = v₁.pushed;
        e₁₂ = v₂.pushed;
        top₂ = v₂.room.top;
        null = v₄;
        vector = v₅;
        argc_word = v₆;
        grown =
            Grown-trans trans_va low high f tr u t₀ t₄
              (Grown-trans trans_va low high f tr u s₈ t₀
                (Grown-trans trans_va low high f tr u s₇ s₈ w₇.grown w₈.grown)
                (Grown-trans trans_va low high f tr s₈ s₉ t₀ w₉.grown v₀.grown))
              (Grown-trans trans_va low high f tr t₀ t₁ t₄ v₁.grown
                (Grown-trans trans_va low high f tr t₁ t₂ t₄ v₂.grown v₄.grown));
      }
