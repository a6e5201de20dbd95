-- ===== src/Stack/Start.antt =====
-- The whole of `init_stack`.
use neuclear.Base.{
  ℕ, zero, suc, ◌+◌, ◌*◌, ◌%◌, ◌≡◌, refl, ◌∙◌, ap, subst, List, [], ◌∷◌, ◌++◌, Option, some, arith,
  get_elem?, length, get_elem?-some_lt, get_elem?-append_lt,
}
use neuclear.Base.Outcome.{ok}
use neuclear.Stack.{le_bytes, StackInit, InfoBlock, push_strs, push_ptrs, align, init_stack}
use neuclear.Stack.Push.{Translates}
use neuclear.Stack.Strings.{length-le_bytes}
use neuclear.Stack.Halves.{stack_need, Room, Upper, Lower, align_lem, upper, lower}
use neuclear.Stack.Layout.{words, Spells, Grown, Grown-trans, Spells-Grown}

elem_behind : (xs ys : List ℕ) (i : ℕ) → get_elem? (xs ++ ys) (length xs + i) ≡ get_elem? ys i
elem_behind [] ys i = ap (get_elem? ys) plain
  where
    plain : 0 + i ≡ i
    plain = omega arith
elem_behind (x ∷ xs) ys i = ap (get_elem? (x ∷ xs ++ ys)) next ∙ elem_behind xs ys i
  where
    next : suc (length xs) + i ≡ suc (length xs + i)
    next = omega arith

module _ (trans_va : ℕ → Option ℕ) (low high : ℕ) (f : ℕ → ℕ)
    (tr : Translates trans_va low high f) where
  abbrev Reads : StackInit → ℕ → List ℕ → Type 0
  Reads s = Spells trans_va low high f tr s.memory

  first_word :
      (s : StackInit) (q : ℕ) (ps : List ℕ) (va : ℕ)
      → Reads s va (words (q ∷ ps))
      → Reads s (va + 8 * 0) (le_bytes 8 q)
  first_word s q ps va spells i b at =
      ap (λ a. s.memory (f (a + i))) no_step
      ∙ spells i b (
          get_elem?-append_lt (le_bytes 8 q) (words ps) i (get_elem?-some_lt (le_bytes 8 q) i b at)
          ∙ at)
    where
      no_step : va + 8 * 0 ≡ va
      no_step = omega arith

  word_at :
      (s : StackInit) (ps : List ℕ) (va i p : ℕ)
      → Reads s va (words ps)
      → get_elem? ps i ≡ some p
      → Reads s (va + 8 * i) (le_bytes 8 p)
  word_at s [] va i p spells e = cc e
  word_at s (q ∷ ps) va zero p spells e =
      subst (λ x. Reads s (va + 8 * 0) (le_bytes 8 x)) (some_is e) (first_word s q ps va spells)
    where
      some_is : some q ≡ some p → q ≡ p
      some_is x = cc x
  word_at s (q ∷ ps) va (suc i) p spells e =
      let later : Reads s (va + 8) (words ps) = λ j b at.
        ap (λ a. s.memory (f a)) (behind j)
        ∙ spells (length (le_bytes 8 q) + j) b (elem_behind (le_bytes 8 q) (words ps) j ∙ at) in
      subst (λ a. Reads s a (le_bytes 8 p)) (further va i) (word_at s ps (va + 8) i p later e)
    where
      behind : (j : ℕ) → va + 8 + j ≡ va + (length (le_bytes 8 q) + j)
      behind j = omega (arith, length-le_bytes 8 q)

      further : (va i : ℕ) → va + 8 + 8 * i ≡ va + 8 * suc i
      further va i = omega arith

  -- The stack pointer is at the number of arguments, their pointers and a null pointer follow, and each
  -- pointer is that of its argument, with a 0 at the end.
  pub record IsLaidOut (info : InfoBlock) (argv_base : ℕ) (s : StackInit) : Type 0 where
    pub argc_below : s.sp + 8 ≡ argv_base
    pub aligned : s.sp % 8 ≡ 0
    pub argc : Reads s s.sp (le_bytes 8 (length info.args))
    pub args :
        (i : ℕ) (arg : List ℕ)
        → get_elem? info.args i ≡ some arg
        → (p : ℕ) × Reads s (argv_base + 8 * i) (le_bytes 8 p) × Reads s p (arg ++ 0 ∷ [])
    pub ends : Reads s (argv_base + 8 * length info.args) (le_bytes 8 0)

  -- Both halves together.
  init_equation :
      (time time' : ℕ) (info : InfoBlock) (s : StackInit)
      → info.envs ≡ []
      → (h : Upper trans_va low high f tr time time' info s)
      → (l : Lower trans_va low high f tr info h.s₃.sp h.argv (align trans_va h.s₆))
      → init_stack trans_va time time' info s ≡ ok (l.t₅.sp, l.t₆)
  unfolding init_stack push_strs push_ptrs
  init_equation time time' info s no_envs h l =
      rw
        (
          h.e₁, h.e₂, h.e₃, no_envs, h.e₅, h.strs.pushed, l.e₇, l.e₈, l.e₉, l.e₁₀, l.e₁₁, l.e₁₂,
          l.null.pushed, l.vector.pushed, l.argc_word.pushed,
        )
        refl

  laid_out :
      (time time' : ℕ) (info : InfoBlock) (s : StackInit)
      → (h : Upper trans_va low high f tr time time' info s)
      → (l : Lower trans_va low high f tr info h.s₃.sp h.argv (align trans_va h.s₆))
      → IsLaidOut info l.t₅.sp l.t₆
  laid_out time time' info s h l = record {
    argc_below = l.argc_word.by_8;
    aligned = l.argc_word.even;
    argc = l.argc_word.puts.holds;
    args = λ i arg e.
        let (p, at, above, fits, spells) = h.strs.each i arg e in
        (
          p,
          pointer i p at,
          Spells-Grown trans_va low high f tr u l.t₆ p (arg ++ 0 ∷ []) whole (omega arith) fits
              spells,
        );
    ends =
        subst (λ va. Reads l.t₆ va (le_bytes 8 0)) (omega (arith, l.vector.by_8, h.strs.as_many))
          (Spells-Grown trans_va low high f tr l.t₄ l.t₆ l.t₄.sp (le_bytes 8 0) after (omega arith)
            (omega (arith, l.null.by_8, l.top₂, length-le_bytes 8 0)) l.null.puts.holds);
  }
    where
      after : Grown trans_va low high f tr l.t₄ l.t₆
      after = Grown-trans trans_va low high f tr l.t₄ l.t₅ l.t₆ l.vector.grown l.argc_word.grown

      u : StackInit
      u = align trans_va h.s₆

      whole : Grown trans_va low high f tr u l.t₆
      whole = Grown-trans trans_va low high f tr u l.t₄ l.t₆ l.grown after

      pointer :
          (i p : ℕ) → get_elem? h.argv i ≡ some p → Reads l.t₆ (l.t₅.sp + 8 * i) (le_bytes 8 p)
      pointer i p at =
          Spells-Grown trans_va low high f tr l.t₅ l.t₆ (l.t₅.sp + 8 * i) (le_bytes 8 p)
            l.argc_word.grown (omega arith)
            (omega (
              arith,
              get_elem?-some_lt h.argv i p at,
              l.vector.by_8,
              l.null.by_8,
              l.top₂,
              length-le_bytes 8 p,
            ))
            (word_at l.t₅ h.argv l.t₅.sp i p l.vector.holds at)

  -- Where the stack's pages are mapped, without environment variables, and from an aligned stack
  -- pointer with room below it: `init_stack` succeeds, and the program finds the number of its
  -- arguments, their pointers, a null pointer, and each argument at its pointer.
  pub init_stack-IsLaidOut :
      (time time' : ℕ) (info : InfoBlock) (s : StackInit)
      → info.envs ≡ []
      → Room trans_va low high f tr (stack_need info) s
      → s.sp % 8 ≡ 0
      → (argv_base : ℕ) × (s' : StackInit) × (init_stack trans_va time time' info s
          ≡ ok (argv_base, s'))
        × IsLaidOut info argv_base s'
  init_stack-IsLaidOut time time' info s no_envs r even =
      let h = upper trans_va low high f tr time time' info s r even in
      let (room, even_u) =
        align_lem trans_va low high f tr (56 + 8 * length info.args + 16 * length info.auxv) h.s₆
          (record {
            room = omega (arith, h.strs.room.room);
            top = h.strs.room.top;
            followed = h.strs.room.followed;
          })
          h.strs.inside h.strs.follows in
      let l =
        lower trans_va low high f tr info h.s₃.sp h.argv (align trans_va h.s₆) h.strs.as_many room
          even_u in
      (l.t₅.sp, l.t₆, init_equation time time' info s no_envs h l, laid_out time time' info s h l)
