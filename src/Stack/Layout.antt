-- ===== src/Stack/Layout.antt =====
-- What a program finds on its stack at the start.
use neuclear.Base.{
  ℕ, zero, suc, ◌+◌, ◌*◌, ◌%◌, ◌≤◌, ◌<◌, ◌≡◌, refl, sym, ◌∙◌, ap, subst, List, [], ◌∷◌, ◌++◌,
  Option, some, arith, get_elem?, length, length-append, get_elem?-some_lt, inl, inr,
}
use neuclear.Base.Outcome.{ok}
use neuclear.Stack.{Bytes, le_bytes, StackInit, push_usize, push_ptrs, push_strs, push_auxv}
use neuclear.Stack.Push.{Translates}
use neuclear.Stack.Strings.{
  length-le_bytes, get_elem?-append, Puts, HasRoom, Puts-HasRoom, push_usize-Pushes,
  push_str-Pushes,
}

-- The bytes of the words, the first one lowest.
abbrev pub words : List ℕ → List ℕ
words [] = []
words (p ∷ ps) = le_bytes 8 p ++ words ps

pub length-words : (ps : List ℕ) → length (words ps) ≡ 8 * length ps
length-words [] = refl
length-words (p ∷ ps) =
    omega (arith, length-append (le_bytes 8 p) (words ps), length-le_bytes 8 p, length-words ps)

-- The bytes of the strings, each with its 0.
abbrev pub strings_size : List (List ℕ) → ℕ
strings_size [] = 0
strings_size (t ∷ ts) = length t + 1 + strings_size ts

module _ (trans_va : ℕ → Option ℕ) (low high : ℕ) (f : ℕ → ℕ)
    (tr : Translates trans_va low high f) where
  -- The program reads these bytes from `va` on.
  abbrev pub Spells : Bytes → ℕ → List ℕ → Type 0
  Spells memory va bs = (i b : ℕ) → get_elem? bs i ≡ some b → memory (f (va + i)) ≡ b

  -- The stack has grown, and what was on it is still there.
  pub record Grown (s s' : StackInit) : Type 0 where
    pub lower : s'.sp ≤ s.sp
    pub keeps : (va : ℕ) → s.sp ≤ va → va < high → s'.memory (f va) ≡ s.memory (f va)

  pub Grown-trans : (s s' s'' : StackInit) → Grown s s' → Grown s' s'' → Grown s s''
  Grown-trans s s' s'' g h = record {
    lower = omega (arith, g.lower, h.lower);
    keeps = λ va above inside. h.keeps va (omega (arith, g.lower)) inside ∙ g.keeps va above inside;
  }

  pub Spells-Grown :
      (s s' : StackInit) (va : ℕ) (bs : List ℕ)
      → Grown s s'
      → s.sp ≤ va
      → va + length bs ≤ high
      → Spells s.memory va bs
      → Spells s'.memory va bs
  Spells-Grown s s' va bs g above inside spells i b e =
      g.keeps (va + i) (omega arith) (omega (arith, get_elem?-some_lt bs i b e)) ∙ spells i b e

  -- One word was pushed, and there is room for more.
  pub record Word (v n : ℕ) (s s' : StackInit) : Type 0 where
    pub pushed : push_usize trans_va v s ≡ ok s'
    pub puts : Puts trans_va low high f tr (le_bytes 8 v) s s'
    pub room : HasRoom trans_va low high f tr n s'
    pub even : s'.sp % 8 ≡ 0
    pub by_8 : s'.sp + 8 ≡ s.sp
    pub grown : Grown s s'

  pub push-Word :
      (v n : ℕ) (s : StackInit)
      → HasRoom trans_va low high f tr (n + 8) s
      → s.sp % 8 ≡ 0
      → (s' : StackInit) × Word v n s s'
  push-Word v n s r even =
      let r₈ : HasRoom trans_va low high f tr 8 s = record {
        room = omega (arith, r.room);
        top = r.top;
        followed = r.followed;
      } in
      let (s', e, p) = push_usize-Pushes trans_va low high f tr v s r₈ even in
      (
        s',
        record {
          pushed = e;
          puts = p;
          room =
              Puts-HasRoom trans_va low high f tr (n + 8) n (le_bytes 8 v) s s' r p
                (omega (arith, length-le_bytes 8 v));
          even = omega (arith, p.down, length-le_bytes 8 v, r.room);
          by_8 = omega (arith, p.down, length-le_bytes 8 v, r.room);
          grown = record { lower = omega (arith, p.down); keeps = p.keeps };
        },
      )

  -- The same for a list of words.
  pub record Words (ps : List ℕ) (n : ℕ) (s s' : StackInit) : Type 0 where
    pub pushed : push_ptrs trans_va ps s ≡ ok s'
    pub holds : Spells s'.memory s'.sp (words ps)
    pub room : HasRoom trans_va low high f tr n s'
    pub even : s'.sp % 8 ≡ 0
    pub by_8 : s'.sp + 8 * length ps ≡ s.sp
    pub grown : Grown s s'

  pub Spells-append :
      (m : Bytes) (va : ℕ) (xs ys : List ℕ)
      → Spells m va xs
      → Spells m (va + length xs) ys
      → Spells m va (xs ++ ys)
  Spells-append m va xs ys hx hy i b e = elim (get_elem?-append xs ys i b e) [
    | inl at ↦ hx i b at
    | inr (j, i_is, at) ↦
        let same : va + i ≡ va + length xs + j = omega (arith, i_is) in
        ap (λ a. m (f a)) same ∙ hy j b at
  ]

  pub push-Words :
      (ps : List ℕ) (n : ℕ) (s : StackInit)
      → HasRoom trans_va low high f tr (n + 8 * length ps) s
      → s.sp % 8 ≡ 0
      → (s' : StackInit) × Words ps n s s'
  unfolding push_ptrs
  push-Words [] n s r even = (
    s,
    record {
      pushed = refl;
      holds = λ i b e. cc e;
      room = record { room = omega (arith, r.room); top = r.top; followed = r.followed };
      even = even;
      by_8 = omega arith;
      grown = record { lower = omega arith; keeps = λ va above inside. refl };
    },
  )
  push-Words (p ∷ ps) n s r even =
      let r' : HasRoom trans_va low high f tr (n + 8 + 8 * length ps) s = record {
        room = omega (arith, r.room);
        top = r.top;
        followed = r.followed;
      } in
      let (s', w) = push-Words ps (n + 8) s r' even in
      let (s'', v) = push-Word p n s' w.room w.even in
      (
        s'',
        record {
          pushed = rw (w.pushed, v.pushed) refl;
          holds = Spells-append s''.memory s''.sp (le_bytes 8 p) (words ps) v.puts.holds (
              subst (λ va. Spells s''.memory va (words ps)) (sym v.by_8)
                (Spells-Grown s' s'' s'.sp (words ps) v.grown (omega arith)
                  (omega (arith, w.by_8, r.top, length-words ps)) w.holds));
          room = v.room;
          even = v.even;
          by_8 = omega (arith, w.by_8, v.by_8);
          grown = Grown-trans s s' s'' w.grown v.grown;
        },
      )

  -- The strings are on the stack, each at its pointer.
  pub record Strs (ts : List (List ℕ)) (n : ℕ) (s : StackInit) (ptrs : List ℕ) (s' : StackInit)
      : Type 0 where
    pub pushed : push_strs trans_va ts s ≡ ok (ptrs, s')
    pub as_many : length ptrs ≡ length ts
    pub each :
        (i : ℕ) (t : List ℕ)
        → get_elem? ts i ≡ some t
        → (p : ℕ) × (get_elem? ptrs i ≡ some p)
          × (s'.sp ≤ p)
          × (p + length (t ++ 0 ∷ []) ≤ high)
          × Spells s'.memory p (t ++ 0 ∷ [])
    pub room : HasRoom trans_va low high f tr n s'
    pub inside : s'.sp < high
    pub follows : s'.sp_kernel_va ≡ f s'.sp
    pub grown : Grown s s'

  pub pushes-Strs :
      (ts : List (List ℕ)) (n : ℕ) (s : StackInit)
      → HasRoom trans_va low high f tr (n + strings_size ts) s
      → s.sp < high
      → s.sp_kernel_va ≡ f s.sp
      → (ptrs : List ℕ) × (s' : StackInit) × Strs ts n s ptrs s'
  unfolding push_strs
  pushes-Strs [] n s r inside follows = (
    [],
    s,
    record {
      pushed = refl;
      as_many = refl;
      each = λ i t e. cc e;
      room = record { room = omega (arith, r.room); top = r.top; followed = r.followed };
      inside = inside;
      follows = follows;
      grown = record { lower = omega arith; keeps = λ va above below. refl };
    },
  )
  pushes-Strs (t ∷ ts) n s r inside follows =
      let r₁ : HasRoom trans_va low high f tr (length t + 1) s = record {
        room = omega (arith, r.room);
        top = r.top;
        followed = r.followed;
      } in
      let (s', e, p) = push_str-Pushes trans_va low high f tr t s r₁ in
      let r₂ : HasRoom trans_va low high f tr (n + strings_size ts) s' =
        Puts-HasRoom trans_va low high f tr (n + strings_size (t ∷ ts)) (n + strings_size ts)
          (t ++ 0 ∷ []) s s' r p (omega (arith, length-append t (0 ∷ []))) in
      let (ptrs, s'', q) = pushes-Strs ts n s' r₂ p.inside p.follows in
      let fits : s'.sp + length (t ++ 0 ∷ []) ≤ high =
        omega (arith, p.down, r.room, r.top, length-append t (0 ∷ [])) in
      (
        s'.sp ∷ ptrs,
        s'',
        record {
          pushed = rw (e, q.pushed) refl;
          as_many = ap suc q.as_many;
          each = λ i u at. each_of s' s'' ptrs q fits p.holds i u at;
          room = q.room;
          inside = q.inside;
          follows = q.follows;
          grown =
              Grown-trans s s' s'' (record { lower = omega (arith, p.down); keeps = p.keeps })
                q.grown;
        },
      )
    where
      some_is : (u : List ℕ) → some t ≡ some u → t ≡ u
      some_is u e = cc e

      each_of :
          (s' s'' : StackInit) (ptrs : List ℕ)
          → Strs ts n s' ptrs s''
          → s'.sp + length (t ++ 0 ∷ []) ≤ high
          → Spells s'.memory s'.sp (t ++ 0 ∷ [])
          → (i : ℕ) (u : List ℕ) → get_elem? (t ∷ ts) i ≡ some u
          → (p : ℕ) × (get_elem? (s'.sp ∷ ptrs) i ≡ some p)
            × (s''.sp ≤ p)
            × (p + length (u ++ 0 ∷ []) ≤ high)
            × Spells s''.memory p (u ++ 0 ∷ [])
      each_of s' s'' ptrs q fits spells zero u at =
          subst
            (λ x.
              (p : ℕ) × (get_elem? (s'.sp ∷ ptrs) 0 ≡ some p)
              × (s''.sp ≤ p)
              × (p + length (x ++ 0 ∷ []) ≤ high)
              × Spells s''.memory p (x ++ 0 ∷ []))
            (some_is u at)
            (
              s'.sp,
              refl,
              q.grown.lower,
              fits,
              Spells-Grown s' s'' s'.sp (t ++ 0 ∷ []) q.grown (omega arith) fits spells,
            )
      each_of s' s'' ptrs q fits spells (suc i) u at = q.each i u at

  -- The auxiliary vector.
  pub record Auxed (auxv : List (ℕ × ℕ)) (n : ℕ) (s s' : StackInit) : Type 0 where
    pub pushed : push_auxv trans_va auxv s ≡ ok s'
    pub room : HasRoom trans_va low high f tr n s'
    pub even : s'.sp % 8 ≡ 0
    pub grown : Grown s s'

  pub pushes_auxv :
      (auxv : List (ℕ × ℕ)) (n : ℕ) (s : StackInit)
      → HasRoom trans_va low high f tr (n + 16 * length auxv) s
      → s.sp % 8 ≡ 0
      → (s' : StackInit) × Auxed auxv n s s'
  unfolding push_auxv
  pushes_auxv [] n s r even = (
    s,
    record {
      pushed = refl;
      room = record { room = omega (arith, r.room); top = r.top; followed = r.followed };
      even = even;
      grown = record { lower = omega arith; keeps = λ va above below. refl };
    },
  )
  pushes_auxv ((type, value) ∷ auxv) n s r even =
      let r₁ : HasRoom trans_va low high f tr (n + 16 * length auxv + 8 + 8) s = record {
        room = omega (arith, r.room);
        top = r.top;
        followed = r.followed;
      } in
      let (s', v) = push-Word value (n + 16 * length auxv + 8) s r₁ even in
      let (s'', w) = push-Word type (n + 16 * length auxv) s' v.room v.even in
      let (s₃, x) = pushes_auxv auxv n s'' w.room w.even in
      (
        s₃,
        record {
          pushed = rw (v.pushed, w.pushed, x.pushed) refl;
          room = x.room;
          even = x.even;
          grown = Grown-trans s s'' s₃ (Grown-trans s s' s'' v.grown w.grown) x.grown;
        },
      )
