-- ===== src/Stack/Strings.antt =====
-- Strings, numbers and lists of pointers on the stack.
use neuclear.Base.{
  ℕ, zero, suc, ◌+◌, ◌/◌, ◌%◌, ◌≤◌, ◌<◌, ◌≡◌, refl, ◌∙◌, ap, List, [], ◌∷◌, ◌++◌, Option, some,
  arith, get_elem?, length, length-append, get_elem?-some_lt, inl, inr, ◌⊎◌,
}
use neuclear.Base.Outcome.{Outcome, ok}
use neuclear.Stack.{le_bytes, StackInit, push_byte, push_usize, push_bytes, push_str}
use neuclear.Stack.Push.{Translates, IsFollowed, Pushed, sp_down_lem, push_lem}

pub get_elem?-append :
    (ys xs : List ℕ) (i b : ℕ)
    → get_elem? (ys ++ xs) i ≡ some b
    → (get_elem? ys i ≡ some b) ⊎ ((j : ℕ) × (i ≡ length ys + j) × (get_elem? xs j ≡ some b))
get_elem?-append [] xs i b e = inr (i, omega arith, e)
get_elem?-append (y ∷ ys) xs zero b e = inl e
get_elem?-append (y ∷ ys) xs (suc i) b e = elim (get_elem?-append ys xs i b e) [
  | inl at ↦ inl at
  | inr (j, i_is, at) ↦ inr (j, omega arith, at)
]

pub length-le_bytes : (n v : ℕ) → length (le_bytes n v) ≡ n
unfolding le_bytes
length-le_bytes zero v = refl
length-le_bytes (suc n) v = ap suc (length-le_bytes n (v / 256))

module _ (trans_va : ℕ → Option ℕ) (low high : ℕ) (f : ℕ → ℕ)
    (tr : Translates trans_va low high f) where
  abbrev pub Puts : List ℕ → StackInit → StackInit → Type 0
  Puts = Pushed trans_va low high f tr

  -- What a push comes to: it succeeds, and the bytes are on the stack.
  abbrev pub Pushes : List ℕ → StackInit → Outcome StackInit → Type 0
  Pushes bs s result = (s' : StackInit) × (result ≡ ok s') × Puts bs s s'

  -- There is room for so many bytes.
  pub record HasRoom (n : ℕ) (s : StackInit) : Type 0 where
    pub room : low + n ≤ s.sp
    pub top : s.sp ≤ high
    pub followed : IsFollowed trans_va low high f tr s

  pub Puts-HasRoom :
      (n m : ℕ) (bs : List ℕ) (s s' : StackInit)
      → HasRoom n s
      → Puts bs s s'
      → m + length bs ≤ n
      → HasRoom m s'
  Puts-HasRoom n m bs s s' r p h = record {
    room = omega (arith, r.room, p.down);
    top = omega (arith, p.inside);
    followed = inr (p.inside, p.follows);
  }

  -- One push after another.
  pub Puts-append :
      (xs ys : List ℕ) (s s' s'' : StackInit)
      → length ys ≤ s'.sp
      → length xs ≤ s.sp
      → s.sp ≤ high
      → Puts xs s s'
      → Puts ys s' s''
      → Puts (ys ++ xs) s s''
  Puts-append xs ys s s' s'' enough fits top p q = record {
    down = omega (arith, p.down, q.down, length-append ys xs);
    inside = q.inside;
    follows = q.follows;
    holds = λ i b e. elim (get_elem?-append ys xs i b e) [
      | inl at ↦ q.holds i b at
      | inr (j, i_is, at) ↦
          let inside : s'.sp + j < high = omega (arith, p.down, get_elem?-some_lt xs j b at) in
          let same : s''.sp + i ≡ s'.sp + j = omega (arith, q.down) in
          ap (λ va. s''.memory (f va)) same
          ∙ q.keeps (s'.sp + j) (omega arith) inside
          ∙ p.holds j b at
    ];
    keeps = λ va above inside. q.keeps va (omega (arith, p.down)) inside ∙ p.keeps va above inside;
  }

  pub push_byte-Pushes :
      (b : ℕ) (s : StackInit) → HasRoom 1 s → Pushes (b ∷ []) s (push_byte trans_va b s)
  unfolding push_byte
  push_byte-Pushes b s r = (
    _,
    rw (sp_down_lem trans_va low high f tr 1 s (omega arith) r.room r.top (omega arith) r.followed)
        refl,
    push_lem trans_va low high f tr (b ∷ []) s (omega arith) r.room r.top (omega arith),
  )

  pub push_usize-Pushes :
      (v : ℕ) (s : StackInit)
      → HasRoom 8 s
      → s.sp % 8 ≡ 0
      → Pushes (le_bytes 8 v) s (push_usize trans_va v s)
  unfolding push_usize
  push_usize-Pushes v s r al = (
    _,
    rw (sp_down_lem trans_va low high f tr 8 s (omega arith) r.room r.top (omega arith) r.followed)
        refl,
    push_lem trans_va low high f tr (le_bytes 8 v) s (omega arith) r.room r.top (omega arith),
  )

  pub push_bytes-Pushes :
      (bs : List ℕ) (s : StackInit)
      → HasRoom (length bs) s
      → s.sp < high
      → s.sp_kernel_va ≡ f s.sp
      → Pushes bs s (push_bytes trans_va bs s)
  unfolding push_bytes
  push_bytes-Pushes [] s r inside follows = (
    s,
    refl,
    record {
      down = omega arith;
      inside = inside;
      follows = follows;
      holds = λ i b e. cc e;
      keeps = λ va above below. refl;
    },
  )
  push_bytes-Pushes (b ∷ bs) s r inside follows =
      let less : HasRoom (length bs) s = record {
        room = omega (arith, r.room);
        top = r.top;
        followed = r.followed;
      } in
      let (s', e, p) = push_bytes-Pushes bs s less inside follows in
      let (s'', e', q) =
        push_byte-Pushes b s' (Puts-HasRoom (suc (length bs)) 1 bs s s' r p (omega arith)) in
      (
        s'',
        rw (e, e') refl,
        Puts-append bs (b ∷ []) s s' s'' (omega (arith, r.room, p.down)) (omega (arith, r.room))
            r.top p q,
      )

  -- A string and its 0 are at the stack pointer, and everything above is as it was.
  pub push_str-Pushes :
      (text : List ℕ) (s : StackInit)
      → HasRoom (length text + 1) s
      → Pushes (text ++ 0 ∷ []) s (push_str trans_va text s)
  unfolding push_str
  push_str-Pushes text s r =
      let first : HasRoom 1 s = record {
        room = omega (arith, r.room);
        top = r.top;
        followed = r.followed;
      } in
      let (s', e, p) = push_byte-Pushes 0 s first in
      let (s'', e', q) =
        push_bytes-Pushes text s'
          (Puts-HasRoom (length text + 1) (length text) (0 ∷ []) s s' r p (omega arith)) p.inside
          p.follows in
      (
        s'',
        rw (e, e') refl,
        Puts-append (0 ∷ []) text s s' s'' (omega (arith, r.room, p.down)) (omega (arith, r.room))
            r.top p q,
      )
