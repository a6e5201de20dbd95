-- ===== src/Stack/Push.antt =====
-- What the user program finds on the stack after a push.
use neuclear.Base.{
  ℕ, zero, suc, ◌+◌, ◌-◌, ◌%◌, ◌≤◌, ◌<◌, ◌≡◌, ◌≢◌, refl, sym, ◌∙◌, ap, List, [], ◌∷◌, Option, some,
  arith, ◌==◌, get_elem?, length, sub64, word, inl, inr, ◌⊎◌, false, Bool-cases, dec_lt,
  get_elem?-some_lt,
}
use neuclear.Base.Outcome.{ok}
use neuclear.Config.{page_size}
use neuclear.Stack.{Bytes, store, StackInit, sp_down, write_bytes}

pub store-outside :
    (k q : ℕ) (bs : List ℕ) (m : Bytes) → (q < k) ⊎ (k + length bs ≤ q) → store k bs m q ≡ m q
unfolding store
store-outside k q [] m h = refl
store-outside k q (b ∷ bs) m (inl h) =
    store-outside (k + 1) q bs _ (inl (omega arith)) ∙ ground arith
store-outside k q (b ∷ bs) m (inr h) =
    store-outside (k + 1) q bs _ (inr (omega arith)) ∙ ground arith

pub store-inside :
    (k i b : ℕ) (bs : List ℕ) (m : Bytes) → get_elem? bs i ≡ some b → store k bs m (k + i) ≡ b
unfolding store
store-inside k i b [] m e = cc e
store-inside k zero b (c ∷ bs) m e =
    store-outside (k + 1) (k + 0) bs _ (inl (omega arith)) ∙ ground arith
store-inside k (suc i) b (c ∷ bs) m e =
    ap (store (k + 1) bs _) {x = k + suc i} {y = k + 1 + i} (omega arith)
    ∙ store-inside (k + 1) i b bs _ e

-- The pages of the stack: in the range, `f` is the kernel's address of a user address.
pub record Translates (trans_va : ℕ → Option ℕ) (low high : ℕ) (f : ℕ → ℕ) : Type 0 where
  pub finds : (va : ℕ) → low ≤ va → va < high → trans_va va ≡ some (f va)
  pub runs_on :
      (va : ℕ) → low ≤ va → suc va < high → suc va % page_size ≢ 0 → f (suc va) ≡ suc (f va)
  pub apart : (va va' : ℕ) → low ≤ va → va < high → low ≤ va' → va' < high → f va ≡ f va' → va ≡ va'
  pub aligned : (va : ℕ) → low ≤ va → va < high → f va % 8 ≡ va % 8
  pub fits : (va : ℕ) → low ≤ va → va < high → f va < word
  pub below_word : high < word

plus_zero : (n : ℕ) → n + 0 ≡ n
plus_zero n = omega arith

plus_suc : (n i : ℕ) → n + suc i ≡ suc (n + i)
plus_suc n i = omega arith

module _ (trans_va : ℕ → Option ℕ) (low high : ℕ) (f : ℕ → ℕ)
    (tr : Translates trans_va low high f) where
  -- Inside a page the translation runs on.
  pub linear :
      (va i : ℕ) → low ≤ va → va + i < high → va % page_size + i < page_size → f (va + i) ≡ f va + i
  linear va zero h l p = ap f (plus_zero va) ∙ sym (plus_zero (f va))
  linear va (suc i) h l p =
      ap f (plus_suc va i)
      ∙ tr.runs_on (va + i) (omega arith) (omega arith) (omega arith)
      ∙ ap suc (linear va i h (omega arith) (omega arith))
      ∙ sym (plus_suc (f va) i)

  -- `sp_kernel_va` follows `sp`, but at the start of a page, where the next push looks it up.
  abbrev pub IsFollowed : StackInit → Type 0
  IsFollowed s = (s.sp % page_size ≡ 0) ⊎ ((s.sp < high) × (s.sp_kernel_va ≡ f s.sp))

  -- The bytes are on the stack, and what was there before is too.
  pub record Pushed (bs : List ℕ) (s s' : StackInit) : Type 0 where
    pub down : s'.sp ≡ s.sp - length bs
    pub inside : s'.sp < high
    pub follows : s'.sp_kernel_va ≡ f s'.sp
    pub holds : (i b : ℕ) → get_elem? bs i ≡ some b → s'.memory (f (s'.sp + i)) ≡ b
    pub keeps : (va : ℕ) → s.sp ≤ va → va < high → s'.memory (f va) ≡ s.memory (f va)

  moved : (s : StackInit) (n : ℕ) → low + n ≤ s.sp → s.sp ≤ high → sub64 s.sp n ≡ s.sp - n
  moved s n l h = omega (arith, tr.below_word)

  back : (s : StackInit) (n : ℕ) → low + n ≤ s.sp → s.sp ≡ s.sp - n + n
  back s n l = omega arith

  -- Where `sp` goes, if what is pushed lies in one page.
  pub sp_down_lem :
      (n : ℕ) (s : StackInit)
      → 0 < n
      → low + n ≤ s.sp
      → s.sp ≤ high
      → (s.sp - n) % page_size + n ≤ page_size
      → IsFollowed s
      → sp_down trans_va n s ≡ ok (record s { sp = s.sp - n; sp_kernel_va = f (s.sp - n) })
  unfolding sp_down
  sp_down_lem n s pos l h one_page followed = elim (Bool-cases (s.sp % page_size == 0)) [
    | inl start ↦ rw (start, moved s n l h, tr.finds (s.sp - n) (omega arith) (omega arith)) refl
    | inr within ↦
        rw (within, moved s n l h)
          (ap (λ va. ok (record s { sp = s.sp - n; sp_kernel_va = va })) (followed_down within))
  ]
    where
      followed_down : (s.sp % page_size == 0) ≡ false → sub64 s.sp_kernel_va n ≡ f (s.sp - n)
      followed_down within = elim followed [
        | inl start ↦ absurd (ground arith)
        | inr (inside, follows) ↦
            let e : f s.sp ≡ f (s.sp - n) + n =
              ap f (back s n l) ∙ linear (s.sp - n) n (omega arith) (omega arith) (ground arith) in
            omega (
              arith,
              e,
              follows,
              tr.fits (s.sp - n) (omega arith) (omega arith),
              tr.fits s.sp (omega arith) inside,
            )
      ]

  pub push_lem :
      (bs : List ℕ) (s : StackInit)
      → 0 < length bs
      → low + length bs ≤ s.sp
      → s.sp ≤ high
      → (s.sp - length bs) % page_size + length bs ≤ page_size
      → Pushed bs s (
          write_bytes trans_va bs
            (record s { sp = s.sp - length bs; sp_kernel_va = f (s.sp - length bs) }))
  push_lem bs s pos l h one_page = record {
    down = refl;
    inside = omega arith;
    follows = refl;
    holds = λ i b e.
        ap (store (f (s.sp - length bs)) bs s.memory) (
          linear (s.sp - length bs) i (omega arith) (omega (arith, get_elem?-some_lt bs i b e))
            (omega (arith, get_elem?-some_lt bs i b e)))
        ∙ store-inside (f (s.sp - length bs)) i b bs s.memory e;
    keeps = λ va above inside.
        store-outside (f (s.sp - length bs)) (f va) bs s.memory (other va above inside);
  }
    where
      other :
          (va : ℕ)
          → s.sp ≤ va
          → va < high
          → (f va < f (s.sp - length bs)) ⊎ (f (s.sp - length bs) + length bs ≤ f va)
      other va above inside = elim (dec_lt (f va) (f (s.sp - length bs))) [
        | yes lower ↦ inl lower
        | no not_lower ↦ elim (dec_lt (f va) (f (s.sp - length bs) + length bs)) [
          | no higher ↦ inr (omega arith)
          | yes among ↦
              let i = f va - f (s.sp - length bs) in
              let at : f (s.sp - length bs + i) ≡ f (s.sp - length bs) + i =
                linear (s.sp - length bs) i (omega arith) (omega arith) (omega arith) in
              let same : va ≡ s.sp - length bs + i =
                tr.apart va (s.sp - length bs + i) (omega arith) inside (omega arith) (omega arith)
                  (omega (arith, at)) in
              absurd (omega (arith, same))
        ]
      ]
