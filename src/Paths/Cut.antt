-- ===== src/Paths/Cut.antt =====
-- Where `unlinkat` cuts a path.
use neuclear.Base.{
  ℕ, suc, ◌-◌, ◌≡◌, refl, sym, ◌∙◌, ap, subst, ==_iff, ◌⊎◌, inl, inr, true, false, List, [], ◌∷◌,
  ◌++◌, some, arith, ◌==◌, ltb, Bool-cases, length, take, drop, length-append, append_assoc,
  append-nil,
}
use neuclear.Base.Outcome.{ok, panic}
use neuclear.Paths.{slash, starts_with_slash, ends_with_slash, slice, split, next_back, cut_path}
use neuclear.Paths.Resolve.{IsAbsolute, ends_with_slash-append}

-- No slash in a name.
abbrev pub IsName : List ℕ → Type 0
IsName [] = Unit
IsName (c ∷ s) = ((c == slash) ≡ false) × IsName s

-- How `split` sees a text: one name, or several, the last of them behind a slash.
data Split (s : List ℕ) : Type 0 where
  single : split s ≡ s ∷ [] → IsName s → Split s
  several :
      (first second : List ℕ) (rest : List (List ℕ)) (pre base : List ℕ)
      → split s ≡ first ∷ second ∷ rest
      → next_back (second ∷ rest) ≡ some base
      → s ≡ pre ++ base
      → IsName base
      → ends_with_slash pre ≡ true
      → Split s

ends_with_slash-cons :
    (c : ℕ) (s : List ℕ) → ends_with_slash s ≡ true → ends_with_slash (c ∷ s) ≡ true
unfolding ends_with_slash
ends_with_slash-cons c [] h = cc h
ends_with_slash-cons c (d ∷ s) h = h

one_or_several : (s : List ℕ) → Split s
unfolding split next_back ends_with_slash
one_or_several [] = single refl tt
one_or_several (c ∷ s) = elim (one_or_several s) [
  | single e name ↦ elim (Bool-cases (c == slash)) [
    | inl cut ↦ several [] s [] (c ∷ []) s (rw (e, cut) refl) refl refl name cut
    | inr part ↦ single (rw (e, part) refl) (part, name)
  ]
  | several first second rest pre base e last whole name ends ↦ elim (Bool-cases (c == slash)) [
    | inl cut ↦
        several [] first (second ∷ rest) (c ∷ pre) base (rw (e, cut) refl) last (ap (◌∷◌ c) whole)
          name (ends_with_slash-cons c pre ends)
    | inr part ↦
        several (c ∷ first) second rest (c ∷ pre) base (rw (e, part) refl) last (ap (◌∷◌ c) whole)
          name (ends_with_slash-cons c pre ends)
  ]
]

-- The last component of what follows the first slash.
pub record Last (s : List ℕ) : Type 0 where
  pub pre : List ℕ
  pub base : List ℕ
  pub is_last : next_back (split s) ≡ some base
  pub whole : slash ∷ s ≡ pre ++ base
  pub is_name : IsName base
  pub closes : ends_with_slash pre ≡ true

final_name : (s : List ℕ) → Last s
unfolding next_back ends_with_slash
final_name s = elim (one_or_several s) [
  | single e name ↦ record {
    pre = slash ∷ [];
    base = s;
    is_last = rw e refl;
    whole = refl;
    is_name = name;
    closes = refl;
  }
  | several first second rest pre base e last whole name ends ↦ record {
    pre = slash ∷ pre;
    base = base;
    is_last = rw e last;
    whole = ap (◌∷◌ slash) whole;
    is_name = name;
    closes = ends_with_slash-cons slash pre ends;
  }
]

-- The cut of a path: the directory ends with a slash, the name has none, and both make up the path
-- again, but for a slash at its end.
pub record Cuts (s : List ℕ) : Type 0 where
  pub dir : List ℕ
  pub base : List ℕ
  pub result : cut_path s ≡ ok (dir, base)
  pub closes : ends_with_slash dir ≡ true
  pub is_name : IsName base
  pub whole : ((ends_with_slash s ≡ false) × (s ≡ dir ++ base)) ⊎ (s ≡ dir ++ base ++ slash ∷ [])

take-append : (s t : List ℕ) → take (length s) (s ++ t) ≡ s
take-append [] t = refl
take-append (c ∷ s) t = ap (◌∷◌ c) (take-append s t)

-- A front part, by the length of the rest.
front : (u s t : List ℕ) (n : ℕ) → u ≡ s ++ t → n ≡ length s → take n u ≡ s
front u s t n e l = rw (e, l) (take-append s t)

slice_inner : (s t : List ℕ) → slice 1 (suc (length s)) (slash ∷ s ++ t) ≡ ok s
unfolding slice
slice_inner s t =
    rw (small, fits)
      (ap ok (ap (drop 1) (front (slash ∷ s ++ t) (slash ∷ s) t (suc (length s)) refl refl)))
  where
    small : ltb (suc (length s)) 1 ≡ false
    small = ground arith

    fits : ltb (length (slash ∷ s ++ t)) (suc (length s)) ≡ false
    fits = ground (arith, length-append s t)

lengths : (s : List ℕ) (l : Last s) → suc (length s) - length l.base ≡ length l.pre
lengths s l = omega (arith, ap length l.whole, length-append l.pre l.base)

lengths_closed :
    (s : List ℕ) (l : Last s) → length (slash ∷ s ++ slash ∷ []) - length l.base - 1 ≡ length l.pre
lengths_closed s l =
    omega (arith, ap length l.whole, length-append l.pre l.base, length-append s (slash ∷ []))

-- A path that does not end with a slash.
cut_open : (s : List ℕ) → ends_with_slash (slash ∷ s) ≡ false → Cuts (slash ∷ s)
unfolding cut_path
cut_open s h = record {
  dir = l.pre;
  base = l.base;
  result =
      rw
        (
          h,
          ap (slice 1 (suc (length s))) (sym (append-nil (slash ∷ s))) ∙ slice_inner s [],
          l.is_last,
        )
        (ap (λ d. ok (d, l.base)) (front (slash ∷ s) l.pre l.base _ l.whole (lengths s l)));
  closes = l.closes;
  is_name = l.is_name;
  whole = inl (h, l.whole);
}
  where
    l : Last s
    l = final_name s

cut_closed : (s : List ℕ) → Cuts (slash ∷ s ++ slash ∷ [])
unfolding cut_path
cut_closed s = record {
  dir = l.pre;
  base = l.base;
  result =
      rw (ends_with_slash-append (slash ∷ s), last_out, slice_inner s (slash ∷ []), l.is_last)
        (ap (λ d. ok (d, l.base))
          (front u l.pre (l.base ++ slash ∷ []) _ whole_u (lengths_closed s l)));
  closes = l.closes;
  is_name = l.is_name;
  whole = inr together;
}
  where
    u : List ℕ
    u = slash ∷ s ++ slash ∷ []

    l : Last s
    l = final_name s

    last_out : length u - 1 ≡ suc (length s)
    last_out = omega (arith, length-append s (slash ∷ []))

    together : u ≡ l.pre ++ l.base ++ slash ∷ []
    together = ap (λ x. x ++ slash ∷ []) l.whole

    whole_u : u ≡ l.pre ++ (l.base ++ slash ∷ [])
    whole_u = together ∙ append_assoc l.pre l.base (slash ∷ [])

ends_with_slash-last :
    (s : List ℕ) → ends_with_slash s ≡ true → (inner : List ℕ) × (s ≡ inner ++ slash ∷ [])
unfolding ends_with_slash
ends_with_slash-last [] h = cc h
ends_with_slash-last (c ∷ []) h = ([], ap (λ d. d ∷ []) ((==_iff c slash).0 h))
ends_with_slash-last (c ∷ d ∷ s) h =
    let (inner, e) = ends_with_slash-last (d ∷ s) h in (c ∷ inner, ap (◌∷◌ c) e)

-- The cut of an absolute path panics on the root; any other is cut behind its last slash, not counting
-- one at its end: the directory ends with a slash, the name has none, and both make up the path again,
-- with one slash more behind them if, and only if, the path ends with one.
pub cut_path-Cuts : (s : List ℕ) → IsAbsolute s → ((s ≡ slash ∷ []) × (cut_path s ≡ panic)) ⊎ Cuts s
unfolding cut_path starts_with_slash
cut_path-Cuts [] h = cc h
cut_path-Cuts (c ∷ s) h =
    subst (λ d. ((d ∷ s ≡ slash ∷ []) × (cut_path (d ∷ s) ≡ panic)) ⊎ Cuts (d ∷ s))
      (sym ((==_iff c slash).0 h)) (rooted s)
  where
    rooted :
        (t : List ℕ)
        → ((slash ∷ t ≡ slash ∷ []) × (cut_path (slash ∷ t) ≡ panic)) ⊎ Cuts (slash ∷ t)
    rooted [] = inl (refl, refl)
    rooted (d ∷ t) = elim (Bool-cases (ends_with_slash (d ∷ t))) [
      | inl ends ↦
          let (inner, e) = ends_with_slash-last (d ∷ t) ends in
          inr (subst (λ x. Cuts (slash ∷ x)) (sym e) (cut_closed inner))
      | inr open_end ↦ inr (cut_open (d ∷ t) open_end)
    ]
