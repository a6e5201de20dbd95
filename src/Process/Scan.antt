-- ===== src/Process/Scan.antt =====
-- What the `for` of `wait4` finds among the children.
use neuclear.Base.{
  ℕ, suc, ◌<◌, ◌≡◌, ◌≢◌, refl, sym, ◌∙◌, ap, subst, Bool, true, false, List, [], ◌∷◌, ◌++◌, Option,
  none, some, arith, get_elem?, length, length-append, get_elem?-some_lt, get_elem?-append_lt,
  get_elem?-append_length, append_assoc, append-nil, ◌⊎◌, inl, inr, Bool-cases, Option-cases, zero,
}
use neuclear.Base.Outcome.{ok}
use neuclear.Process.{AddressSpaces, Process, Kernel, upgrade}
use neuclear.Process.Wait.{is_proper, scan}

last_of :
    (xs : List ℕ) (x i d : ℕ)
    → get_elem? (xs ++ x ∷ []) i ≡ some d
    → ((get_elem? xs i ≡ some d) × (i < length xs)) ⊎ ((i ≡ length xs) × (d ≡ x))
last_of [] x zero d e = inr (refl, ground arith)
last_of [] x (suc i) d e = cc e
last_of (y ∷ xs) x zero d e = inl (e, omega arith)
last_of (y ∷ xs) x (suc i) d e = elim (last_of xs x i d e) [
  | inl (at, below) ↦ inl (at, omega arith)
  | inr (last, same) ↦ inr (ap suc last, same)
]

module _ (mem : AddressSpaces) (pid : ℕ) (k : Kernel mem) where
  -- The child at a place of the list.
  abbrev pub IsChild : List ℕ → ℕ → Process mem → Type 0
  IsChild cs i q = (c : ℕ) × (get_elem? cs i ≡ some c) × (upgrade mem k.processes c ≡ some q)

  -- `has_proper_child` and `child_index`, in terms of the children.
  pub record Finds (cs : List ℕ) (proper : Bool) (at : Option ℕ) : Type 0 where
    pub absent :
        proper ≡ false → (i : ℕ) (q : Process mem) → IsChild cs i q → is_proper mem pid q ≡ false
    pub present :
        proper ≡ true → (i : ℕ) × (q : Process mem) × IsChild cs i q × (is_proper mem pid q ≡ true)
    pub zombie :
        (i : ℕ)
        → at ≡ some i
        → (q : Process mem) × IsChild cs i q × (is_proper mem pid q ≡ true) × (q.is_zombie ≡ true)
    pub living :
        at ≡ none
        → (i : ℕ) (q : Process mem) → IsChild cs i q
        → is_proper mem pid q ≡ true
        → q.is_zombie ≡ false

  pub nothing_found : Finds [] false none
  nothing_found = record {
    absent = λ e i q (c, at, alive). cc at;
    present = λ e. cc e;
    zombie = λ i e. cc e;
    living = λ e i q (c, at, alive) proper. cc at;
  }

  earlier : (cs : List ℕ) (c i : ℕ) (q : Process mem) → IsChild cs i q → IsChild (cs ++ c ∷ []) i q
  earlier cs c i q (d, at, alive) =
      (d, get_elem?-append_lt cs (c ∷ []) i (get_elem?-some_lt cs i d at) ∙ at, alive)

  last-IsChild :
      (cs : List ℕ) (c : ℕ) (q : Process mem)
      → upgrade mem k.processes c ≡ some q
      → IsChild (cs ++ c ∷ []) (length cs) q
  last-IsChild cs c q e = (c, get_elem?-append_length cs c [], e)

  -- A child of the longer list is one of the shorter, or the last.
  either-IsChild :
      (cs : List ℕ) (c i : ℕ) (q p : Process mem)
      → upgrade mem k.processes c ≡ some p
      → IsChild (cs ++ c ∷ []) i q
      → IsChild cs i q ⊎ (p ≡ q)
  either-IsChild cs c i q p e (d, at, alive) = elim (last_of cs c i d at) [
    | inl (before, below) ↦ inl (d, before, alive)
    | inr (last, same) ↦ inr (some_is (sym e ∙ ap (upgrade mem k.processes) (sym same) ∙ alive))
  ]
    where
      some_is : some p ≡ some q → p ≡ q
      some_is s = cc s

  passes_over :
      (cs : List ℕ) (c : ℕ) (p : Process mem) (proper : Bool) (at : Option ℕ)
      → upgrade mem k.processes c ≡ some p
      → is_proper mem pid p ≡ false
      → Finds cs proper at
      → Finds (cs ++ c ∷ []) proper at
  passes_over cs c p proper at e misses f = record {
    absent = λ none_yet i q child. elim (either-IsChild cs c i q p e child) [
      | inl before ↦ f.absent none_yet i q before
      | inr same ↦ sym (ap (is_proper mem pid) same) ∙ misses
    ];
    present = λ some_yet.
        let (i, q, child, fits) = f.present some_yet in (i, q, earlier cs c i q child, fits);
    zombie = λ i is_at.
        let (q, child, fits, dead) = f.zombie i is_at in (q, earlier cs c i q child, fits, dead);
    living = λ is_none i q child fits. elim (either-IsChild cs c i q p e child) [
      | inl before ↦ f.living is_none i q before fits
      | inr same ↦ absurd (contradiction (sym misses ∙ ap (is_proper mem pid) same ∙ fits))
    ];
  }
    where
      contradiction : false ≢ true
      contradiction x = cc x

  takes_zombie :
      (cs : List ℕ) (c : ℕ) (p : Process mem) (proper : Bool) (at : Option ℕ)
      → upgrade mem k.processes c ≡ some p
      → is_proper mem pid p ≡ true
      → p.is_zombie ≡ true
      → Finds cs proper at
      → Finds (cs ++ c ∷ []) true (some (length cs))
  takes_zombie cs c p proper at e fits dead f = record {
    absent = λ misses. cc misses;
    present = λ t. (length cs, p, last-IsChild cs c p e, fits);
    zombie = λ i is_at. (
      p,
      subst (λ j. IsChild (cs ++ c ∷ []) j p) (index_is i is_at) (last-IsChild cs c p e),
      fits,
      dead,
    );
    living = λ misses. cc misses;
  }
    where
      index_is : (i : ℕ) → some (length cs) ≡ some i → length cs ≡ i
      index_is i s = cc s

  takes_living :
      (cs : List ℕ) (c : ℕ) (p : Process mem) (proper : Bool) (at : Option ℕ)
      → upgrade mem k.processes c ≡ some p
      → is_proper mem pid p ≡ true
      → p.is_zombie ≡ false
      → Finds cs proper at
      → Finds (cs ++ c ∷ []) true at
  takes_living cs c p proper at e fits alive f = record {
    absent = λ misses. cc misses;
    present = λ t. (length cs, p, last-IsChild cs c p e, fits);
    zombie = λ i is_at.
        let (q, child, proper_too, dead) = f.zombie i is_at in
        (q, earlier cs c i q child, proper_too, dead);
    living = λ is_none i q child proper_too. elim (either-IsChild cs c i q p e child) [
      | inl before ↦ f.living is_none i q before proper_too
      | inr same ↦ sym (ap (λ x. x.is_zombie) same) ∙ alive
    ];
  }

  abbrev pub Scanned : ℕ → List ℕ → List ℕ → Bool × Option ℕ → Type 0
  Scanned index cs all found =
      (result : Bool × Option ℕ) × (scan mem pid k index cs found ≡ ok result)
      × Finds all result.0 result.1

  pub scan_from :
      (cs seen : List ℕ) (proper : Bool) (at : Option ℕ)
      → ((i c : ℕ) → get_elem? cs i ≡ some c → upgrade mem k.processes c ≢ none)
      → Finds seen proper at
      → Scanned (length seen) cs (seen ++ cs) (proper, at)
  unfolding scan
  scan_from [] seen proper at alive f =
      ((proper, at), refl, subst (λ l. Finds l proper at) (sym (append-nil seen)) f)
  scan_from (c ∷ cs) seen proper at alive f = elim (Option-cases (upgrade mem k.processes c)) [
    | inl gone ↦ absurd (alive 0 c refl gone)
    | inr (p, e) ↦
        let later : (i d : ℕ) → get_elem? cs i ≡ some d → upgrade mem k.processes d ≢ none =
          λ i d at_i. alive (suc i) d at_i in
        elim (Bool-cases (is_proper mem pid p)) [
          | inl fits ↦ elim (Bool-cases p.is_zombie) [
            | inl dead ↦
                rw (e, fits, dead, scan)
                  (shifted true (some (length seen)) (
                    scan_from cs (seen ++ c ∷ []) true (some (length seen)) later
                      (takes_zombie seen c p proper at e fits dead f)))
            | inr living ↦
                rw (e, fits, living, scan)
                  (shifted true at (
                    scan_from cs (seen ++ c ∷ []) true at later
                      (takes_living seen c p proper at e fits living f)))
          ]
          | inr misses ↦
              rw (e, misses, scan)
                (shifted proper at (
                  scan_from cs (seen ++ c ∷ []) proper at later
                    (passes_over seen c p proper at e misses f)))
        ]
  ]
    where
      one_more : length (seen ++ c ∷ []) ≡ suc (length seen)
      one_more = omega (arith, length-append seen (c ∷ []))

      shifted :
          (proper' : Bool) (at' : Option ℕ)
          → Scanned (length (seen ++ c ∷ [])) cs ((seen ++ c ∷ []) ++ cs) (proper', at')
          → Scanned (suc (length seen)) cs (seen ++ c ∷ cs) (proper', at')
      shifted proper' at' scanned =
          subst (λ n. Scanned n cs (seen ++ c ∷ cs) (proper', at')) one_more
            (subst (λ l. Scanned (length (seen ++ c ∷ [])) cs l (proper', at'))
              (append_assoc seen (c ∷ []) cs) scanned)
