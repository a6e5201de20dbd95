-- ===== src/Process/Held.antt =====
-- How often a process is among the children of the others.
use neuclear.Base.{
  ℕ, zero, suc, ◌+◌, ◌≡◌, refl, ap, ◌∙◌, inl, inr, Option-cases, List, [], ◌∷◌, ◌++◌, Option, none,
  some, arith, ◌==◌, if◌then◌else◌, set, length,
}
use neuclear.Process.{AddressSpaces, Process, upgrade}
use neuclear.Process.Wait.{count, remove_at, strong_count}

pub count-append : (c : ℕ) (xs ys : List ℕ) → count c (xs ++ ys) ≡ count c xs + count c ys
unfolding count
count-append c [] ys = omega arith
count-append c (x ∷ xs) ys = ground (arith, count-append c xs ys)

pub count_moved :
    (d c : ℕ) (xs cs : List ℕ) → count d (xs ++ c ∷ []) + count d cs ≡ count d xs + count d (c ∷ cs)
unfolding count
count_moved d c xs cs = omega (arith, count-append d xs (c ∷ []))

pub count-remove_at :
    (c i x : ℕ) (xs ys : List ℕ)
    → remove_at i xs ≡ some (x, ys)
    → count c xs ≡ (if x == c then 1 else 0) + count c ys
unfolding count remove_at
count-remove_at c i x [] ys e = cc e
count-remove_at c zero x (y ∷ xs) ys e = ground arith
count-remove_at c (suc i) x (y ∷ xs) ys e = elim (Option-cases (remove_at i xs)) [
  | inl gone ↦ ground arith
  | inr ((z, zs), found) ↦ ground (arith, count-remove_at c i z xs zs found)
]

module _ (mem : AddressSpaces) where
  abbrev pub Processes : Type 0
  Processes = List (Option (Process mem))

  -- What an entry of the list holds.
  abbrev pub entry_holds : ℕ → Option (Process mem) → ℕ
  entry_holds c none = 0
  entry_holds c (some p) = count c p.children

  pub strong_count-set :
      (c r : ℕ) (ps : Processes) (p : Process mem) (o : Option (Process mem))
      → upgrade mem ps r ≡ some p
      → strong_count mem c (set ps r o) + count c p.children
        ≡ strong_count mem c ps + entry_holds c o
  unfolding strong_count upgrade
  strong_count-set c r [] p o e = cc e
  strong_count-set c zero (none ∷ ps) p o e = cc e
  strong_count-set c zero (some q ∷ ps) p none e = ground (arith, ap (entry_holds c) e)
  strong_count-set c zero (some q ∷ ps) p (some q') e = ground (arith, ap (entry_holds c) e)
  strong_count-set c (suc r) (none ∷ ps) p o e = strong_count-set c r ps p o e
  strong_count-set c (suc r) (some q ∷ ps) p o e = omega (arith, strong_count-set c r ps p o e)

  pub strong_count-append :
      (c : ℕ) (ps qs : Processes)
      → strong_count mem c (ps ++ qs) ≡ strong_count mem c ps + strong_count mem c qs
  unfolding strong_count
  strong_count-append c [] qs = omega arith
  strong_count-append c (none ∷ ps) qs = strong_count-append c ps qs
  strong_count-append c (some p ∷ ps) qs = ground (arith, strong_count-append c ps qs)

  pub upgrade-append :
      (r : ℕ) (ps : Processes) (o : Option (Process mem))
      → upgrade mem (ps ++ o ∷ []) r ≡ (if r == length ps then o else upgrade mem ps r)
  unfolding upgrade
  upgrade-append zero [] o = ground arith
  upgrade-append (suc r) [] o = ground arith
  upgrade-append zero (x ∷ ps) o = ground arith
  upgrade-append (suc r) (x ∷ ps) o = upgrade-append r ps o ∙ ground arith

  pub upgrade-set :
      (r q : ℕ) (ps : Processes) (p : Process mem) (o : Option (Process mem))
      → upgrade mem ps r ≡ some p
      → upgrade mem (set ps r o) q ≡ (if q == r then o else upgrade mem ps q)
  unfolding upgrade
  upgrade-set r q [] p o e = cc e
  upgrade-set zero zero (x ∷ ps) p o e = ground arith
  upgrade-set zero (suc q) (x ∷ ps) p o e = ground arith
  upgrade-set (suc r) zero (x ∷ ps) p o e = ground arith
  upgrade-set (suc r) (suc q) (x ∷ ps) p o e = upgrade-set r q ps p o e ∙ ground arith

  pub upgrade-length : (ps : Processes) → upgrade mem ps (length ps) ≡ none
  unfolding upgrade
  upgrade-length [] = refl
  upgrade-length (x ∷ ps) = upgrade-length ps
