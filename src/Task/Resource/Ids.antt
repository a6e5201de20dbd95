-- ===== src/Task/Resource/Ids.antt =====
-- Pids and tids are handed out once until they come back.
use neuclear.Base.{
  ℕ, ◌+◌, ◌≤◌, ◌<◌, ◌≡◌, refl, Bool, true, false, not, List, [], ◌∷◌, arith, ltb, ◌==◌, ==_refl,
  if◌then◌else◌, contains, word, ◌&&◌, Bool-cases, inl, inr, ◌⊎◌, ltb→lt,
}
use neuclear.Base.Outcome.{Outcome, ok, panic}
use neuclear.Task.Resource.{RecycleAllocator, begin_with, alloc_from, alloc, dealloc}

abbrev pub in_use : RecycleAllocator → ℕ → Bool
in_use a id = ltb id a.current && not (contains a.recycled id)

abbrev pub Distinct : ℕ → List ℕ → Type 0
Distinct bound [] = Unit {0}
Distinct bound (x ∷ xs) = (x < bound) × (contains xs x ≡ false) × Distinct bound xs

-- Every recycled id is below `current` and stands once in the stack.
abbrev pub IsValid : RecycleAllocator → Type 0
IsValid a = Distinct a.current a.recycled

pub begin_with-IsValid : (n : ℕ) → IsValid (begin_with n)
unfolding begin_with
begin_with-IsValid n = tt

contains_below :
    (bound : ℕ) (xs : List ℕ) (x : ℕ) → Distinct bound xs → bound ≤ x → contains xs x ≡ false
contains_below bound [] x d h = refl
contains_below bound (y ∷ xs) x d h = ground (arith, contains_below bound xs x d.2 h)

Distinct-mono : (m n : ℕ) (xs : List ℕ) → m ≤ n → Distinct m xs → Distinct n xs
Distinct-mono m n [] h d = tt
Distinct-mono m n (x ∷ xs) h d = (omega arith, d.1, Distinct-mono m n xs h d.2)

abbrev pub Allocates : RecycleAllocator → ℕ × RecycleAllocator → Type 0
Allocates a result =
    (in_use a result.0 ≡ false)
    × ((j : ℕ) → in_use result.1 j ≡ (if j == result.0 then true else in_use a j))
    × IsValid result.1

alloc_from-Allocates :
    (current : ℕ) (recycled : List ℕ)
    → current + 1 < word
    → Distinct current recycled
    → let a : RecycleAllocator = record { current = current; recycled = recycled } in
      Allocates a (alloc_from recycled a)
unfolding alloc_from
alloc_from-Allocates current [] h d = (ground arith, λ j. ground arith, tt)
alloc_from-Allocates current (x ∷ xs) h d =
    (ground (arith, ==_refl x), λ j. ground (arith, d.1), d.2)

-- `alloc` returns an id that is not in use, marks it, changes the state of no other id, and keeps
-- the allocator valid, as long as the counter does not wrap.
pub alloc-Allocates :
    (a : RecycleAllocator) → a.current + 1 < word → IsValid a → Allocates a (alloc a)
unfolding alloc
alloc-Allocates a h v = alloc_from-Allocates a.current a.recycled h v

abbrev pub Frees : RecycleAllocator → ℕ → Outcome RecycleAllocator → Type 0
Frees a id result =
    ((in_use a id ≡ false) × (result ≡ panic))
    ⊎ ((in_use a id ≡ true)
        × ((a' : RecycleAllocator) × (result ≡ ok a')
            × ((j : ℕ) → in_use a' j ≡ (if j == id then false else in_use a j))
            × IsValid a'))

-- `dealloc` panics on an id that is not in use, and otherwise frees that id alone and keeps the
-- allocator valid.
pub dealloc-Frees : (a : RecycleAllocator) (id : ℕ) → IsValid a → Frees a id (dealloc a id)
unfolding dealloc
dealloc-Frees a id v = elim (Bool-cases (ltb id a.current)) [
  | inl below ↦ elim (Bool-cases (contains a.recycled id)) [
    | inl twice ↦ inl (rw (below, twice), rw (below, twice))
    | inr live ↦ inr (
      rw (below, live),
      (
        record a { recycled = id ∷ a.recycled },
        rw (below, live),
        λ j. ground arith,
        (ltb→lt id a.current below, live, v),
      ),
    )
  ]
  | inr out ↦ inl (rw out, rw out)
]
