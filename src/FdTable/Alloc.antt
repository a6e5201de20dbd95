-- ===== src/FdTable/Alloc.antt =====
-- `alloc_fd` finds the smallest free descriptor, and disturbs no open one.
use neuclear.Base.{
  ℕ, zero, suc, ◌+◌, ◌-◌, ◌≤◌, ◌<◌, ◌≡◌, ◌≢◌, refl, [], ◌∷◌, ◌++◌, Option, none, some, arith, leb,
  ◌==◌, if◌then◌else◌, length, replicate, length-append, length-replicate, ◌⊎◌, inl, inr, sym, ◌∙◌,
  ap, Bool-cases, leb→le, get_elem?-out, set,
}
use neuclear.FdTable.{Table, find_free, extended, take_free, alloc_fd_from, alloc_fd, open_file_at}

-- An entry that is missing or empty.
abbrev pub IsFree : Table → ℕ → Type 0
IsFree t fd = open_file_at t fd ≡ none

-- `fd` is the least free descriptor from `min` on, it is inside the new table `t'`, and the open
-- files of `t` are those of `t'`.
pub record Least (t : Table) (min fd : ℕ) (t' : Table) : Type 0 where
  pub at_least : min ≤ fd
  pub inside : fd < length t'
  pub is_free : IsFree t fd
  pub minimal : (j : ℕ) → min ≤ j → j < fd → open_file_at t j ≢ none
  pub same : (j : ℕ) → open_file_at t' j ≡ open_file_at t j

abbrev Found : ℕ → ℕ → Table → Option ℕ → Type 0
Found min i t r =
    ((k : ℕ) × (r ≡ some (i + k))
      × (min ≤ i + k)
      × (k < length t)
      × (open_file_at t k ≡ none)
      × ((j : ℕ) → min ≤ i + j → j < k → open_file_at t j ≢ none))
    ⊎ ((r ≡ none) × ((j : ℕ) → min ≤ i + j → j < length t → open_file_at t j ≢ none))

-- Passing an entry that is open, or before `min`.
later-Found :
    (min i : ℕ) (x : Option ℕ) (t : Table) (r : Option ℕ)
    → (min ≤ i → open_file_at (x ∷ t) 0 ≢ none)
    → Found min (suc i) t r
    → Found min i (x ∷ t) r
unfolding open_file_at
later-Found min i x t r first (inl (k, e, low, inside, free, least)) =
    inl (suc k, rw e (ap some (omega arith)), omega arith, omega arith, free, below)
  where
    below : (j : ℕ) → min ≤ i + j → j < suc k → open_file_at (x ∷ t) j ≢ none
    below zero h l = first (omega arith)
    below (suc j) h l = least j (omega arith) (omega arith)
later-Found min i x t r first (inr (e, all)) = inr (e, none_here)
  where
    none_here : (j : ℕ) → min ≤ i + j → j < suc (length t) → open_file_at (x ∷ t) j ≢ none
    none_here zero h l = first (omega arith)
    none_here (suc j) h l = all j (omega arith) (omega arith)

find_free-Found : (min i : ℕ) (t : Table) → Found min i t (find_free min i t)
unfolding find_free open_file_at
find_free-Found min i [] = inr (refl, λ j h l. elim l [ ])
find_free-Found min i (some f ∷ t) =
    later-Found min i (some f) t (find_free min (suc i) t) (λ h e. cc)
      (find_free-Found min (suc i) t)
find_free-Found min i (none ∷ t) = elim (Bool-cases (leb min i)) [
  | inl here ↦ inl (
    0,
    rw here (ap some (omega arith)),
    omega (arith, leb→le min i here),
    omega arith,
    refl,
    λ j h l. elim l [ ],
  )
  | inr later ↦ rw later (
      later-Found min i none t (find_free min (suc i) t) (λ h. absurd (ground arith))
        (find_free-Found min (suc i) t))
]

-- Empty entries at the end change nothing.
pub open_file_at-grown :
    (t : Table) (n j : ℕ) → open_file_at (t ++ replicate n none) j ≡ open_file_at t j
unfolding open_file_at
open_file_at-grown [] zero j = refl
open_file_at-grown [] (suc n) zero = refl
open_file_at-grown [] (suc n) (suc j) = open_file_at-grown [] n j
open_file_at-grown (x ∷ t) n zero = refl
open_file_at-grown (x ∷ t) n (suc j) = open_file_at-grown t n j

open_file_at-extended :
    (min : ℕ) (t : Table) (j : ℕ) → open_file_at (extended min t) j ≡ open_file_at t j
unfolding extended
open_file_at-extended min t j = ground (arith, open_file_at-grown t (min - length t) j)

length-extended : (min : ℕ) (t : Table) → min ≤ length (extended min t)
unfolding extended
length-extended min t = ground (
  arith,
  length-append t (replicate (min - length t) none),
  length-replicate {A = Option ℕ} (min - length t) none,
)

pub open_file_at-out : (t : Table) (j : ℕ) → length t ≤ j → open_file_at t j ≡ none
unfolding open_file_at
open_file_at-out t j h = rw (get_elem?-out t j h, open_file_at)

zero_add : (k : ℕ) → 0 + k ≡ k
zero_add k = omega arith

-- The allocated descriptor is the least free one from `min` on, inside the table that comes back,
-- and no open file moved.
pub alloc_fd_from-Least :
    (t : Table) (min : ℕ) → Least t min (alloc_fd_from t min).0 (alloc_fd_from t min).1
unfolding alloc_fd_from
alloc_fd_from-Least t min = elim (find_free-Found min 0 (extended min t)) [
  | inl (k, e, low, inside, free, least) ↦
      rw (e ∙ ap {B = Option ℕ} some (zero_add k), take_free)
        (record {
          at_least = omega arith;
          inside = inside;
          is_free = sym (open_file_at-extended min t k) ∙ free;
          minimal = λ j h l o. least j (omega arith) l (open_file_at-extended min t j ∙ o);
          same = open_file_at-extended min t;
        })
  | inr (e, all) ↦
      rw (e, take_free)
        (record {
          at_least = length-extended min t;
          inside = omega (arith, length-append (extended min t) (none ∷ []));
          is_free =
              sym (open_file_at-extended min t (length (extended min t)))
              ∙ open_file_at-out (extended min t) (length (extended min t)) (omega arith);
          minimal = λ j h l o. all j (omega arith) l (open_file_at-extended min t j ∙ o);
          same = λ j. open_file_at-grown (extended min t) 1 j ∙ open_file_at-extended min t j;
        })
]

-- With no lower bound: the least descriptor that is not open at all.
pub alloc_fd-Least : (t : Table) → Least t 0 (alloc_fd t).0 (alloc_fd t).1
unfolding alloc_fd
alloc_fd-Least t = alloc_fd_from-Least t 0

pub open_file_at-set :
    (t : Table) (fd j : ℕ) (x : Option ℕ)
    → fd < length t
    → open_file_at (set t fd x) j ≡ (if j == fd then x else open_file_at t j)
unfolding open_file_at
open_file_at-set [] fd j x h = elim h [ ]
open_file_at-set (y ∷ t) zero zero none h = refl
open_file_at-set (y ∷ t) zero zero (some f) h = refl
open_file_at-set (y ∷ t) zero (suc j) x h = ground arith
open_file_at-set (y ∷ t) (suc fd) zero x h = ground arith
open_file_at-set (y ∷ t) (suc fd) (suc j) x h =
    ground (arith, open_file_at-set t fd j x (omega arith))
