-- ===== src/Process/Collect.antt =====
-- What a pass of `wait4` finds among the children, and what it takes away.
use neuclear.Base.{
  ℕ, suc, ◌≤◌, ◌≡◌, ◌≢◌, Bool, false, List, [], ◌∷◌, Option, none, some, arith, get_elem?, zero,
}
use neuclear.Base.Outcome.{ok}
use neuclear.Process.{AddressSpaces, Process, Kernel, upgrade}
use neuclear.Process.Wait.{count, scan}
use neuclear.Process.Held.{strong_count-set}
use neuclear.Process.Family.{IsFamily}
use neuclear.Process.Scan.{Finds, nothing_found, scan_from}

count-get_elem? : (xs : List ℕ) (i c : ℕ) → get_elem? xs i ≡ some c → 1 ≤ count c xs
unfolding count
count-get_elem? [] i c e = cc e
count-get_elem? (x ∷ xs) zero c e = ground arith
count-get_elem? (x ∷ xs) (suc i) c e = ground (arith, count-get_elem? xs i c e)

module _ (mem : AddressSpaces) (init : ℕ) (k : Kernel mem) where
  child_alive :
      (r : ℕ) (p : Process mem)
      → IsFamily mem init [] k
      → upgrade mem k.processes r ≡ some p
      → (i c : ℕ) → get_elem? p.children i ≡ some c
      → upgrade mem k.processes c ≢ none
  child_alive r p (root, f) e i c at gone = ground (
    arith,
    f.dead c gone,
    strong_count-set mem c r k.processes p none e,
    count-get_elem? p.children i c at,
  )

  -- The `for` of `wait4` ends without a panic: it finds out whether a child has the pid, and the index
  -- of a zombie among those that have, if there is one.
  pub scan-Finds :
      (pid r : ℕ) (p : Process mem)
      → IsFamily mem init [] k
      → upgrade mem k.processes r ≡ some p
      → (proper : Bool) × (at : Option ℕ) × (scan mem pid k 0 p.children (false, none)
          ≡ ok (proper, at))
        × Finds mem pid k p.children proper at
  scan-Finds pid r p family e =
      let (result, scanned, finds) =
        scan_from mem pid k p.children [] false none (child_alive r p family e)
          (nothing_found mem pid k) in
      (result.0, result.1, scanned, finds)
