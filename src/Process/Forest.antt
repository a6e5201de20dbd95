-- ===== src/Process/Forest.antt =====
-- The children of the processes form a forest below the first process.
use neuclear.Base.{
  ℕ, ◌+◌, ◌≤◌, ◌≡◌, ◌≢◌, ap, List, [], ◌∷◌, ◌++◌, none, some, arith, ◌==◌, if◌then◌else◌, set,
  length, length-set,
}
use neuclear.Process.{AddressSpaces, Process, upgrade}
use neuclear.Process.Wait.{count, strong_count}
use neuclear.Process.Held.{
  Processes, count-append, strong_count-set, strong_count-append, upgrade-append, upgrade-set,
  upgrade-length,
}

module _ (mem : AddressSpaces) (init : ℕ) where
  -- Nobody is a child twice, nor is the first process; the processes in `cs` are on the way from one
  -- list to another; a child is alive.
  pub record IsForest (cs : List ℕ) (ps : Processes mem) : Type 0 where
    pub once : (c : ℕ) → strong_count mem c ps + count c cs ≤ 1
    pub dead : (c : ℕ) → upgrade mem ps c ≡ none → strong_count mem c ps + count c cs ≡ 0
    pub root : strong_count mem init ps + count init cs ≡ 0
    pub root_alive : upgrade mem ps init ≢ none

  pub IsForest-set :
      (cs cs' : List ℕ) (ps : Processes mem) (r : ℕ) (p q : Process mem)
      → upgrade mem ps r ≡ some p
      → ((c : ℕ) → count c q.children + count c cs' ≤ count c p.children + count c cs)
      → IsForest cs ps
      → IsForest cs' (set ps r (some q))
  IsForest-set cs cs' ps r p q e fewer f = record {
    once = λ c. omega (arith, strong_count-set mem c r ps p (some q) e, fewer c, f.once c);
    dead = λ c gone.
        omega
          (arith, strong_count-set mem c r ps p (some q) e, fewer c, f.dead c (still_gone c gone));
    root = omega (arith, strong_count-set mem init r ps p (some q) e, fewer init, f.root);
    root_alive = λ gone. f.root_alive (still_gone init gone);
  }
    where
      still_gone : (c : ℕ) → upgrade mem (set ps r (some q)) c ≡ none → upgrade mem ps c ≡ none
      still_gone c gone = ground (arith, upgrade-set mem r c ps p (some q) e)

  -- The last hold on a process is given up.
  pub IsForest-drop :
      (ps : Processes mem) (c : ℕ) (p : Process mem)
      → upgrade mem ps c ≡ some p
      → IsForest (c ∷ []) ps
      → IsForest [] (set ps c none)
  unfolding count
  IsForest-drop ps c p e f = record {
    once = λ d. omega (arith, strong_count-set mem d c ps p none e, f.once d);
    dead = λ d gone. ground (
      arith,
      upgrade-set mem c d ps p none e,
      strong_count-set mem d c ps p none e,
      f.once d,
      f.dead d,
    );
    root = omega (arith, strong_count-set mem init c ps p none e, f.root);
    root_alive = λ gone. ground (arith, upgrade-set mem c init ps p none e, f.root, f.root_alive);
  }

  -- A new process, without children, is pushed to the children of another.
  pub IsForest-grow :
      (ps : Processes mem) (r : ℕ) (p q child : Process mem)
      → upgrade mem ps r ≡ some p
      → q.children ≡ p.children ++ length ps ∷ []
      → child.children ≡ []
      → IsForest [] ps
      → IsForest [] (set ps r (some q) ++ some child ∷ [])
  unfolding count strong_count
  IsForest-grow ps r p q child e pushed fresh f = record {
    once = λ c. ground (arith, holds c, f.once c, f.dead c, finds c, unused);
    dead = λ c gone. ground (arith, holds c, f.dead c, finds c gone);
    root = ground (arith, holds init, f.root, f.root_alive, unused);
    root_alive = λ gone. f.root_alive (finds init gone).0;
  }
    where
      ps' : Processes mem
      ps' = set ps r (some q) ++ some child ∷ []

      unused : upgrade mem ps (length ps) ≡ none
      unused = upgrade-length mem ps

      holds :
          (c : ℕ)
          → strong_count mem c ps' + 0 ≡ strong_count mem c ps + (if length ps == c then 1 else 0)
      holds c = omega (
        arith,
        strong_count-append mem c (set ps r (some q)) (some child ∷ []),
        strong_count-set mem c r ps p (some q) e,
        ap (count c) pushed,
        ap (count c) fresh,
        count-append c p.children (length ps ∷ []),
      )

      finds : (c : ℕ) → upgrade mem ps' c ≡ none → (upgrade mem ps c ≡ none) × (c ≢ length ps)
      finds c gone = ground (
        arith,
        upgrade-append mem c (set ps r (some q)) (some child),
        length-set ps r (some q),
        upgrade-set mem r c ps p (some q) e,
      )
