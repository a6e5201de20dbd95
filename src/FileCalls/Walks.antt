-- ===== src/FileCalls/Walks.antt =====
-- What the loop of `open_inode` finds, against a plain lookup of the path.
use neuclear.Base.{ℕ, ◌≡◌, ◌≢◌, Bool, true, false, List, [], ◌∷◌, ◌++◌, has_bit, ◌⊎◌}
use neuclear.Base.Outcome.{Outcome, ok, err, panic, ◌>>=◌, enoent, enotdir}
use neuclear.Files.{o_creat}
use neuclear.FileCalls.{FileSystem, FindResult, found, missing, invalid_type, broken, create}

module _ (fs : FileSystem) (flags : ℕ) (disk : fs.Disk) where
  -- The node at a path, and nothing made on the way.
  pub lookup : ℕ → List (List ℕ) → FindResult
  lookup curr [] = found curr
  lookup curr (name ∷ names) = elim (fs.find disk curr name) [
    | found next ↦ lookup next names
    | missing ↦ missing
    | invalid_type ↦ invalid_type
    | broken ↦ broken
  ]

  -- The last component is made in the directory that the ones before it lead to.
  pub record Creates (curr : ℕ) (names : List (List ℕ)) (result : Outcome (ℕ × fs.Disk × Bool))
      : Type 0 where
    pub dirs : List (List ℕ)
    pub last : List ℕ
    pub dir : ℕ
    pub path : names ≡ dirs ++ last ∷ []
    pub in_dir : lookup curr dirs ≡ found dir
    pub new : fs.find disk dir last ≡ missing
    pub asked : has_bit flags o_creat ≡ true
    pub made : result ≡ (create fs flags disk dir last >>= λ made. ok (made.0, made.1, true))

  -- A component is missing that is not made: not the last one, or not asked for.
  pub record Stops (curr : ℕ) (names : List (List ℕ)) : Type 0 where
    pub dirs : List (List ℕ)
    pub name : List ℕ
    pub rest : List (List ℕ)
    pub dir : ℕ
    pub path : names ≡ dirs ++ name ∷ rest
    pub in_dir : lookup curr dirs ≡ found dir
    pub absent_there : fs.find disk dir name ≡ missing
    pub unmade : (rest ≢ []) ⊎ (has_bit flags o_creat ≡ false)

  pub data Walks (curr : ℕ) (names : List (List ℕ)) (result : Outcome (ℕ × fs.Disk × Bool))
      : Type 0 where
    exists :
        (node : ℕ)
        → lookup curr names ≡ found node
        → result ≡ ok (node, disk, false)
        → Walks curr names result
    creates : Creates curr names result → Walks curr names result
    absent : Stops curr names → result ≡ err enoent → Walks curr names result
    no_directory : lookup curr names ≡ invalid_type → result ≡ err enotdir → Walks curr names result
    breaks : lookup curr names ≡ broken → result ≡ panic → Walks curr names result
