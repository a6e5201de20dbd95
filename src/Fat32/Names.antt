-- ===== src/Fat32/Names.antt =====
-- Finding an entry of a directory by its name.
use neuclear.Base.{ℕ, ◌<◌, ◌≡◌, ◌≢◌, ◌⊎◌, List, none, some, get_elem?}
use neuclear.Fat32.{Answer, done, Fatfs, node_of, find_in}

module _ (fat : Fatfs) where
  -- No entry before the `i`th has the name.
  abbrev pub NoneBefore : List (List ℕ) → List ℕ → ℕ → Type 0
  NoneBefore files name i = (j : ℕ) → j < i → get_elem? files j ≢ some name

  -- The first entry of the name.
  pub record First (name : List ℕ) (entries : List (Answer fat.Error fat.DirEntry))
      (files : List (List ℕ)) (entry : fat.DirEntry) : Type 0 where
    pub index : ℕ
    pub stands : get_elem? entries index ≡ some (done entry)
    pub named : get_elem? files index ≡ some name
    pub first : NoneBefore files name index

  Found : List ℕ → List (Answer fat.Error fat.DirEntry) → List (List ℕ) → Type 0
  Found name entries files =
      ((find_in fat name entries ≡ done none) × ((i : ℕ) → get_elem? files i ≢ some name))
      ⊎ ((entry : fat.DirEntry) × (find_in fat name entries ≡ done (some (node_of fat entry)))
          × First name entries files entry)
