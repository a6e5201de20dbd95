-- ===== src/DiskDriver/Flat.antt =====
-- Bytes as a function of their place, and lists of bytes in it.
use neuclear.Base.{
  ℕ, zero, suc, ◌+◌, ◌-◌, ◌≤◌, ◌<◌, ◌≡◌, refl, sym, ◌∙◌, ap, ap₂, ◌&&◌, List, [], ◌∷◌, ◌++◌, ltb,
  leb, if◌then◌else◌, arith, length, take, drop, get_or, length-take, length-drop, dec_lt, ◌⊎◌, inl,
  inr,
}

-- The bytes from `place` on.
abbrev pub bytes_from : (ℕ → ℕ) → ℕ → ℕ → List ℕ
bytes_from f place zero = []
bytes_from f place (suc n) = f place ∷ bytes_from f (suc place) n

-- `f` with a list of bytes written over it.
abbrev pub over : ℕ → List ℕ → (ℕ → ℕ) → ℕ → ℕ
over place bytes f q =
    if leb place q && ltb q (place + length bytes) then get_or bytes (q - place) 0 else f q

pub length-bytes_from : (f : ℕ → ℕ) (place n : ℕ) → length (bytes_from f place n) ≡ n
length-bytes_from f place zero = refl
length-bytes_from f place (suc n) = ap suc (length-bytes_from f (suc place) n)

pub bytes_from_same :
    (f g : ℕ → ℕ) (p q n : ℕ)
    → ((i : ℕ) → i < n → f (p + i) ≡ g (q + i))
    → bytes_from f p n ≡ bytes_from g q n
bytes_from_same f g p q zero h = refl
bytes_from_same f g p q (suc n) h = ap₂ (◌∷◌) first (bytes_from_same f g (suc p) (suc q) n rest)
  where
    no_step : (p : ℕ) → p + 0 ≡ p
    no_step p = omega arith

    step : (p i : ℕ) → p + suc i ≡ suc p + i
    step p i = omega arith

    first : f p ≡ g q
    first = ap f (sym (no_step p)) ∙ h 0 (omega arith) ∙ ap g (no_step q)

    rest : (i : ℕ) → i < n → f (suc p + i) ≡ g (suc q + i)
    rest i l = ap f (sym (step p i)) ∙ h (suc i) (omega arith) ∙ ap g (step q i)

pub bytes_from-append :
    (f : ℕ → ℕ) (p n m k : ℕ)
    → k ≡ n + m
    → bytes_from f p n ++ bytes_from f (p + n) m ≡ bytes_from f p k
bytes_from-append f p zero m k e =
    ap₂ (λ q i. bytes_from f q i) {x = p + 0} {y = p} {u = m} {v = k} (omega arith) (omega arith)
bytes_from-append f p (suc n) m zero e = absurd (omega arith)
bytes_from-append f p (suc n) m (suc k) e =
    ap (λ q. f p ∷ (bytes_from f (suc p) n ++ bytes_from f q m)) {x = p + suc n} {y = suc p + n}
      (omega arith)
    ∙ ap (◌∷◌ (f p)) (bytes_from-append f (suc p) n m k (omega arith))

pub take-drop-bytes_from :
    (xs : List ℕ) (offset n : ℕ)
    → offset + n ≤ length xs
    → take n (drop offset xs) ≡ bytes_from (λ j. get_or xs j 0) offset n
take-drop-bytes_from [] zero zero h = refl
take-drop-bytes_from [] zero (suc n) h = absurd (omega arith)
take-drop-bytes_from [] (suc offset) zero h = refl
take-drop-bytes_from [] (suc offset) (suc n) h = absurd (omega arith)
take-drop-bytes_from (x ∷ xs) zero zero h = refl
take-drop-bytes_from (x ∷ xs) zero (suc n) h = ap (◌∷◌ x) (
    take-drop-bytes_from xs zero n (omega arith)
    ∙ bytes_from_same (λ j. get_or xs j 0) (λ j. get_or (x ∷ xs) j 0) 0 1 n (λ i l. later i))
  where
    later : (i : ℕ) → get_or xs (0 + i) 0 ≡ get_or (x ∷ xs) (1 + i) 0
    later i =
        ap (λ k. get_or xs k 0) {x = 0 + i} {y = i} (omega arith)
        ∙ ap (λ k. get_or (x ∷ xs) k 0) {x = suc i} {y = 1 + i} (omega arith)
take-drop-bytes_from (x ∷ xs) (suc offset) n h =
    take-drop-bytes_from xs offset n (omega arith)
    ∙ bytes_from_same (λ j. get_or xs j 0) (λ j. get_or (x ∷ xs) j 0) offset (suc offset) n
        (λ i l.
          ap (λ k. get_or (x ∷ xs) k 0) {x = suc (offset + i)} {y = suc offset + i} (omega arith))

get_or-append :
    (xs ys : List ℕ) (i : ℕ)
    → get_or (xs ++ ys) i 0
      ≡ (if ltb i (length xs) then get_or xs i 0 else get_or ys (i - length xs) 0)
get_or-append [] ys i = ground (arith, no_less)
  where
    no_less : get_or ys (i - 0) 0 ≡ get_or ys i 0
    no_less = ap (λ k. get_or ys k 0) {x = i - 0} {y = i} (omega arith)
get_or-append (x ∷ xs) ys zero = ground arith
get_or-append (x ∷ xs) ys (suc i) = get_or-append xs ys i ∙ less
  where
    same : suc i - suc (length xs) ≡ i - length xs
    same = omega arith

    less : (if ltb i (length xs) then get_or xs i 0 else get_or ys (i - length xs) 0) ≡ (
        if ltb (suc i) (suc (length xs))
        then get_or xs i 0
        else get_or ys (suc i - suc (length xs)) 0)
    less = rw same (ground arith)

get_or-drop : (xs : List ℕ) (n i : ℕ) → get_or (drop n xs) i 0 ≡ get_or xs (n + i) 0
get_or-drop xs zero i = ap (λ k. get_or xs k 0) {x = i} {y = 0 + i} (omega arith)
get_or-drop [] (suc n) i = refl
get_or-drop (x ∷ xs) (suc n) i =
    get_or-drop xs n i
    ∙ ap (λ k. get_or (x ∷ xs) k 0) {x = suc (n + i)} {y = suc n + i} (omega arith)

get_or-take : (xs : List ℕ) (n i : ℕ) → i < n → get_or (take n xs) i 0 ≡ get_or xs i 0
get_or-take xs zero i h = elim h [ ]
get_or-take [] (suc n) i h = refl
get_or-take (x ∷ xs) (suc n) zero h = refl
get_or-take (x ∷ xs) (suc n) (suc i) h = get_or-take xs n i (omega arith)

pub over-in :
    (place : ℕ) (bytes : List ℕ) (f : ℕ → ℕ) (q : ℕ)
    → place ≤ q
    → q < place + length bytes
    → over place bytes f q ≡ get_or bytes (q - place) 0
over-in place bytes f q h l = ground arith

pub over-out :
    (place : ℕ) (bytes : List ℕ) (f : ℕ → ℕ) (q : ℕ)
    → (q < place) ⊎ (place + length bytes ≤ q)
    → over place bytes f q ≡ f q
over-out place bytes f q (inl h) = ground arith
over-out place bytes f q (inr h) = ground arith

appended_lt : (xs ys : List ℕ) (i : ℕ) → i < length xs → get_or (xs ++ ys) i 0 ≡ get_or xs i 0
appended_lt xs ys i h = get_or-append xs ys i ∙ ground arith

appended_ge :
    (xs ys : List ℕ) (i : ℕ) → length xs ≤ i → get_or (xs ++ ys) i 0 ≡ get_or ys (i - length xs) 0
appended_ge xs ys i h = get_or-append xs ys i ∙ ground arith

-- A splice of a list writes over the function of its bytes.
pub splice-over :
    (offset : ℕ) (buf xs : List ℕ) (j : ℕ)
    → offset + length buf ≤ length xs
    → get_or (take offset xs ++ (buf ++ drop (offset + length buf) xs)) j 0
      ≡ over offset buf (λ i. get_or xs i 0) j
splice-over offset buf xs j h =
    let size : length (take offset xs) ≡ offset = omega (arith, length-take offset xs) in
    let tail = drop (offset + length buf) xs in
    let index = λ (i k : ℕ) (e : i ≡ k). ap (λ m. get_or xs m 0) e in
    elim (dec_lt j offset) [
      | yes below ↦
          appended_lt (take offset xs) (buf ++ tail) j (omega arith)
          ∙ get_or-take xs offset j below
          ∙ sym (over-out offset buf (λ i. get_or xs i 0) j (inl below))
      | no above ↦
          appended_ge (take offset xs) (buf ++ tail) j (omega arith)
          ∙ ap (λ k. get_or (buf ++ tail) (j - k) 0) size
          ∙ elim (dec_lt j (offset + length buf)) [
            | yes inside ↦
                appended_lt buf tail (j - offset) (omega arith)
                ∙ sym (over-in offset buf (λ i. get_or xs i 0) j (omega arith) inside)
            | no behind ↦
                appended_ge buf tail (j - offset) (omega arith)
                ∙ get_or-drop xs (offset + length buf) (j - offset - length buf)
                ∙ index (offset + length buf + (j - offset - length buf)) j (omega arith)
                ∙ sym (over-out offset buf (λ i. get_or xs i 0) j (inr (omega arith)))
          ]
    ]

-- A buffer is written in two parts.
pub over-append :
    (p n : ℕ) (buf : List ℕ) (f : ℕ → ℕ) (q : ℕ)
    → n ≤ length buf
    → over (p + n) (drop n buf) (over p (take n buf) f) q ≡ over p buf f q
over-append p n buf f q h =
    let left : length (drop n buf) ≡ length buf - n = length-drop n buf in
    let first : length (take n buf) ≡ n = omega (arith, length-take n buf) in
    elim (dec_lt q (p + n)) [
      | yes before ↦
          over-out (p + n) (drop n buf) (over p (take n buf) f) q (inl before) ∙ elim (dec_lt q p) [
            | yes below ↦
                over-out p (take n buf) f q (inl below) ∙ sym (over-out p buf f q (inl below))
            | no above ↦
                over-in p (take n buf) f q (omega arith) (omega arith)
                ∙ get_or-take buf n (q - p) (omega arith)
                ∙ sym (over-in p buf f q (omega arith) (omega arith))
          ]
      | no behind ↦ elim (dec_lt q (p + length buf)) [
        | yes inside ↦
            over-in (p + n) (drop n buf) (over p (take n buf) f) q (omega arith) (omega arith)
            ∙ get_or-drop buf n (q - (p + n))
            ∙ ap (λ k. get_or buf k 0) {x = n + (q - (p + n))} {y = q - p} (omega arith)
            ∙ sym (over-in p buf f q (omega arith) inside)
        | no outside ↦
            over-out (p + n) (drop n buf) (over p (take n buf) f) q (inr (omega arith))
            ∙ over-out p (take n buf) f q (inr (omega arith))
            ∙ sym (over-out p buf f q (inr (omega arith)))
      ]
    ]
