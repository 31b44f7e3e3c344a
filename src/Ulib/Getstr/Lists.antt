-- ===== src/Ulib/Getstr/Lists.antt =====
-- An element taken out of a list or put into it, by the indices of the others.
use nano_s.Common.{
  ℕ, zero, suc, ◌≤◌, ◌<◌, ◌≡◌, refl, ap, List, [], ◌∷◌, ◌++◌, length, get_or, take, drop, arith,
}

abbrev pub without : ℕ → List ℕ → List ℕ
without i xs = take i xs ++ drop (suc i) xs

abbrev pub insert : ℕ → ℕ → List ℕ → List ℕ
insert i v xs = take i xs ++ (v ∷ drop i xs)

pub get_or-without_before :
    (xs : List ℕ) (i j d : ℕ) → j < i → get_or (without i xs) j d ≡ get_or xs j d
get_or-without_before xs zero j d h = absurd (omega arith)
get_or-without_before [] (suc i) j d h = refl
get_or-without_before (x ∷ xs) (suc i) zero d h = refl
get_or-without_before (x ∷ xs) (suc i) (suc j) d h = get_or-without_before xs i j d (omega arith)

pub get_or-without_after :
    (xs : List ℕ) (i j d : ℕ)
    → i ≤ j
    → i ≤ length xs
    → get_or (without i xs) j d ≡ get_or xs (suc j) d
get_or-without_after [] zero j d h small = refl
get_or-without_after (x ∷ xs) zero j d h small = refl
get_or-without_after [] (suc i) j d h small = absurd (omega arith)
get_or-without_after (x ∷ xs) (suc i) zero d h small = absurd (omega arith)
get_or-without_after (x ∷ xs) (suc i) (suc j) d h small =
    get_or-without_after xs i j d (omega arith) (omega arith)

pub length-without : (xs : List ℕ) (i : ℕ) → i < length xs → suc (length (without i xs)) ≡ length xs
length-without [] i h = absurd (omega arith)
length-without (x ∷ xs) zero h = refl
length-without (x ∷ xs) (suc i) h = omega (arith, length-without xs i (omega arith))

pub without_end : (xs : List ℕ) (i : ℕ) → length xs ≤ i → without i xs ≡ xs
without_end [] zero h = refl
without_end [] (suc i) h = refl
without_end (x ∷ xs) zero h = absurd (omega arith)
without_end (x ∷ xs) (suc i) h = ap (◌∷◌ x) (without_end xs i (omega arith))

pub get_or-insert_before :
    (xs : List ℕ) (i v j d : ℕ) → j < i → i ≤ length xs → get_or (insert i v xs) j d ≡ get_or xs j d
get_or-insert_before xs zero v j d h small = absurd (omega arith)
get_or-insert_before [] (suc i) v j d h small = absurd (omega arith)
get_or-insert_before (x ∷ xs) (suc i) v zero d h small = refl
get_or-insert_before (x ∷ xs) (suc i) v (suc j) d h small =
    get_or-insert_before xs i v j d (omega arith) (omega arith)

pub get_or-insert : (xs : List ℕ) (i v d : ℕ) → i ≤ length xs → get_or (insert i v xs) i d ≡ v
get_or-insert xs zero v d small = refl
get_or-insert [] (suc i) v d small = absurd (omega arith)
get_or-insert (x ∷ xs) (suc i) v d small = get_or-insert xs i v d (omega arith)

pub get_or-insert_after :
    (xs : List ℕ) (i v j d : ℕ)
    → i ≤ j
    → i ≤ length xs
    → get_or (insert i v xs) (suc j) d ≡ get_or xs j d
get_or-insert_after xs zero v j d h small = refl
get_or-insert_after [] (suc i) v j d h small = absurd (omega arith)
get_or-insert_after (x ∷ xs) (suc i) v zero d h small = absurd (omega arith)
get_or-insert_after (x ∷ xs) (suc i) v (suc j) d h small =
    get_or-insert_after xs i v j d (omega arith) (omega arith)

pub length-insert :
    (xs : List ℕ) (i v : ℕ) → i ≤ length xs → length (insert i v xs) ≡ suc (length xs)
length-insert xs zero v small = refl
length-insert [] (suc i) v small = absurd (omega arith)
length-insert (x ∷ xs) (suc i) v small = omega (arith, length-insert xs i v (omega arith))

pub get_or_end : (xs : List ℕ) (j d : ℕ) → length xs ≤ j → get_or xs j d ≡ d
get_or_end [] j d h = refl
get_or_end (x ∷ xs) zero d h = absurd (omega arith)
get_or_end (x ∷ xs) (suc j) d h = get_or_end xs j d (omega arith)
