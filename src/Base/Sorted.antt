-- ===== src/Base/Sorted.antt =====
-- Lists in strictly rising order of a key: the abstract view of a search tree.
use Prim.Native.Nat.{ℕ, ◌<◌, compare, Ordering}
use mathlib.Core.Path.{◌≡◌}
use mathlib.Core.Logic.{◌≢◌}
use mathlib.Core.List.{List, [], ◌∷◌, ◌++◌}
use mathlib.Core.Option.{Option, none, some}
use native.Mathlib.Omega.{arith}

abbrev pub All {ℓ} : {A : Type ℓ} → (A → Type 0) → List A → Type 0
All P [] = Unit
All P (x ∷ xs) = P x × All P xs

pub All-zip {ℓ} :
    {A : Type ℓ} (P Q R : A → Type 0) (xs : List A)
    → ((x : A) → P x → Q x → R x)
    → All P xs
    → All Q xs
    → All R xs
All-zip P Q R [] f p q = tt
All-zip P Q R (x ∷ xs) f p q = (f x p.0 q.0, All-zip P Q R xs f p.1 q.1)

abbrev pub OnSome {ℓ} : {A : Type ℓ} → (A → Type 0) → Option A → Type 0
OnSome P none = Unit
OnSome P (some a) = P a

module _ {ℓ} {A : Type ℓ} where
  pub All-append : (P : A → Type 0) (xs ys : List A) → All P xs → All P ys → All P (xs ++ ys)
  All-append P [] ys p q = q
  All-append P (x ∷ xs) ys p q = (p.0, All-append P xs ys p.1 q)

  pub All-append_left : (P : A → Type 0) (xs ys : List A) → All P (xs ++ ys) → All P xs
  All-append_left P [] ys p = tt
  All-append_left P (x ∷ xs) ys p = (p.0, All-append_left P xs ys p.1)

  pub All-append_right : (P : A → Type 0) (xs ys : List A) → All P (xs ++ ys) → All P ys
  All-append_right P [] ys p = p
  All-append_right P (x ∷ xs) ys p = All-append_right P xs ys p.1

  pub All-map : (P Q : A → Type 0) (xs : List A) → ((x : A) → P x → Q x) → All P xs → All Q xs
  All-map P Q [] f p = tt
  All-map P Q (x ∷ xs) f p = (f x p.0, All-map P Q xs f p.1)

module _ {V : Type 0} (key : V → ℕ) where
  abbrev pub IsSorted : List V → Type 0
  IsSorted [] = Unit
  IsSorted (x ∷ xs) = All (λ y. key x < key y) xs × IsSorted xs

  -- An element whose key is there already is not added.
  abbrev pub insert_by : V → List V → List V
  insert_by v [] = v ∷ []
  insert_by v (x ∷ xs) = elim (compare (key v) (key x)) [
    | Ordering.lt ↦ v ∷ x ∷ xs
    | Ordering.eq ↦ x ∷ xs
    | Ordering.gt ↦ x ∷ insert_by v xs
  ]

  abbrev pub erase_by : ℕ → List V → List V
  erase_by k [] = []
  erase_by k (x ∷ xs) = elim (compare k (key x)) [
    | Ordering.lt ↦ x ∷ xs
    | Ordering.eq ↦ xs
    | Ordering.gt ↦ x ∷ erase_by k xs
  ]

  abbrev pub find_by : ℕ → List V → Option V
  find_by k [] = none
  find_by k (x ∷ xs) = elim (compare k (key x)) [
    | Ordering.lt ↦ none
    | Ordering.eq ↦ some x
    | Ordering.gt ↦ find_by k xs
  ]

  pub IsSorted-left : (xs ys : List V) → IsSorted (xs ++ ys) → IsSorted xs
  IsSorted-left [] ys s = tt
  IsSorted-left (x ∷ xs) ys s = (All-append_left _ xs ys s.0, IsSorted-left xs ys s.1)

  pub IsSorted-right : (xs ys : List V) → IsSorted (xs ++ ys) → IsSorted ys
  IsSorted-right [] ys s = s
  IsSorted-right (x ∷ xs) ys s = IsSorted-right xs ys s.1

  pub IsSorted-below :
      (xs : List V) (y : V) (ys : List V) → IsSorted (xs ++ y ∷ ys) → All (λ x. key x < key y) xs
  IsSorted-below [] y ys s = tt
  IsSorted-below (x ∷ xs) y ys s =
      ((All-append_right _ xs (y ∷ ys) s.0).0, IsSorted-below xs y ys s.1)

  pub All-insert_by :
      (P : V → Type 0) (v : V) (xs : List V) → P v → All P xs → All P (insert_by v xs)
  All-insert_by P v [] p q = (p, tt)
  All-insert_by P v (x ∷ xs) p q = ground (arith, All-insert_by P v xs p q.1)

  All-lower : (n m : ℕ) (xs : List V) → n < m → All (λ y. m < key y) xs → All (λ y. n < key y) xs
  All-lower n m [] h p = tt
  All-lower n m (x ∷ xs) h p = (omega arith, All-lower n m xs h p.1)

  pub All-erase_by : (P : V → Type 0) (k : ℕ) (xs : List V) → All P xs → All P (erase_by k xs)
  All-erase_by P k [] q = tt
  All-erase_by P k (x ∷ xs) q = ground (arith, All-erase_by P k xs q.1)

  pub insert_by-IsSorted : (v : V) (xs : List V) → IsSorted xs → IsSorted (insert_by v xs)
  insert_by-IsSorted v [] s = (tt, tt)
  insert_by-IsSorted v (x ∷ xs) s = ground (
    arith,
    insert_by-IsSorted v xs s.1,
    All-insert_by (λ y. key x < key y) v xs,
    All-lower (key v) (key x) xs,
  )

  -- At a middle element the search goes left, stops, or goes right.
  pub insert_by-left :
      (v y : V) (xs ys : List V)
      → key v < key y
      → insert_by v (xs ++ y ∷ ys) ≡ insert_by v xs ++ y ∷ ys
  insert_by-left v y [] ys h = ground arith
  insert_by-left v y (x ∷ xs) ys h = ground (arith, insert_by-left v y xs ys h)

  pub insert_by-right :
      (v y : V) (xs ys : List V)
      → All (λ x. key x < key y) xs
      → key y < key v
      → insert_by v (xs ++ y ∷ ys) ≡ xs ++ y ∷ insert_by v ys
  insert_by-right v y [] ys a h = ground arith
  insert_by-right v y (x ∷ xs) ys a h = ground (arith, insert_by-right v y xs ys a.1 h)

  pub insert_by-same :
      (v y : V) (xs ys : List V)
      → All (λ x. key x < key y) xs
      → key v ≡ key y
      → insert_by v (xs ++ y ∷ ys) ≡ xs ++ y ∷ ys
  insert_by-same v y [] ys a h = ground arith
  insert_by-same v y (x ∷ xs) ys a h = ground (arith, insert_by-same v y xs ys a.1 h)

  pub erase_by-left :
      (k : ℕ) (y : V) (xs ys : List V)
      → k < key y
      → erase_by k (xs ++ y ∷ ys) ≡ erase_by k xs ++ y ∷ ys
  erase_by-left k y [] ys h = ground arith
  erase_by-left k y (x ∷ xs) ys h = ground (arith, erase_by-left k y xs ys h)

  pub erase_by-right :
      (k : ℕ) (y : V) (xs ys : List V)
      → All (λ x. key x < key y) xs
      → key y < k
      → erase_by k (xs ++ y ∷ ys) ≡ xs ++ y ∷ erase_by k ys
  erase_by-right k y [] ys a h = ground arith
  erase_by-right k y (x ∷ xs) ys a h = ground (arith, erase_by-right k y xs ys a.1 h)

  pub erase_by-same :
      (k : ℕ) (y : V) (xs ys : List V)
      → All (λ x. key x < key y) xs
      → k ≡ key y
      → erase_by k (xs ++ y ∷ ys) ≡ xs ++ ys
  erase_by-same k y [] ys a h = ground arith
  erase_by-same k y (x ∷ xs) ys a h = ground (arith, erase_by-same k y xs ys a.1 h)

  pub find_by-left :
      (k : ℕ) (y : V) (xs ys : List V) → k < key y → find_by k (xs ++ y ∷ ys) ≡ find_by k xs
  find_by-left k y [] ys h = ground arith
  find_by-left k y (x ∷ xs) ys h = ground (arith, find_by-left k y xs ys h)

  pub find_by-right :
      (k : ℕ) (y : V) (xs ys : List V)
      → All (λ x. key x < key y) xs
      → key y < k
      → find_by k (xs ++ y ∷ ys) ≡ find_by k ys
  find_by-right k y [] ys a h = ground arith
  find_by-right k y (x ∷ xs) ys a h = ground (arith, find_by-right k y xs ys a.1 h)

  pub find_by-same :
      (k : ℕ) (y : V) (xs ys : List V)
      → All (λ x. key x < key y) xs
      → k ≡ key y
      → find_by k (xs ++ y ∷ ys) ≡ some y
  find_by-same k y [] ys a h = ground arith
  find_by-same k y (x ∷ xs) ys a h = ground (arith, find_by-same k y xs ys a.1 h)

  pub erase_by-IsSorted : (k : ℕ) (xs : List V) → IsSorted xs → IsSorted (erase_by k xs)
  erase_by-IsSorted k [] s = tt
  erase_by-IsSorted k (x ∷ xs) s =
      ground (arith, erase_by-IsSorted k xs s.1, All-erase_by (λ y. key x < key y) k xs)

  pub find_by-All : (P : V → Type 0) (k : ℕ) (xs : List V) → All P xs → OnSome P (find_by k xs)
  find_by-All P k [] p = tt
  find_by-All P k (x ∷ xs) p =
      elim (compare k (key x))
        as (λ o.
          OnSome P
            (elim o [ Ordering.lt ↦ none | Ordering.eq ↦ some x | Ordering.gt ↦ find_by k xs ])) [
              | Ordering.lt ↦ tt
              | Ordering.eq ↦ p.0
              | Ordering.gt ↦ find_by-All P k xs p.1
            ]

  pub erase_by-insert_by :
      (v : V) (xs : List V) → All (λ x. key x ≢ key v) xs → erase_by (key v) (insert_by v xs) ≡ xs
  erase_by-insert_by v [] d = ground arith
  erase_by-insert_by v (x ∷ xs) d = ground (arith, d.0, erase_by-insert_by v xs d.1)

  pub find_by-insert_by :
      (v : V) (xs : List V)
      → All (λ x. key x ≢ key v) xs
      → find_by (key v) (insert_by v xs) ≡ some v
  find_by-insert_by v [] d = ground arith
  find_by-insert_by v (x ∷ xs) d = ground (arith, d.0, find_by-insert_by v xs d.1)
