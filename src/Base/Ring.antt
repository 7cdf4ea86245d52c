-- ===== src/Base/Ring.antt =====
-- Arrays as functions, and the elements of a ring of a given size between two positions.
use Prim.Native.Nat.{ℕ, zero, suc, ◌+◌, ◌-◌, ◌%◌, ◌≤◌, ◌<◌}
use mathlib.Core.Path.{◌≡◌, refl, ◌∙◌, sym, ap}
use mathlib.Core.Logic.{◌⊎◌, inl, inr}
use mathlib.Core.List.{List, [], ◌∷◌, ◌++◌}
use mathlib.Core.Bool.{true, false}
use native.Mathlib.Nat.{mod-eq_of_lt, mod_self}
use native.Mathlib.Omega.{arith}
use native.Mathlib.Decide.{dec_lt}
use cuore_os.Base.Lists.{length, get_or}
use cuore_os.Base.Tests.{◌==◌, ltb, leb, if◌then◌else◌}

abbrev pub store {ℓ} : {A : Type ℓ} → (ℕ → A) → ℕ → A → ℕ → A
store b i v j = if j == i then v else b j

-- `memcpy` into an array from a position on.
unfoldable pub copy_at {ℓ} : {A : Type ℓ} → List A → ℕ → (ℕ → A) → ℕ → A
copy_at [] i b = b
copy_at (c ∷ cs) i b = copy_at cs (i + 1) (store b i c)

get_or_cons :
    (x : ℕ) (xs : List ℕ) (n d : ℕ)
    → get_or (x ∷ xs) n d ≡ (if n == 0 then x else get_or xs (n - 1) d)
get_or_cons x xs zero d = refl
get_or_cons x xs (suc n) d = rw (apart, back) refl
  where
    apart : (suc n == 0) ≡ false
    apart = ground arith

    back : suc n - 1 ≡ n
    back = omega arith

-- An array after the copy, place by place.
pub copy_at-get_or :
    (xs : List ℕ) (p : ℕ) (b : ℕ → ℕ) (i : ℕ)
    → copy_at xs p b i ≡ (if leb p i then get_or xs (i - p) (b i) else b i)
unfolding copy_at
copy_at-get_or [] p b i = ground arith
copy_at-get_or (x ∷ xs) p b i = copy_at-get_or xs (p + 1) (store b p x) i ∙ step
  where
    back : i - (p + 1) ≡ i - p - 1
    back = omega arith

    step :
        (if leb (p + 1) i then get_or xs (i - (p + 1)) (store b p x i) else store b p x i)
        ≡ (if leb p i then get_or (x ∷ xs) (i - p) (b i) else b i)
    step = rw (back, get_or_cons x xs (i - p) (b i)) (ground arith)

-- The position behind `i`.
abbrev pub next_in : ℕ → ℕ → ℕ
next_in size i = (i + 1) % size

-- How many elements lie from `i` on before `j`.
abbrev pub distance : ℕ → ℕ → ℕ → ℕ
distance size i j = if ltb j i then j + size - i else j - i

pub next_in-cases :
    (size i : ℕ)
    → i < size
    → ((i + 1 < size) × (next_in size i ≡ i + 1)) ⊎ ((i + 1 ≡ size) × (next_in size i ≡ 0))
next_in-cases size i h = elim (dec_lt (i + 1) size) [
  | yes lt ↦ inl (lt, mod-eq_of_lt lt)
  | no ge ↦ inr (omega (arith, ge), ap (λ k. k % size) (omega (arith, ge)) ∙ mod_self size)
]

distance-bound : (size i j : ℕ) → i < size → j < size → distance size i j < size
distance-bound size i j h k = ground arith

written {ℓ} : {A : Type ℓ} (b : ℕ → A) (i : ℕ) (v : A) → store b i v i ≡ v
written b i v = ground arith

distance-next :
    (size i j : ℕ)
    → i < size
    → j < size
    → (i == j) ≡ false
    → (next_in size i < size) × (distance size i j ≡ suc (distance size (next_in size i) j))
distance-next size i j h k n = elim (next_in-cases size i h) [
  | inl (lt, e) ↦ rw e (ground (arith, n), ground (arith, n))
  | inr (eq, e) ↦ rw e (ground (arith, n, eq), ground (arith, n, eq))
]

distance-next_end :
    (size i j : ℕ)
    → i < size
    → j < size
    → distance size i j + 1 < size
    → (next_in size j < size) × (distance size i (next_in size j) ≡ suc (distance size i j))
distance-next_end size i j h k n = elim (next_in-cases size j k) [
  | inl (lt, e) ↦ rw e (ground (arith, n), ground (arith, n))
  | inr (eq, e) ↦ rw e (ground (arith, n, eq), ground (arith, n, eq))
]

module _ {ℓ} {A : Type ℓ} (size : ℕ) where
  -- The loop `while (curr != end) { ...; curr = (curr + 1) % size; }`, on fuel.
  unfoldable pub ring_read : (fuel : ℕ) → (ℕ → A) → (curr end : ℕ) → List A
  ring_read zero b curr end = []
  ring_read (suc fuel) b curr end =
      let rest = ring_read fuel b (next_in size curr) end in
      if curr == end then [] else b curr ∷ rest

  elems : ℕ → (ℕ → A) → ℕ → List A
  elems zero b i = []
  elems (suc d) b i = b i ∷ elems d b (next_in size i)

  ring_read-elems :
      (d fuel : ℕ) (b : ℕ → A) (curr end : ℕ)
      → curr < size
      → end < size
      → distance size curr end ≡ d
      → d ≤ fuel
      → ring_read fuel b curr end ≡ elems d b curr
  unfolding ring_read elems
  ring_read-elems zero zero b curr end h k e f = refl
  ring_read-elems zero (suc fuel) b curr end h k e f = rw same refl
    where
      same : (curr == end) ≡ true
      same = ground (arith, e)
  ring_read-elems (suc d) zero b curr end h k e f = ground (arith, f)
  ring_read-elems (suc d) (suc fuel) b curr end h k e f = rw apart (
      ap (λ xs. b curr ∷ xs)
        (ring_read-elems d fuel b (next_in size curr) end (distance-next size curr end h k apart).0
          k (omega (arith, (distance-next size curr end h k apart).1, e)) (omega arith)))
    where
      apart : (curr == end) ≡ false
      apart = ground (arith, e)

  -- A write at a position that is not among the elements.
  elems-store :
      (d : ℕ) (b : ℕ → A) (curr i : ℕ) (v : A)
      → curr < size
      → i < size
      → d ≤ distance size curr i
      → elems d (store b i v) curr ≡ elems d b curr
  unfolding elems
  elems-store zero b curr i v h k e = refl
  elems-store (suc d) b curr i v h k e = rw apart (
      ap (λ xs. b curr ∷ xs)
        (elems-store d b (next_in size curr) i v (distance-next size curr i h k apart).0 k
          (omega (arith, (distance-next size curr i h k apart).1, e))))
    where
      apart : (curr == i) ≡ false
      apart = ground (arith, e)

  -- The element at the end.
  elems-last :
      (d : ℕ) (b : ℕ → A) (curr end : ℕ)
      → curr < size
      → end < size
      → distance size curr end ≡ d
      → elems (suc d) b curr ≡ elems d b curr ++ b end ∷ []
  unfolding elems
  elems-last zero b curr end h k e = ap (λ i. b i ∷ []) (ground (arith, e))
  elems-last (suc d) b curr end h k e =
      ap (λ xs. b curr ∷ xs)
        (elems-last d b (next_in size curr) end (distance-next size curr end h k apart).0 k
          (omega (arith, (distance-next size curr end h k apart).1, e)))
    where
      apart : (curr == end) ≡ false
      apart = ground (arith, e)

  -- What is read after a write at the end of the part, where there is room for one more.
  pub ring_read-store :
      (fuel : ℕ) (b : ℕ → A) (curr end : ℕ) (v : A)
      → curr < size
      → end < size
      → distance size curr end + 1 < size
      → size ≤ fuel
      → ring_read fuel (store b end v) curr (next_in size end) ≡ ring_read fuel b curr end ++ v ∷ []
  ring_read-store fuel b curr end v h k room f =
      ring_read-elems (suc (distance size curr end)) fuel (store b end v) curr (next_in size end) h
        step.0 step.1 (omega (arith, room))
      ∙ elems-last (distance size curr end) (store b end v) curr end h k refl
      ∙ ap (λ x. elems (distance size curr end) (store b end v) curr ++ x ∷ []) (written b end v)
      ∙ ap (λ xs. xs ++ v ∷ [])
          (elems-store (distance size curr end) b curr end v h k (omega arith)
            ∙ sym (
                ring_read-elems (distance size curr end) fuel b curr end h k refl
                  (omega (arith, room))))
    where
      step :
          (next_in size end < size)
          × (distance size curr (next_in size end) ≡ suc (distance size curr end))
      step = distance-next_end size curr end h k room

  -- What is read from the next position on.
  pub ring_read-next :
      (fuel : ℕ) (b : ℕ → A) (curr end : ℕ)
      → curr < size
      → end < size
      → (curr == end) ≡ false
      → size ≤ fuel
      → ring_read fuel b curr end ≡ b curr ∷ ring_read fuel b (next_in size curr) end
  unfolding elems
  ring_read-next fuel b curr end h k n f =
      ring_read-elems (suc (distance size (next_in size curr) end)) fuel b curr end h k step.1
        (omega (arith, step.1, distance-bound size curr end h k))
      ∙ ap (λ xs. b curr ∷ xs)
          (sym (
            ring_read-elems (distance size (next_in size curr) end) fuel b (next_in size curr) end
              step.0 k refl (omega (arith, step.1, distance-bound size curr end h k))))
    where
      step :
          (next_in size curr < size)
          × (distance size curr end ≡ suc (distance size (next_in size curr) end))
      step = distance-next size curr end h k n

  elems-length : (d : ℕ) (b : ℕ → A) (i : ℕ) → length (elems d b i) ≡ d
  unfolding elems
  elems-length zero b i = refl
  elems-length (suc d) b i = ap suc (elems-length d b (next_in size i))

  pub ring_read-length :
      (fuel : ℕ) (b : ℕ → A) (curr end : ℕ)
      → curr < size
      → end < size
      → size ≤ fuel
      → length (ring_read fuel b curr end) ≡ distance size curr end
  ring_read-length fuel b curr end h k f =
      ap length (
        ring_read-elems (distance size curr end) fuel b curr end h k refl
          (omega (arith, distance-bound size curr end h k)))
      ∙ elems-length (distance size curr end) b curr

  pub ring_read-empty :
      (fuel : ℕ) (b : ℕ → A) (curr end : ℕ) → (curr == end) ≡ true → ring_read fuel b curr end ≡ []
  unfolding ring_read
  ring_read-empty zero b curr end e = refl
  ring_read-empty (suc fuel) b curr end e = rw e refl
