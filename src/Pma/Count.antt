-- ===== src/Pma/Count.antt =====
-- How often an address stands in the lists of the size classes of mem/pma.c, after a change of one.
use cuore_os.Base.{
  ℕ, suc, ◌-◌, ◌≤◌, ◌<◌, ◌≡◌, ◌≢◌, refl, sym, ap, subst, ◌∙◌, ◌⊎◌, inl, inr, true, false,
  Bool-cases, ◌&&◌, List, [], ◌∷◌, ◌==◌, ==_iff, if◌then◌else◌, and-parts, arith,
}
use cuore_os.Pma.{set_class}
use cuore_os.Pma.Lists.{erase}

-- How often an address stands in a list.
abbrev pub count : ℕ → List ℕ → ℕ
count b [] = 0
count b (c ∷ cs) = if c == b then suc (count b cs) else count b cs

-- A class, by its tests.
class_of-tests :
    (class : ℕ × ℕ) (i j : ℕ) → ((i == class.0) && (j == class.1)) ≡ true → class ≡ (i, j)
class_of-tests (fl, sl) i j e =
    let both = and-parts (i == fl) (j == sl) e in
    ap (λ x. (x, sl)) (sym ((==_iff i fl).0 both.0))
    ∙ ap (λ y. (i, y)) (sym ((==_iff j sl).0 both.1))

module _ (f : ℕ → ℕ → List ℕ) (class : ℕ × ℕ) (bs : List ℕ) (c i j : ℕ) where
  count-here :
      ((i == class.0) && (j == class.1)) ≡ true
      → count c (set_class f class.0 class.1 bs i j) ≡ count c bs
  count-here e = rw e refl

  count-elsewhere :
      ((i == class.0) && (j == class.1)) ≡ false
      → count c (set_class f class.0 class.1 bs i j) ≡ count c (f i j)
  count-elsewhere e = rw e refl

-- Who is listed when a block has been put in front of the list of a class.
pub count-push :
    (f : ℕ → ℕ → List ℕ) (class : ℕ × ℕ) (b c i j : ℕ)
    → 0 < count c (set_class f class.0 class.1 (b ∷ f class.0 class.1) i j)
    → ((c ≡ b) × (class ≡ (i, j))) ⊎ (0 < count c (f i j))
count-push f class b c i j h = elim (Bool-cases ((i == class.0) && (j == class.1))) [
  | inl e ↦
      let same = class_of-tests class i j e in
      elim (Bool-cases (b == c)) [
        | inl t ↦ inl (sym ((==_iff b c).0 t), same)
        | inr t ↦ inr (
            subst (λ (k : ℕ × ℕ). 0 < count c (f k.0 k.1)) same
              (rw t at (subst (λ n. 0 < n) (count-here f class (b ∷ f class.0 class.1) c i j e) h)))
      ]
  | inr e ↦ inr (subst (λ n. 0 < n) (count-elsewhere f class (b ∷ f class.0 class.1) c i j e) h)
]

pub count-push_once :
    (f : ℕ → ℕ → List ℕ) (class : ℕ × ℕ) (b c i j : ℕ)
    → ((i j : ℕ) → count b (f i j) ≡ 0)
    → ((i j : ℕ) → count c (f i j) ≤ 1)
    → count c (set_class f class.0 class.1 (b ∷ f class.0 class.1) i j) ≤ 1
count-push_once f class b c i j none_yet h = elim (Bool-cases ((i == class.0) && (j == class.1))) [
  | inl e ↦ rw (count-here f class (b ∷ f class.0 class.1) c i j e) (elim (Bool-cases (b == c)) [
    | inl t ↦
        let gone : count c (f class.0 class.1) ≡ 0 =
          subst (λ x. count x (f class.0 class.1) ≡ 0) ((==_iff b c).0 t)
            (none_yet class.0 class.1) in
        rw (t, gone) (omega arith)
    | inr t ↦ rw t (h class.0 class.1)
  ])
  | inr e ↦ rw (count-elsewhere f class (b ∷ f class.0 class.1) c i j e) (h i j)
]

-- Who is listed when a block has left the list of its class.
count-erase : (b c : ℕ) (bs : List ℕ) → b ≢ c → count c (erase b bs) ≡ count c bs
unfolding erase
count-erase b c [] ne = refl
count-erase b c (d ∷ bs) ne = elim (Bool-cases (d == b)) [
  | inl e ↦ let other : (d == c) ≡ false = ground (arith, e, ne) in rw (e, other) refl
  | inr e ↦ rw (e, count-erase b c bs ne) refl
]

count-erase_self : (b : ℕ) (bs : List ℕ) → count b (erase b bs) ≡ count b bs - 1
unfolding erase
count-erase_self b [] = refl
count-erase_self b (d ∷ bs) = elim (Bool-cases (d == b)) [
  | inl e ↦ rw e (omega arith)
  | inr e ↦ rw (e, e) (count-erase_self b bs)
]

pub count-erase_le : (b c : ℕ) (bs : List ℕ) → count c (erase b bs) ≤ count c bs
unfolding erase
count-erase_le b c [] = omega arith
count-erase_le b c (d ∷ bs) = elim (Bool-cases (d == b)) [
  | inl e ↦ rw e (ground arith)
  | inr e ↦ rw e (ground (arith, count-erase_le b c bs))
]

pub count-pull :
    (f : ℕ → ℕ → List ℕ) (b fl sl c i j : ℕ)
    → ((i j : ℕ) → 0 < count b (f i j) → (i ≡ fl) × (j ≡ sl))
    → count b (f fl sl) ≤ 1
    → 0 < count c (set_class f fl sl (erase b (f fl sl)) i j)
    → (0 < count c (f i j)) × (b ≢ c)
count-pull f b fl sl c i j only h g = elim (Bool-cases ((i == fl) && (j == sl))) [
  | inl e ↦
      let both = and-parts (i == fl) (j == sl) e in
      let left : 0 < count c (erase b (f fl sl)) =
        subst (λ n. 0 < n) (count-here f (fl, sl) (erase b (f fl sl)) c i j e) g in
      let ne : b ≢ c = λ q. gone (subst (λ x. 0 < count x (erase b (f fl sl))) (sym q) left) in
      let here : 0 < count c (f fl sl) = subst (λ n. 0 < n) (count-erase b c (f fl sl) ne) left in
      (
        subst (λ x. 0 < count c (f x j)) (sym ((==_iff i fl).0 both.0))
            (subst (λ x. 0 < count c (f fl x)) (sym ((==_iff j sl).0 both.1)) here),
        ne,
      )
  | inr e ↦
      let left : 0 < count c (f i j) =
        subst (λ n. 0 < n) (count-elsewhere f (fl, sl) (erase b (f fl sl)) c i j e) g in
      (left, λ q. apart_tests e (only i j (subst (λ x. 0 < count x (f i j)) (sym q) left)))
]
  where
    gone : ¬ (0 < count b (erase b (f fl sl)))
    gone k = ground (arith, k, h, count-erase_self b (f fl sl))

    apart_tests : ((i == fl) && (j == sl)) ≡ false → ¬ ((i ≡ fl) × (j ≡ sl))
    apart_tests e k = ground (arith, e, k)
