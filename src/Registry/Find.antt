-- ===== src/Registry/Find.antt =====
-- The binary search of the device registry, and registration.
use cuore_os.Base.{
  ℕ, zero, suc, ◌+◌, ◌-◌, ◌/◌, ◌^◌, ◌≤◌, ◌<◌, ◌≡◌, refl, sym, subst, ap, ◌∙◌, inl, inr, true, false,
  none, some, List, [], ◌∷◌, ◌++◌, ltb, ◌==◌, arith, All, All-append, IsSorted, Bool-cases, length,
  get_elem?, dec_lt, ltb→lt, ==_iff,
}
use cuore_os.Registry.{Entry, Registry, find_between, device_find, all_above, insert_entry}

abbrev pub id_of : Entry → ℕ
id_of e = e.id

some-injective : {a b : Entry} → some a ≡ some b → a ≡ b
some-injective {a} h = ap (λ o. elim o [ none ↦ a | some v ↦ v ]) h

get_elem?-All :
    (P : Entry → Type 0) (es : List Entry) (i : ℕ) (e : Entry)
    → All P es
    → get_elem? es i ≡ some e
    → P e
get_elem?-All P [] i e p h = ground (arith, h)
get_elem?-All P (x ∷ xs) zero e p h = subst P (some-injective h) p.0
get_elem?-All P (x ∷ xs) (suc i) e p h = get_elem?-All P xs i e p.1 h

get_elem?-present :
    (es : List Entry) (i : ℕ) → i < length es → (e : Entry) × (get_elem? es i ≡ some e)
get_elem?-present [] i h = ground (arith, h)
get_elem?-present (x ∷ xs) zero h = (x, refl)
get_elem?-present (x ∷ xs) (suc i) h = get_elem?-present xs i (omega arith)

sorted-get_elem? :
    (es : List Entry) (i j : ℕ) (a b : Entry)
    → IsSorted id_of es
    → get_elem? es i ≡ some a
    → get_elem? es j ≡ some b
    → i < j
    → a.id < b.id
sorted-get_elem? [] i j a b s p q h = ground (arith, p)
sorted-get_elem? (x ∷ xs) zero zero a b s p q h = ground (arith, h)
sorted-get_elem? (x ∷ xs) zero (suc j) a b s p q h =
    omega (arith, ap id_of (some-injective p), get_elem?-All (λ y. x.id < y.id) xs j b s.0 q)
sorted-get_elem? (x ∷ xs) (suc i) zero a b s p q h = ground (arith, h)
sorted-get_elem? (x ∷ xs) (suc i) (suc j) a b s p q h =
    sorted-get_elem? xs i j a b s.1 p q (omega arith)

sorted-position :
    (es : List Entry) (i j : ℕ) (a b : Entry)
    → IsSorted id_of es
    → get_elem? es i ≡ some a
    → get_elem? es j ≡ some b
    → a.id < b.id
    → i < j
sorted-position es i j a b s p q h = elim (dec_lt i j) [
  | yes lt ↦ lt
  | no ge ↦ elim (dec_lt j i) [
    | yes gt ↦ omega (arith, sorted-get_elem? es j i b a s q p gt, h)
    | no le ↦ omega (
      arith,
      h,
      ap id_of (some-injective (sym p ∙ (ap (get_elem? es) (omega (arith, ge, le)) ∙ q))),
    )
  ]
]

get_elem?-bound : (es : List Entry) (i : ℕ) (e : Entry) → get_elem? es i ≡ some e → i < length es
get_elem?-bound [] i e g = ground (arith, g)
get_elem?-bound (x ∷ xs) zero e g = omega arith
get_elem?-bound (x ∷ xs) (suc i) e g = omega (arith, get_elem?-bound xs i e g)

module _ (id : ℕ) (es : List Entry) (sorted : IsSorted id_of es) where
  -- The search finds an entry that lies in its part of the table.
  find_between-present :
      (fuel low above i : ℕ) (e : Entry)
      → get_elem? es i ≡ some e
      → e.id ≡ id
      → low ≤ i
      → i < above
      → above ≤ length es
      → above ≤ low + fuel
      → find_between fuel id es low above ≡ some e.dev_ptr
  unfolding find_between
  find_between-present zero low above i e g k l u b f = ground (arith, f, l, u)
  find_between-present (suc fuel) low above i e g k l u b f = elim (Bool-cases ((at).0.id == id)) [
    | inl t ↦
        rw (inside, (at).1, t)
          (ap (λ m. some m.dev_ptr)
            (some-injective (sym (at).1 ∙ (ap (get_elem? es) (sym (here ((==_iff _ _).0 t))) ∙ g))))
    | inr t ↦ elim (Bool-cases (ltb (at).0.id id)) [
      | inl below ↦
          rw (inside, (at).1, t, below)
            (find_between-present fuel (mid + 1) above i e g k (right (ltb→lt _ _ below)) u b
              (omega (arith, f, l, u)))
      | inr not_below ↦
          rw (inside, (at).1, t, not_below)
            (find_between-present fuel low mid i e g k l (left (ground (arith, t, not_below)))
              (omega (arith, b, l, u)) (omega (arith, f, l, u)))
    ]
  ]
    where
      mid : ℕ
      mid = low + (above - 1 - low) / 2

      at : (m : Entry) × (get_elem? es mid ≡ some m)
      at = get_elem?-present es mid (omega (arith, l, u, b))

      inside : ltb low above ≡ true
      inside = ground (arith, l, u)

      here : (at).0.id ≡ id → i ≡ mid
      here same = elim (dec_lt i mid) [
        | yes lt ↦ omega (arith, sorted-get_elem? es i mid e (at).0 sorted g (at).1 lt, same, k)
        | no ge ↦ elim (dec_lt mid i) [
          | yes gt ↦ omega (arith, sorted-get_elem? es mid i (at).0 e sorted (at).1 g gt, same, k)
          | no le ↦ omega (arith, ge, le)
        ]
      ]

      right : (at).0.id < id → mid + 1 ≤ i
      right below =
          omega (arith, sorted-position es mid i (at).0 e sorted (at).1 g (omega (arith, below, k)))

      left : id < (at).0.id → i < mid
      left beyond = sorted-position es i mid e (at).0 sorted g (at).1 (omega (arith, beyond, k))

  -- `device_find` finds an entry of a table in the order of the ids.
  pub find_between-whole :
      (i : ℕ) (e : Entry)
      → get_elem? es i ≡ some e
      → e.id ≡ id
      → find_between (length es) id es 0 (length es) ≡ some e.dev_ptr
  find_between-whole i e g k =
      find_between-present (length es) 0 (length es) i e g k (omega arith)
        (get_elem?-bound es i e g) (omega arith) (omega arith)

-- A table in the order of the ids, all below the next one, which does not wrap.
pub record IsValid (r : Registry) : Type 0 where
  pub in_order : IsSorted id_of r.entries
  pub below_next : All (λ e. e.id < r.next_device_id) r.entries
  pub no_wrap : r.next_device_id + 1 < 2 ^ 32

-- On a valid table `device_find` finds the device of each entry by its id: the fuel of as many
-- turns as there are entries is enough for the binary search.
pub device_find-present :
    (r : Registry) (i : ℕ) (e : Entry)
    → IsValid r
    → get_elem? r.entries i ≡ some e
    → device_find e.id r ≡ some e.dev_ptr
unfolding device_find
device_find-present r i e valid g = find_between-whole e.id r.entries valid.in_order i e g refl

not_all_above : (id : ℕ) (e : Entry) (es : List Entry) → e.id < id → all_above id (e ∷ es) ≡ false
unfolding all_above
not_all_above id e es h = ground (arith, h)

pub insert_entry-append :
    (new : Entry) (es : List Entry)
    → All (λ e. e.id < new.id) es
    → insert_entry new es ≡ es ++ new ∷ []
unfolding insert_entry
insert_entry-append new [] h = refl
insert_entry-append new (e ∷ es) h =
    rw (not_all_above new.id e es h.0) (ap (λ xs. e ∷ xs) (insert_entry-append new es h.1))

pub IsSorted-last :
    (new : Entry) (es : List Entry)
    → All (λ e. e.id < new.id) es
    → IsSorted id_of es
    → IsSorted id_of (es ++ new ∷ [])
IsSorted-last new [] h s = (tt, tt)
IsSorted-last new (e ∷ es) h s =
    (All-append (λ x. e.id < x.id) es (new ∷ []) s.0 (h.0, tt), IsSorted-last new es h.1 s.1)

pub get_elem?-last :
    (new : Entry) (es : List Entry) → get_elem? (es ++ new ∷ []) (length es) ≡ some new
get_elem?-last new [] = refl
get_elem?-last new (e ∷ es) = get_elem?-last new es
