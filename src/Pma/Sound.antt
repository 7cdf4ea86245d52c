-- ===== src/Pma/Sound.antt =====
-- When the free lists of a zone of mem/pma.c and its bitmap fit together.
use cuore_os.Base.{
  ℕ, ◌+◌, ◌*◌, ◌%◌, ◌≤◌, ◌<◌, ◌≡◌, ◌≢◌, and-parts, ==_iff, ◌^◌, [], ◌∷◌, length, not, if◌then◌else◌,
  Bool-cases, refl, sym, ap, subst, ◌∙◌, ◌⊎◌, inl, inr, Bool, true, false, ◌&&◌, List, ltb, ◌==◌,
  if_cases, arith,
}
use cuore_os.Vmm.{page_size}
use cuore_os.Pma.{Zone, Memory, mapping_insert, is_zero, set_bit, set_class}
use cuore_os.Pma.Words.{mapping_insert-below, is_zero-set}
use cuore_os.Pma.Lists.{erase, is_only, remove_free_block, insert_free_block, block_insert}
use cuore_os.Pma.Count.{count, count-push, count-push_once, count-erase_le, count-pull}

abbrev pub listed : Memory → (b fl sl : ℕ) → ℕ
listed m b fl sl = count b (m.zone.blocks fl sl)

-- Whole pages of the zone, none of which is used.
pub record IsFree (used : ℕ → Bool) (total_pages b n : ℕ) : Type 0 where
  pub nonzero : 0 < b
  pub start : b % page_size ≡ 0
  pub whole : n % page_size ≡ 0
  pub some_room : 0 < n
  pub inside : b + n ≤ total_pages * page_size
  pub of_word : n < 2 ^ 64
  pub unused : (pfn : ℕ) → b ≤ pfn * page_size → pfn * page_size < b + n → used pfn ≡ false

-- A range that meets no listed block.
abbrev pub IsApart : Memory → (b n : ℕ) → Type 0
IsApart m b n = (c fl sl : ℕ) → 0 < listed m c fl sl → (b + n ≤ c) ⊎ (c + m.header c ≤ b)

-- Every block is free, stands once in the list of its class, and meets no other one; the bits of a
-- row are set for the lists that are not empty, and the bit of a row when one of these is.
pub record IsSound (m : Memory) : Type 0 where
  pub once : (b fl sl : ℕ) → listed m b fl sl ≤ 1
  pub class : (b fl sl : ℕ) → 0 < listed m b fl sl → mapping_insert (m.header b) ≡ (fl, sl)
  pub free :
      (b fl sl : ℕ) → 0 < listed m b fl sl → IsFree m.bitmap m.zone.total_pages b (m.header b)
  pub apart :
      (b fl sl c i j : ℕ)
      → 0 < listed m b fl sl
      → 0 < listed m c i j
      → b ≢ c
      → (b + m.header b ≤ c) ⊎ (c + m.header c ≤ b)
  pub filled : (fl sl : ℕ) → m.zone.sl_bitmap fl sl ≡ true → 0 < length (m.zone.blocks fl sl)
  pub marked : (fl sl : ℕ) → 0 < length (m.zone.blocks fl sl) → m.zone.sl_bitmap fl sl ≡ true
  pub rows : (fl : ℕ) → m.zone.fl_bitmap fl ≡ not (is_zero (m.zone.sl_bitmap fl))

-- A free range outside the lists.
pub record IsLoose (m : Memory) (b n : ℕ) : Type 0 where
  pub free : IsFree m.bitmap m.zone.total_pages b n
  pub apart : IsApart m b n

IsLoose-listed : (m : Memory) (b n fl sl : ℕ) → IsSound m → IsLoose m b n → listed m b fl sl ≡ 0
IsLoose-listed m b n fl sl s l =
    if_cases (λ (t : Bool). listed m b fl sl ≡ 0) (ltb 0 (listed m b fl sl)) true true
      (λ e.
        let here : 0 < listed m b fl sl = ground (arith, e) in
        elim (l.apart b fl sl here) [
          | inl h ↦ omega (arith, h, l.free.some_room)
          | inr h ↦ omega (arith, h, (s.free b fl sl here).some_room)
        ])
      (λ e. ground (arith, e))

swap : {A B : Type 0} → A ⊎ B → B ⊎ A
swap (inl a) = inr a
swap (inr b) = inl b

-- A list of a class that a block joins, with its bit.
push_filled :
    (here old : Bool) (b : ℕ) (bs cs : List ℕ)
    → (old ≡ true → 0 < length cs)
    → (if here then true else old) ≡ true
    → 0 < length (if here then b ∷ bs else cs)
push_filled true old b bs cs f h = omega arith
push_filled false old b bs cs f h = f h

push_marked :
    (here old : Bool) (b : ℕ) (bs cs : List ℕ)
    → (0 < length cs → old ≡ true)
    → 0 < length (if here then b ∷ bs else cs)
    → (if here then true else old) ≡ true
push_marked true old b bs cs f h = refl
push_marked false old b bs cs f h = f h

other_row :
    (f : ℕ → ℕ → Bool) (fl sl i : ℕ) (a : Bool) → (i == fl) ≡ false → set_class f fl sl a i ≡ f i
other_row f fl sl i a e = go (i == fl) e
  where
    go : (t : Bool) → t ≡ false → (λ j. if t && (j == sl) then a else f i j) ≡ f i
    go true q = ground (arith, q)
    go false q = refl

-- A row of bits of which one is set.
insert_rows :
    (z : Zone) (fl sl i : ℕ)
    → sl < 64
    → z.fl_bitmap i ≡ not (is_zero (z.sl_bitmap i))
    → set_bit z.fl_bitmap fl true i ≡ not (is_zero (set_class z.sl_bitmap fl sl true i))
insert_rows z fl sl i low h = elim (Bool-cases (i == fl)) [
  | inl e ↦
      let set : set_class z.sl_bitmap fl sl true i sl ≡ true = ground (arith, e) in
      rw (e, is_zero-set (set_class z.sl_bitmap fl sl true i) sl low set) refl
  | inr e ↦ rw (e, other_row z.sl_bitmap fl sl i true e) h
]

-- A loose block joins the lists.
pub block_insert-IsSound :
    (m : Memory) (b : ℕ) → IsSound m → IsLoose m b (m.header b) → IsSound (block_insert b m)
unfolding block_insert insert_free_block
block_insert-IsSound m b s l = record {
  once = λ c i j.
      count-push_once m.zone.blocks class b c i j (λ i j. IsLoose-listed m b (m.header b) i j s l)
        (s.once c);
  class = λ c i j h. elim (count-push m.zone.blocks class b c i j h) [
    | inl e ↦ ap (λ x. mapping_insert (m.header x)) e.0 ∙ e.1
    | inr k ↦ s.class c i j k
  ];
  free = λ c i j h. elim (count-push m.zone.blocks class b c i j h) [
    | inl e ↦ subst (λ x. IsFree m.bitmap m.zone.total_pages x (m.header x)) (sym e.0) l.free
    | inr k ↦ s.free c i j k
  ];
  apart = λ c i j d k n h g ne. elim (count-push m.zone.blocks class b c i j h) [
    | inl e ↦ elim (count-push m.zone.blocks class b d k n g) [
      | inl f ↦ absurd (ne (e.0 ∙ sym f.0))
      | inr old ↦
          subst (λ x. (x + m.header x ≤ d) ⊎ (d + m.header d ≤ x)) (sym e.0) (l.apart d k n old)
    ]
    | inr old ↦ elim (count-push m.zone.blocks class b d k n g) [
      | inl f ↦
          subst (λ x. (c + m.header c ≤ x) ⊎ (x + m.header x ≤ c)) (sym f.0)
            (swap (l.apart c i j old))
      | inr new ↦ s.apart c i j d k n old new ne
    ]
  ];
  filled = λ i j.
      push_filled ((i == class.0) && (j == class.1)) (m.zone.sl_bitmap i j) b
        (m.zone.blocks class.0 class.1) (m.zone.blocks i j) (s.filled i j);
  marked = λ i j.
      push_marked ((i == class.0) && (j == class.1)) (m.zone.sl_bitmap i j) b
        (m.zone.blocks class.0 class.1) (m.zone.blocks i j) (s.marked i j);
  rows = λ i.
      insert_rows m.zone class.0 class.1 i (mapping_insert-below (m.header b) l.free.of_word)
        (s.rows i);
}
  where
    class : ℕ × ℕ
    class = mapping_insert (m.header b)

-- The lists that are not empty, and their bits.
abbrev IsMarked : Zone → Type 0
IsMarked z =
    ((i j : ℕ) → z.sl_bitmap i j ≡ true → 0 < length (z.blocks i j))
    × ((i j : ℕ) → 0 < length (z.blocks i j) → z.sl_bitmap i j ≡ true)
    × ((i : ℕ) → z.fl_bitmap i ≡ not (is_zero (z.sl_bitmap i)))

is_only-erase : (b : ℕ) (bs : List ℕ) → is_only b bs ≡ true → erase b bs ≡ []
unfolding is_only erase
is_only-erase b [] e = refl
is_only-erase b (c ∷ []) e = rw e refl
is_only-erase b (c ∷ d ∷ cs) e = ground (arith, e)

erase-left : (b : ℕ) (bs : List ℕ) → is_only b bs ≡ false → 0 < count b bs → 0 < length (erase b bs)
unfolding is_only erase
erase-left b [] e h = omega (arith, h)
erase-left b (c ∷ []) e h = ground (arith, e, h)
erase-left b (c ∷ d ∷ cs) e h =
    if_cases (λ (r : List ℕ). 0 < length r) (c == b) _ _ (λ e. omega arith) (λ e. omega arith)

-- One list is replaced.
set_length :
    (here : Bool) (bs cs : List ℕ) (old : Bool)
    → (here ≡ true → 0 < length bs)
    → (old ≡ true → 0 < length cs)
    → old ≡ true
    → 0 < length (if here then bs else cs)
set_length true bs cs old f g h = f refl
set_length false bs cs old f g h = g h

set_bits :
    (here : Bool) (cs : List ℕ) (old : Bool)
    → (old ≡ true → 0 < length cs)
    → (if here then false else old) ≡ true
    → 0 < length (if here then [] else cs)
set_bits true cs old f h = ground (arith, h)
set_bits false cs old f h = f h

keep_bit :
    (here old : Bool) (bs cs : List ℕ)
    → (here ≡ true → old ≡ true)
    → (0 < length cs → old ≡ true)
    → 0 < length (if here then bs else cs)
    → old ≡ true
keep_bit true old bs cs f g h = f refl
keep_bit false old bs cs f g h = g h

drop_bit :
    (here old : Bool) (cs : List ℕ)
    → (0 < length cs → old ≡ true)
    → 0 < length (if here then [] else cs)
    → (if here then false else old) ≡ true
drop_bit true old cs f h = absurd (omega (arith, h))
drop_bit false old cs f h = f h

count-length : (b : ℕ) (bs : List ℕ) → 0 < count b bs → 0 < length bs
count-length b [] h = omega (arith, h)
count-length b (c ∷ bs) h = omega arith

module _ (z : Zone) (b fl sl : ℕ) (low : sl < 64) (h : 0 < count b (z.blocks fl sl))
    (k : IsMarked z) where
  its_bit : (i j : ℕ) → ((i == fl) && (j == sl)) ≡ true → z.sl_bitmap i j ≡ true
  its_bit i j e =
      let both = and-parts (i == fl) (j == sl) e in
      subst (λ x. z.sl_bitmap x j ≡ true) (sym ((==_iff i fl).0 both.0))
        (subst (λ y. z.sl_bitmap fl y ≡ true) (sym ((==_iff j sl).0 both.1))
          (k.1 fl sl (count-length b (z.blocks fl sl) h)))

  row_of : Bool → ℕ → Bool
  row_of t = if t then set_bit z.fl_bitmap fl false else z.fl_bitmap

  this_row : (t : Bool) → row_of t fl ≡ not t
  unfolding row_of
  this_row true = ground arith
  this_row false =
      k.2 fl
      ∙ ap not (is_zero-set (z.sl_bitmap fl) sl low (k.1 fl sl (count-length b (z.blocks fl sl) h)))

  that_row : (t : Bool) (i : ℕ) → (i == fl) ≡ false → row_of t i ≡ z.fl_bitmap i
  unfolding row_of
  that_row true i e = rw e refl
  that_row false i e = refl

  rows_left :
      (i : ℕ)
      → row_of (is_zero (set_class z.sl_bitmap fl sl false fl)) i
        ≡ not (is_zero (set_class z.sl_bitmap fl sl false i))
  rows_left i = elim (Bool-cases (i == fl)) [
    | inl e ↦
        subst
          (λ x.
            row_of (is_zero (set_class z.sl_bitmap fl sl false fl)) x
            ≡ not (is_zero (set_class z.sl_bitmap fl sl false x)))
          (sym ((==_iff i fl).0 e)) (this_row (is_zero (set_class z.sl_bitmap fl sl false fl)))
    | inr e ↦
        that_row (is_zero (set_class z.sl_bitmap fl sl false fl)) i e
        ∙ k.2 i
        ∙ ap (λ w. not (is_zero w)) (sym (other_row z.sl_bitmap fl sl i false e))
  ]

  remove_filled :
      is_only b (z.blocks fl sl) ≡ false
      → IsMarked (record z { blocks = set_class z.blocks fl sl (erase b (z.blocks fl sl)) })
  remove_filled more = (
    λ i j e.
        set_length ((i == fl) && (j == sl)) _ (z.blocks i j) (z.sl_bitmap i j)
          (λ _. erase-left b (z.blocks fl sl) more h) (k.0 i j) e,
    λ i j.
        keep_bit ((i == fl) && (j == sl)) (z.sl_bitmap i j) _ (z.blocks i j) (its_bit i j)
          (k.1 i j),
    k.2,
  )

  remove_last :
      is_only b (z.blocks fl sl) ≡ true
      → IsMarked (record z {
        blocks = set_class z.blocks fl sl (erase b (z.blocks fl sl));
        sl_bitmap = set_class z.sl_bitmap fl sl false;
        fl_bitmap =
            if is_zero (set_class z.sl_bitmap fl sl false fl)
            then set_bit z.fl_bitmap fl false
            else z.fl_bitmap;
      })
  unfolding row_of
  remove_last only = (
    λ i j.
        subst
          (λ (l : List ℕ).
            set_class z.sl_bitmap fl sl false i j ≡ true
            → 0 < length (set_class z.blocks fl sl l i j))
          (sym (is_only-erase b (z.blocks fl sl) only))
          (set_bits ((i == fl) && (j == sl)) (z.blocks i j) (z.sl_bitmap i j) (k.0 i j)),
    λ i j.
        subst
          (λ (l : List ℕ).
            0 < length (set_class z.blocks fl sl l i j)
            → set_class z.sl_bitmap fl sl false i j ≡ true)
          (sym (is_only-erase b (z.blocks fl sl) only))
          (drop_bit ((i == fl) && (j == sl)) (z.sl_bitmap i j) (z.blocks i j) (k.1 i j)),
    rows_left,
  )

  remove-IsMarked : IsMarked (remove_free_block z b fl sl)
  unfolding remove_free_block
  remove-IsMarked =
      if_cases (λ (r : Zone). IsMarked r) (is_only b (z.blocks fl sl)) _ _ remove_last remove_filled

blocks-remove :
    (z : Zone) (b fl sl : ℕ)
    → (remove_free_block z b fl sl).blocks ≡ set_class z.blocks fl sl (erase b (z.blocks fl sl))
unfolding remove_free_block
blocks-remove z b fl sl =
    if_cases (λ (r : Zone). r.blocks ≡ set_class z.blocks fl sl (erase b (z.blocks fl sl)))
      (is_only b (z.blocks fl sl)) _ _ (λ e. refl) (λ e. refl)

pub total_pages-remove :
    (z : Zone) (b fl sl : ℕ) → (remove_free_block z b fl sl).total_pages ≡ z.total_pages
unfolding remove_free_block
total_pages-remove z b fl sl =
    if_cases (λ (r : Zone). r.total_pages ≡ z.total_pages) (is_only b (z.blocks fl sl)) _ _
      (λ e. refl) (λ e. refl)

abbrev pub removed : Memory → (b fl sl : ℕ) → Memory
removed m b fl sl = record m { zone = remove_free_block m.zone b fl sl }

-- A block that leaves its list is loose.
pub remove-IsSound :
    (m : Memory) (b fl sl : ℕ)
    → IsSound m
    → 0 < listed m b fl sl
    → IsSound (removed m b fl sl) × IsLoose (removed m b fl sl) b (m.header b)
remove-IsSound m b fl sl s h = (
  record {
    once = λ c i j.
        subst (λ f. count c (f i j) ≤ 1) (sym (blocks-remove m.zone b fl sl)) (fewer c i j);
    class = λ c i j k. s.class c i j (pull c i j k).0;
    free = λ c i j k.
        subst (λ t. IsFree m.bitmap t c (m.header c)) (sym total) (s.free c i j (pull c i j k).0);
    apart = λ c i j d x y k g ne. s.apart c i j d x y (pull c i j k).0 (pull d x y g).0 ne;
    filled = marks.0;
    marked = marks.1;
    rows = marks.2;
  },
  record {
    free = subst (λ t. IsFree m.bitmap t b (m.header b)) (sym total) (s.free b fl sl h);
    apart = λ c i j k. s.apart b fl sl c i j h (pull c i j k).0 (pull c i j k).1;
  },
)
  where
    low : sl < 64
    low =
        subst (λ (c : ℕ × ℕ). c.1 < 64) (s.class b fl sl h)
          (mapping_insert-below (m.header b) (s.free b fl sl h).of_word)

    marks : IsMarked (remove_free_block m.zone b fl sl)
    marks = remove-IsMarked m.zone b fl sl low h (s.filled, s.marked, s.rows)

    total : (remove_free_block m.zone b fl sl).total_pages ≡ m.zone.total_pages
    total = total_pages-remove m.zone b fl sl

    fewer :
        (c i j : ℕ)
        → count c (set_class m.zone.blocks fl sl (erase b (m.zone.blocks fl sl)) i j) ≤ 1
    fewer c i j =
        if_cases (λ (bs : List ℕ). count c bs ≤ 1) ((i == fl) && (j == sl)) _ _
          (λ e. omega (arith, count-erase_le b c (m.zone.blocks fl sl), s.once c fl sl))
          (λ e. s.once c i j)

    only : (i j : ℕ) → 0 < listed m b i j → (i ≡ fl) × (j ≡ sl)
    only i j k =
        let same = sym (s.class b i j k) ∙ s.class b fl sl h in
        (ap (λ x. x.0) same, ap (λ x. x.1) same)

    pull : (c i j : ℕ) → 0 < listed (removed m b fl sl) c i j → (0 < listed m c i j) × (b ≢ c)
    pull c i j k =
        count-pull m.zone.blocks b fl sl c i j only (s.once b fl sl)
          (subst (λ f. 0 < count c (f i j)) (blocks-remove m.zone b fl sl) k)
