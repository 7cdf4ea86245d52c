-- ===== src/Pma/Change.antt =====
-- Changes of a zone of mem/pma.c inside a range that no block meets.
use cuore_os.Base.{
  ℕ, zero, suc, ◌+◌, ◌%◌, ◌≤◌, ◌<◌, ◌≡◌, refl, sym, subst, ◌∙◌, ◌⊎◌, inl, inr, Bool, true, false,
  Bool-cases, ◌&&◌, ltb, leb, ◌==◌, if◌then◌else◌, if_cases, store, arith,
}
use cuore_os.Vmm.{page_size}
use cuore_os.Pma.{Memory, mapping_insert}
use cuore_os.Pma.Lists.{page_set, pages_set, block_insert, insert_free_block}
use cuore_os.Pma.Count.{count-push}
use cuore_os.Pma.Sound.{listed, IsFree, IsSound, IsLoose}

abbrev pub with_header : Memory → (a v : ℕ) → Memory
with_header m a v = record m { header = store m.header a v }

module _ (m : Memory) (b n a v : ℕ) (s : IsSound m) (l : IsLoose m b n) (low : b ≤ a)
    (high : a < b + n) where
  header_kept : (c fl sl : ℕ) → 0 < listed m c fl sl → m.header c ≡ store m.header a v c
  header_kept c fl sl h = elim (l.apart c fl sl h) [
    | inl k ↦ ground (arith, k, high)
    | inr k ↦ ground (arith, k, low, (s.free c fl sl h).some_room)
  ]

  pub with_header-IsSound : IsSound (with_header m a v)
  with_header-IsSound = record {
    once = s.once;
    class =
        λ c i j h. subst (λ x. mapping_insert x ≡ (i, j)) (header_kept c i j h) (s.class c i j h);
    free = λ c i j h.
        subst (λ x. IsFree m.bitmap m.zone.total_pages c x) (header_kept c i j h) (s.free c i j h);
    apart = λ c i j d x y h k ne.
        subst (λ t. (c + t ≤ d) ⊎ (d + store m.header a v d ≤ c)) (header_kept c i j h)
          (subst (λ t. (c + m.header c ≤ d) ⊎ (d + t ≤ c)) (header_kept d x y k)
            (s.apart c i j d x y h k ne));
    filled = s.filled;
    marked = s.marked;
    rows = s.rows;
  }

  pub with_header-IsLoose : (d k : ℕ) → IsLoose m d k → IsLoose (with_header m a v) d k
  with_header-IsLoose d k r = record {
    free = r.free;
    apart =
        λ c i j h. subst (λ t. (d + k ≤ c) ⊎ (c + t ≤ d)) (header_kept c i j h) (r.apart c i j h);
  }

-- The two parts of a free range.
module _ (m : Memory) (b x y : ℕ) (l : IsLoose m b (x + y)) where
  pub IsLoose-front : x % page_size ≡ 0 → 0 < x → IsLoose m b x
  IsLoose-front whole room = record {
    free = record {
      nonzero = l.free.nonzero;
      start = l.free.start;
      whole = whole;
      some_room = room;
      inside = omega (arith, l.free.inside);
      of_word = omega (arith, l.free.of_word);
      unused = λ i h k. l.free.unused i h (omega (arith, k));
    };
    apart = λ c i j h. elim (l.apart c i j h) [ inl k ↦ inl (omega (arith, k)) | inr k ↦ inr k ];
  }

  pub IsLoose-back : x % page_size ≡ 0 → 0 < y → IsLoose m (b + x) y
  IsLoose-back whole room = record {
    free = record {
      nonzero = omega (arith, l.free.nonzero);
      start = omega (arith, l.free.start, whole);
      whole = omega (arith, l.free.whole, whole);
      some_room = room;
      inside = omega (arith, l.free.inside);
      of_word = omega (arith, l.free.of_word);
      unused = λ i h k. l.free.unused i (omega (arith, h)) (omega (arith, k));
    };
    apart = λ c i j h. elim (l.apart c i j h) [
      | inl k ↦ inl (omega (arith, k))
      | inr k ↦ inr (omega (arith, k))
    ];
  }

-- A range in front of a block that joins the lists stays loose.
pub block_insert-IsLoose :
    (m : Memory) (b d n : ℕ) → IsLoose m d n → d + n ≤ b → IsLoose (block_insert b m) d n
unfolding block_insert insert_free_block
block_insert-IsLoose m b d n l h = record {
  free = l.free;
  apart = λ c i j k. elim (count-push m.zone.blocks (mapping_insert (m.header b)) b c i j k) [
    | inl e ↦ inl (subst (λ x. d + n ≤ x) (sym e.0) h)
    | inr old ↦ l.apart c i j old
  ];
}

-- The pages in a range.
abbrev pub in_pages : (first count total pfn : ℕ) → Bool
in_pages first count total pfn = leb first pfn && ltb pfn (first + count) && ltb pfn total

page_set-bitmap :
    (used : Bool) (first : ℕ) (m : Memory) (i : ℕ)
    → (page_set used first m).bitmap i
      ≡ (if (i == first) && ltb first m.zone.total_pages then used else m.bitmap i)
unfolding page_set
page_set-bitmap used first m i = elim (Bool-cases (leb m.zone.total_pages first)) [
  | inl e ↦
      let outside : ((i == first) && ltb first m.zone.total_pages) ≡ false = ground (arith, e) in
      rw (e, outside) refl
  | inr e ↦
      let inside : ltb first m.zone.total_pages ≡ true = ground (arith, e) in
      rw (e, inside) (either (i == first))
]
  where
    either :
        (t : Bool) → (if t then used else m.bitmap i) ≡ (if t && true then used else m.bitmap i)
    either true = refl
    either false = refl

page_set-rest :
    (used : Bool) (first : ℕ) (m : Memory)
    → ((page_set used first m).zone ≡ m.zone) × ((page_set used first m).header ≡ m.header)
unfolding page_set
page_set-rest used first m =
    if_cases (λ (r : Memory). (r.zone ≡ m.zone) × (r.header ≡ m.header))
      (leb m.zone.total_pages first) _ _ (λ e. (refl, refl)) (λ e. (refl, refl))

-- `pages_set` page by page.
pub pages_set-bitmap :
    (used : Bool) (count first : ℕ) (m : Memory) (i : ℕ)
    → (pages_set used count first m).bitmap i
      ≡ (if in_pages first count m.zone.total_pages i then used else m.bitmap i)
unfolding pages_set
pages_set-bitmap used zero first m i = rw nothing refl
  where
    nothing : in_pages first 0 m.zone.total_pages i ≡ false
    nothing = ground arith
pages_set-bitmap used (suc count) first m i =
    pages_set-bitmap used count (first + 1) (page_set used first m) i
    ∙ rw ((page_set-rest used first m).0, page_set-bitmap used first m i) (one_more (m.bitmap i))
  where
    one_more :
        (old : Bool)
        → (if in_pages (first + 1) count m.zone.total_pages i
            then used
            else if (i == first) && ltb first m.zone.total_pages
            then used
            else old)
          ≡ (if in_pages first (suc count) m.zone.total_pages i then used else old)
    one_more old = ground arith

pub pages_set-rest :
    (used : Bool) (count first : ℕ) (m : Memory)
    → ((pages_set used count first m).zone ≡ m.zone)
      × ((pages_set used count first m).header ≡ m.header)
unfolding pages_set
pages_set-rest used zero first m = (refl, refl)
pages_set-rest used (suc count) first m =
    let more = pages_set-rest used count (first + 1) (page_set used first m) in
    let one = page_set-rest used first m in (more.0 ∙ one.0, more.1 ∙ one.1)
