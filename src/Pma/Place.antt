-- ===== src/Pma/Place.antt =====
-- What `pma_alloc_from_zone` of mem/pma.c allocates, page by page, and that the zone stays sound.
use cuore_os.Base.{
  ℕ, ◌+◌, ◌-◌, ◌*◌, ◌/◌, ◌%◌, ◌^◌, ◌≤◌, ◌<◌, ◌≡◌, refl, sym, ap, subst, ◌∙◌, ◌⊎◌, inl, inr, Bool,
  true, false, Option, none, some, Bool-cases, ltb, if◌then◌else◌, store, arith, u64, bit_and_high,
  OnSome,
}
use cuore_os.Vmm.{page_size}
use cuore_os.Pma.{Memory, block_header_size}
use cuore_os.Pma.Lists.{pages_set, block_insert, insert_free_block, add_block}
use cuore_os.Pma.Alloc.{round_up, free_gap, cut_block, finish_alloc, alloc_behind_gap, place}
use cuore_os.Pma.Sound.{IsFree, IsSound, IsLoose, block_insert-IsSound}
use cuore_os.Pma.Count.{count}
use cuore_os.Pma.Change.{
  with_header, with_header-IsSound, with_header-IsLoose, IsLoose-front, IsLoose-back,
  block_insert-IsLoose, in_pages, pages_set-bitmap, pages_set-rest,
}

pages_set-eta :
    (used : Bool) (count first : ℕ) (m : Memory)
    → pages_set used count first m ≡ record m { bitmap = (pages_set used count first m).bitmap }
pages_set-eta used count first m = λ i. record {
  bitmap = (pages_set used count first m).bitmap;
  header = (pages_set-rest used count first m).1 i;
  zone = (pages_set-rest used count first m).0 i;
}

-- The pages of a loose range are used.
mark-IsSound :
    (m : Memory) (b n : ℕ)
    → IsSound m
    → IsLoose m b n
    → IsSound (pages_set true (n / page_size) (b / page_size) m)
mark-IsSound m b n s l =
    subst IsSound (sym (pages_set-eta true (n / page_size) (b / page_size) m)) (record {
      once = s.once;
      class = s.class;
      free = λ c i j h. record {
        nonzero = (s.free c i j h).nonzero;
        start = (s.free c i j h).start;
        whole = (s.free c i j h).whole;
        some_room = (s.free c i j h).some_room;
        inside = (s.free c i j h).inside;
        of_word = (s.free c i j h).of_word;
        unused = λ pfn low high.
            pages_set-bitmap true (n / page_size) (b / page_size) m pfn
            ∙ rw (outside c pfn low high (l.apart c i j h)) ((s.free c i j h).unused pfn low high);
      };
      apart = s.apart;
      filled = s.filled;
      marked = s.marked;
      rows = s.rows;
    })
  where
    outside :
        (c pfn : ℕ)
        → c ≤ pfn * page_size
        → pfn * page_size < c + m.header c
        → (b + n ≤ c) ⊎ (c + m.header c ≤ b)
        → in_pages (b / page_size) (n / page_size) m.zone.total_pages pfn ≡ false
    outside c pfn low high (inl h) = ground (arith, low, high, h, l.free.start, l.free.whole)
    outside c pfn low high (inr h) = ground (arith, low, high, h, l.free.start, l.free.whole)

unchanged : (m : Memory) (b pfn : ℕ) → (block_insert b m).bitmap pfn ≡ m.bitmap pfn
unfolding block_insert
unchanged m b pfn = refl

-- What an allocation of `n` bytes leaves: nothing changed in the bitmap, or free pages that are used now.
pub data Allocates : (used : ℕ → Bool) (total n : ℕ) → ℕ × Memory → Type 0 where
  failed :
      {used : ℕ → Bool} {total n : ℕ} (r : ℕ × Memory)
      → r.0 ≡ 0
      → ((pfn : ℕ) → r.1.bitmap pfn ≡ used pfn)
      → IsSound r.1
      → Allocates used total n r
  allocated :
      {used : ℕ → Bool} {total n : ℕ} (r : ℕ × Memory)
      → IsFree used total r.0 n
      → ((pfn : ℕ)
          → r.1.bitmap pfn
            ≡ (if in_pages (r.0 / page_size) (n / page_size) total pfn then true else used pfn))
      → IsSound r.1
      → Allocates used total n r

-- What an operation keeps that hands out `n` bytes at `b`.
abbrev IsCut : (m : Memory) (b n : ℕ) → Memory → Type 0
IsCut m b n r =
    IsSound r × IsLoose r b n × (r.bitmap ≡ m.bitmap) × (r.zone.total_pages ≡ m.zone.total_pages)

-- The rest of a loose block joins the lists.
split_lem :
    (m : Memory) (b n : ℕ)
    → IsSound m
    → IsLoose m b (m.header b)
    → n % page_size ≡ 0
    → 0 < n
    → n < m.header b
    → IsCut m b n (add_block (b + n) (m.header b - n) (record m { header = store m.header b n }))
unfolding add_block block_insert insert_free_block
split_lem m b n s l whole room more = (
  block_insert-IsSound m2 (b + n) sound2 (subst (IsLoose m2 (b + n)) (sym written) back),
  block_insert-IsLoose m2 (b + n) b n (IsLoose-front m2 b n rest loose2 whole room) (omega arith),
  refl,
  refl,
)
  where
    rest : ℕ
    rest = m.header b - n

    sum : m.header b ≡ n + rest
    sum = omega (arith, more)

    m1 : Memory
    m1 = with_header m b n

    m2 : Memory
    m2 = with_header m1 (b + n) rest

    sound1 : IsSound m1
    sound1 = with_header-IsSound m b (m.header b) b n s l (omega arith) (omega (arith, more))

    loose1 : IsLoose m1 b (m.header b)
    loose1 =
        with_header-IsLoose m b (m.header b) b n s l (omega arith) (omega (arith, more)) b
          (m.header b) l

    sound2 : IsSound m2
    sound2 =
        with_header-IsSound m1 b (m.header b) (b + n) rest sound1 loose1 (omega arith)
          (omega (arith, more))

    loose2 : IsLoose m2 b (n + rest)
    loose2 = subst (IsLoose m2 b) sum (
        with_header-IsLoose m1 b (m.header b) (b + n) rest sound1 loose1 (omega arith)
          (omega (arith, more)) b (m.header b) loose1)

    back : IsLoose m2 (b + n) rest
    back = IsLoose-back m2 b n rest loose2 whole (omega (arith, more))

    written : m2.header (b + n) ≡ rest
    written = ground arith

-- `n` bytes of a loose block.
cut_block-IsCut :
    (m : Memory) (b n : ℕ)
    → IsSound m
    → IsLoose m b (m.header b)
    → n % page_size ≡ 0
    → 0 < n
    → OnSome (IsCut m b n) (cut_block b n m)
unfolding cut_block
cut_block-IsCut m b n s l whole room =
    elim (Bool-cases (ltb (n + block_header_size) (m.header b))) [
      | inl e ↦ rw e (split_lem m b n s l whole room (ground (arith, e)))
      | inr e ↦ rw e (elim (Bool-cases (ltb (m.header b) n)) [
        | inl f ↦ rw f tt
        | inr f ↦ rw f (s, subst (IsLoose m b) (exact e f) l, refl, refl)
      ])
    ]
  where
    exact :
        ltb (n + block_header_size) (m.header b) ≡ false
        → ltb (m.header b) n ≡ false
        → m.header b ≡ n
    exact e f = ground (arith, e, f, whole, l.free.whole)

-- The address of a page is rounded to itself.
round_up-page : (b : ℕ) → b % page_size ≡ 0 → b + page_size ≤ 2 ^ 64 → round_up page_size b ≡ b
unfolding round_up
round_up-page b whole fits =
    ground (arith, whole, bit_and_high 52 12 (u64 (b + page_size - 1)) (omega arith))

no_gap : (m : Memory) (b : ℕ) → free_gap b (b - b) m ≡ some m
unfolding free_gap
no_gap m b = rw nothing refl
  where
    nothing : b - b ≡ 0
    nothing = omega arith

finish :
    (m : Memory) (b n : ℕ)
    → IsSound m
    → IsLoose m b (m.header b)
    → m.zone.total_pages ≤ 2 ^ 51
    → (o : Option Memory) → OnSome (IsCut m b n) o
    → Allocates m.bitmap m.zone.total_pages n (finish_alloc b n m o)
unfolding finish_alloc
finish m b n s l small none h =
    failed (0, block_insert b m) refl (unchanged m b) (block_insert-IsSound m b s l)
finish m b n s l small (some cut) h =
    allocated (b, pages_set true (n / page_size) (b / page_size) cut)
      (subst (λ t. IsFree m.bitmap t b n) h.3
        (subst (λ f. IsFree f cut.zone.total_pages b n) h.2 h.1.free))
      (λ pfn.
        pages_set-bitmap true (n / page_size) (b / page_size) cut pfn
        ∙ ap (λ t. if in_pages (b / page_size) (n / page_size) t pfn then true else cut.bitmap pfn)
            h.3
        ∙ ap
            (λ (f : ℕ → Bool).
              if in_pages (b / page_size) (n / page_size) m.zone.total_pages pfn
              then true
              else f pfn)
            h.2)
      (mark-IsSound cut b n h.0 h.1)

-- A loose block, at the alignment of a page.
pub place-Allocates :
    (m : Memory) (b n : ℕ)
    → IsSound m
    → IsLoose m b (m.header b)
    → n % page_size ≡ 0
    → 0 < n
    → m.zone.total_pages ≤ 2 ^ 51
    → Allocates m.bitmap m.zone.total_pages n (place b n page_size m)
unfolding place
place-Allocates m b n s l whole room small =
    subst
      (λ addr.
        Allocates m.bitmap m.zone.total_pages n
          (alloc_behind_gap b addr n m (free_gap b (addr - b) m)))
      (sym same)
      (subst (λ o. Allocates m.bitmap m.zone.total_pages n (alloc_behind_gap b b n m o))
        (sym (no_gap m b))
        (finish m b n s l small (cut_block b n m) (cut_block-IsCut m b n s l whole room)))
  where
    same : round_up page_size b ≡ b
    same = round_up-page b l.free.start (omega (arith, l.free.inside, small))
