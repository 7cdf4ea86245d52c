-- ===== src/Pma/Allocates.antt =====
-- `pma_alloc_from_zone` of mem/pma.c at the alignment of a page.
use cuore_os.Base.{
  ℕ, ◌+◌, ◌-◌, ◌*◌, ◌/◌, ◌%◌, ◌^◌, ◌≤◌, ◌<◌, ◌≡◌, refl, sym, subst, Option, none, some, List, [],
  ◌∷◌, length, true, not, ltb, ◌==◌, if_cases, arith, u64, bit_and_high, OnSome,
}
use cuore_os.Vmm.{page_size}
use cuore_os.Pma.{Zone, Memory, fl_index_count, ffs, mapping_insert}
use cuore_os.Pma.Words.{ffs-set, ffs-some}
use cuore_os.Pma.Lists.{head_of, head_in, search_class, search_suitable, take_found, locate_free}
use cuore_os.Pma.Alloc.{round_up, place, alloc_located, alloc_size, alloc_from_zone}
use cuore_os.Pma.Sound.{IsSound, IsLoose, total_pages-remove, remove-IsSound}
use cuore_os.Pma.Count.{count}
use cuore_os.Pma.Place.{Allocates, failed, place-Allocates}

-- A block that was found is listed.
IsListed : Zone → ℕ × ℕ × ℕ → Type 0
IsListed z found = 0 < count found.0 (z.blocks found.1 found.2)

head_of-IsListed :
    (z : Zone) (fl sl : ℕ) (bs : List ℕ)
    → bs ≡ z.blocks fl sl
    → 0 < length bs
    → IsListed z (head_of z.block_null fl sl bs)
unfolding head_of IsListed
head_of-IsListed z fl sl [] e h = omega (arith, h)
head_of-IsListed z fl sl (b ∷ bs) e h = subst (λ cs. 0 < count b cs) e (ground arith)

-- A class that the search finds has a block.
IsFilled : Zone → ℕ × ℕ → Type 0
IsFilled z class = 0 < length (z.blocks class.0 class.1)

head_in-IsListed :
    (z : Zone) (o : Option (ℕ × ℕ)) → OnSome (IsFilled z) o → OnSome (IsListed z) (head_in z o)
unfolding head_in IsFilled
head_in-IsListed z none h = tt
head_in-IsListed z (some (fl, sl)) h = head_of-IsListed z fl sl (z.blocks fl sl) refl h

search_class-IsFilled :
    (m : Memory) (fl sl : ℕ) → IsSound m → OnSome (IsFilled m.zone) (search_class m.zone fl sl)
unfolding search_class IsFilled
search_class-IsFilled m fl sl s =
    here (ffs (64 - sl) sl (m.zone.sl_bitmap fl)) (ffs-set (64 - sl) sl (m.zone.sl_bitmap fl))
  where
    -- In a row that is marked, some class is.
    in_row :
        (above : ℕ)
        → m.zone.fl_bitmap above ≡ true
        → (o : Option ℕ) → OnSome (λ i. m.zone.sl_bitmap above i ≡ true) o
        → ffs 64 0 (m.zone.sl_bitmap above) ≡ o
        → OnSome (IsFilled m.zone) (elim o as (λ _. Option (ℕ × ℕ)) [
          | none ↦ some (above, 2 ^ 32 - 1)
          | some found ↦ some (above, found)
        ])
    in_row above e none h q =
        absurd (ffs-some (m.zone.sl_bitmap above) (ground (arith, s.rows above, e)) q)
    in_row above e (some found) h q = s.filled above found h

    higher :
        (o : Option ℕ)
        → OnSome (λ i. m.zone.fl_bitmap i ≡ true) o
        → OnSome (IsFilled m.zone) (elim o as (λ _. Option (ℕ × ℕ)) [
          | none ↦ none
          | some above ↦ elim (ffs 64 0 (m.zone.sl_bitmap above)) [
            | none ↦ some (above, 2 ^ 32 - 1)
            | some found ↦ some (above, found)
          ]
        ])
    higher none h = tt
    higher (some above) h =
        in_row above h (ffs 64 0 (m.zone.sl_bitmap above)) (ffs-set 64 0 (m.zone.sl_bitmap above))
          refl

    here :
        (o : Option ℕ)
        → OnSome (λ i. m.zone.sl_bitmap fl i ≡ true) o
        → OnSome (IsFilled m.zone) (elim o as (λ _. Option (ℕ × ℕ)) [
          | some found ↦ some (fl, found)
          | none ↦ elim (ffs (64 - (fl + 1)) (fl + 1) m.zone.fl_bitmap) [
            | none ↦ none
            | some above ↦ elim (ffs 64 0 (m.zone.sl_bitmap above)) [
              | none ↦ some (above, 2 ^ 32 - 1)
              | some found ↦ some (above, found)
            ]
          ]
        ])
    here none h =
        higher (ffs (64 - (fl + 1)) (fl + 1) m.zone.fl_bitmap)
          (ffs-set (64 - (fl + 1)) (fl + 1) m.zone.fl_bitmap)
    here (some found) h = s.filled fl found h

-- A block that was taken.
abbrev IsTaken : Memory → ℕ × Memory → Type 0
IsTaken m r =
    IsSound r.1
    × IsLoose r.1 r.0 (r.1.header r.0)
    × (r.1.bitmap ≡ m.bitmap)
    × (r.1.zone.total_pages ≡ m.zone.total_pages)

take_found-IsTaken :
    (m : Memory) (o : Option (ℕ × ℕ × ℕ))
    → IsSound m
    → OnSome (IsListed m.zone) o
    → OnSome (IsTaken m) (take_found m o)
unfolding take_found IsListed
take_found-IsTaken m none s h = tt
take_found-IsTaken m (some (b, fl, sl)) s h =
    let both = remove-IsSound m b fl sl s h in
    (both.0, both.1, refl, total_pages-remove m.zone b fl sl)

locate_free-IsTaken : (size : ℕ) (m : Memory) → IsSound m → OnSome (IsTaken m) (locate_free size m)
unfolding locate_free search_suitable
locate_free-IsTaken size m s =
    if_cases (OnSome (IsTaken m)) (size == 0) _ _ (λ e. tt)
      (λ e.
        if_cases (OnSome (IsTaken m)) (not (ltb (mapping_insert size).0 fl_index_count)) _ _
          (λ f. tt)
          (λ f. take_found-IsTaken m _ s (
            head_in-IsListed m.zone _
              (search_class-IsFilled m (mapping_insert size).0 (mapping_insert size).1 s))))

alloc_size-whole :
    (size : ℕ)
    → 0 < size
    → size + page_size ≤ 2 ^ 64
    → (alloc_size size ≡ (size + 4095) / page_size * page_size)
unfolding alloc_size round_up
alloc_size-whole size room fits =
    ground (arith, bit_and_high 52 12 (u64 (size + page_size - 1)) (omega arith))

located :
    (m : Memory) (n : ℕ) (o : Option (ℕ × Memory))
    → IsSound m
    → n % page_size ≡ 0
    → 0 < n
    → m.zone.total_pages ≤ 2 ^ 51
    → OnSome (IsTaken m) o
    → Allocates m.bitmap m.zone.total_pages n (alloc_located n page_size m o)
unfolding alloc_located
located m n none s whole room small h = failed (0, m) refl (λ pfn. refl) s
located m n (some (b, taken)) s whole room small h =
    subst (λ t. Allocates m.bitmap t n (place b n page_size taken)) h.3
      (subst (λ f. Allocates f taken.zone.total_pages n (place b n page_size taken)) h.2
        (place-Allocates taken b n h.0 h.1 whole room (subst (λ t. t ≤ 2 ^ 51) (sym h.3) small)))

-- In a sound zone (each block is free, has a size below 2^64, stands once in the list of its
-- class and meets no other; the bit of a class is set when its list is not empty, and that of a
-- row when one of its classes has its bit) of at most 2^51 pages, `pma_alloc_from_zone` at the
-- alignment of a page, for a size from 1 to 2^64 - 4096, leaves a sound zone, and either fails
-- and changes no page, or returns the start of a range inside the zone none of whose pages was
-- used, and marks these as used and no others.
pub alloc_from_zone-Allocates :
    (m : Memory) (size : ℕ)
    → IsSound m
    → m.zone.total_pages ≤ 2 ^ 51
    → 0 < size
    → size + page_size ≤ 2 ^ 64
    → Allocates m.bitmap m.zone.total_pages (alloc_size size) (alloc_from_zone size page_size m)
unfolding alloc_from_zone
alloc_from_zone-Allocates m size s small room fits =
    located m (alloc_size size) (locate_free (alloc_size size) m) s
      (omega (arith, alloc_size-whole size room fits))
      (omega (arith, alloc_size-whole size room fits)) small
      (locate_free-IsTaken (alloc_size size) m s)
