-- ===== src/Acpi/Madt/Walk.antt =====
-- The records that the walk over the MADT takes.
use cuore_os.Base.{
  ℕ, zero, suc, ◌+◌, ◌≤◌, ◌<◌, ◌≡◌, refl, sym, ap, ◌∙◌, inl, inr, true, false, List, [], ◌∷◌, ◌++◌,
  append_assoc, append-nil, length, take, length-append, ltb, ◌==◌, if◌then◌else◌, arith,
  Bool-cases,
}
use cuore_os.Acpi.{little, table_length}
use cuore_os.Acpi.Madt.{
  Iso, Madt, madt_type_ioapic, madt_type_iso, iso_at, take_record, walk_records, madt_init,
}

module _ {ℓ} {A : Type ℓ} where
  take-all : (n : ℕ) (xs : List A) → length xs ≤ n → take n xs ≡ xs
  take-all zero [] h = refl
  take-all zero (x ∷ xs) h = elim h [ ]
  take-all (suc n) [] h = refl
  take-all (suc n) (x ∷ xs) h = ap (λ l. x ∷ l) (take-all n xs (omega arith))

  take-full : (n : ℕ) (xs ys zs : List A) → length xs ≡ n → take n (xs ++ ys) ≡ take n (xs ++ zs)
  take-full zero xs ys zs h = refl
  take-full (suc n) [] ys zs h = ground (arith, h)
  take-full (suc n) (x ∷ xs) ys zs h = ap (λ l. x ∷ l) (take-full n xs ys zs (omega arith))

module _ (bytes : ℕ → ℕ) where
  -- The places of the records from `at` on: one after the other up to `end`, none of length 0.
  unfoldable pub IsChain : List ℕ → (at end : ℕ) → Type 0
  IsChain [] at end = end ≤ at
  IsChain (p ∷ ps) at end =
      (p ≡ at) × (at < end) × (0 < bytes (suc at)) × IsChain ps (at + bytes (suc at)) end

  abbrev pub iso_of : ℕ → List Iso
  iso_of p = if bytes p == madt_type_iso then iso_at bytes p ∷ [] else []

  -- The overrides among the records, in their order.
  unfoldable pub isos_in : List ℕ → List Iso
  isos_in [] = []
  isos_in (p ∷ ps) = iso_of p ++ isos_in ps

  -- The address in the last record of an I/O APIC, or the one known before.
  unfoldable pub last_ioapic : List ℕ → (before : ℕ) → ℕ
  last_ioapic [] before = before
  last_ioapic (p ∷ ps) before =
      last_ioapic ps (if bytes p == madt_type_ioapic then little bytes (p + 4) 4 else before)

  -- The state once the records of a chain are taken.
  unfoldable pub after : List ℕ → Madt → Madt
  after ps s = record {
    lapic_phys = s.lapic_phys;
    ioapic_phys = last_ioapic ps s.ioapic_phys;
    isos = take 16 (s.isos ++ isos_in ps);
  }

  after-nil : (s : Madt) → length s.isos ≤ 16 → s ≡ after [] s
  unfolding after last_ioapic isos_in
  after-nil s h =
      ap (λ (l : List Iso). record s { isos = l })
        (sym (take-all 16 s.isos h) ∙ ap (take 16) (sym (append-nil s.isos)))

  -- With a free place the override is added, without one it is dropped.
  added :
      (p : ℕ) (ps : List ℕ) (s : Madt)
      → length s.isos ≤ 16
      → after ps (
          if ltb (length s.isos) 16 then record s { isos = s.isos ++ (iso_at bytes p ∷ []) } else s)
        ≡ record {
          lapic_phys = s.lapic_phys;
          ioapic_phys = last_ioapic ps s.ioapic_phys;
          isos = take 16 (s.isos ++ (iso_at bytes p ∷ isos_in ps));
        }
  unfolding after
  added p ps s h = elim (Bool-cases (ltb (length s.isos) 16)) [
    | inl room ↦ rw room (
        ap
          (λ (l : List Iso). record {
            lapic_phys = s.lapic_phys;
            ioapic_phys = last_ioapic ps s.ioapic_phys;
            isos = take 16 l;
          })
          (append_assoc s.isos (iso_at bytes p ∷ []) (isos_in ps)))
    | inr full ↦ rw full (
        ap
          (λ (l : List Iso). record {
            lapic_phys = s.lapic_phys;
            ioapic_phys = last_ioapic ps s.ioapic_phys;
            isos = l;
          })
          (take-full 16 s.isos (isos_in ps) (iso_at bytes p ∷ isos_in ps)
            (ground (arith, full, h))))
  ]

  after-take_record :
      (p : ℕ) (ps : List ℕ) (s : Madt)
      → length s.isos ≤ 16
      → after ps (take_record bytes p s) ≡ after (p ∷ ps) s
  unfolding take_record after last_ioapic isos_in
  after-take_record p ps s h = elim (Bool-cases (bytes p == madt_type_ioapic)) [
    | inl is_ioapic ↦
        let kind : bytes p ≡ madt_type_ioapic = ground (arith, is_ioapic) in rw kind refl
    | inr no_ioapic ↦ rw no_ioapic (elim (Bool-cases (bytes p == madt_type_iso)) [
      | inl is_iso ↦ rw is_iso (added p ps s h)
      | inr no_iso ↦ rw no_iso refl
    ])
  ]

  take_record-length :
      (p : ℕ) (s : Madt) → length s.isos ≤ 16 → length (take_record bytes p s).isos ≤ 16
  unfolding take_record
  take_record-length p s h = ground (arith, length-append s.isos (iso_at bytes p ∷ []))

  -- The walk along a chain, with as much fuel as bytes.
  walk_records-after :
      (fuel : ℕ) (ps : List ℕ) (at end : ℕ) (s : Madt)
      → IsChain ps at end
      → end ≤ at + fuel
      → length s.isos ≤ 16
      → walk_records bytes fuel at end s ≡ after ps s
  unfolding walk_records IsChain
  walk_records-after zero [] at end s chain enough h = after-nil s h
  walk_records-after (suc fuel) [] at end s chain enough h =
      let stops : ltb at end ≡ false = ground (arith, chain) in rw stops (after-nil s h)
  walk_records-after zero (p ∷ ps) at end s chain enough h =
      elim (let no : ⊥ = omega (arith, chain.1) in no) [ ]
  walk_records-after (suc fuel) (p ∷ ps) at end s chain enough h =
      let more : ltb at end ≡ true = ground (arith, chain.1) in
      let moves : (bytes (suc at) == 0) ≡ false = ground (arith, chain.2) in
      let rest : walk_records bytes fuel (at + bytes (suc at)) end (take_record bytes at s)
          ≡ after ps (take_record bytes at s) =
        walk_records-after fuel ps (at + bytes (suc at)) end (take_record bytes at s) chain.3
          (omega (arith, chain.2)) (take_record-length at s h) in
      rw (more, moves, rest, chain.0) (after-take_record at ps s h)

-- When the records of a MADT follow each other from offset 44 to a place at or behind the end of
-- the table, none of length 0, and at most 16 overrides are known before, `madt_init` takes the
-- address of the local APIC from the header, the address of the last I/O APIC record, or the one
-- known before, and appends the overrides in their order, of which the first 16 in all are kept.
pub madt_init-after :
    (bytes : ℕ → ℕ) (ps : List ℕ) (s : Madt)
    → IsChain bytes ps 44 (table_length bytes)
    → length s.isos ≤ 16
    → madt_init bytes s ≡ record {
      lapic_phys = little bytes 36 4;
      ioapic_phys = last_ioapic bytes ps s.ioapic_phys;
      isos = take 16 (s.isos ++ isos_in bytes ps);
    }
unfolding madt_init after
madt_init-after bytes ps s chain h =
    walk_records-after bytes (table_length bytes) ps 44 (table_length bytes)
      (record s { lapic_phys = little bytes 36 4 }) chain (omega arith) h
