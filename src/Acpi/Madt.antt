-- ===== src/Acpi/Madt.antt =====
-- firmware/acpi/madt.c: the walk over the records of the MADT, and the query of an interrupt.
pub mod Walk
use cuore_os.Base.{
  ℕ, zero, suc, ◌+◌, ◌-◌, ◌/◌, ◌%◌, ◌^◌, bit_and, bit_or, List, [], ◌∷◌, ◌++◌, length, ltb, ◌==◌,
  if◌then◌else◌,
}
use cuore_os.Acpi.{little, table_length}

-- `madt_iso_t`
pub record Iso : Type 0 where
  pub bus_source : ℕ
  pub gsi : ℕ
  pub flags : ℕ

-- The state of the file. The length of the list is `iso_count`.
pub record Madt : Type 0 where
  pub lapic_phys : ℕ
  pub ioapic_phys : ℕ
  pub isos : List Iso

abbrev pub madt_type_ioapic : ℕ
madt_type_ioapic = 1

abbrev pub madt_type_iso : ℕ
madt_type_iso = 2

module _ (bytes : ℕ → ℕ) where
  unfoldable pub iso_at : (ptr : ℕ) → Iso
  unfolding little
  iso_at ptr = record {
    bus_source = bytes (ptr + 3);
    gsi = little bytes (ptr + 4) 4;
    flags = little bytes (ptr + 8) 2;
  }

  -- The `switch` over the type of the record at `ptr`.
  unfoldable pub take_record : (ptr : ℕ) → Madt → Madt
  unfolding iso_at little
  take_record ptr s =
      if bytes ptr == madt_type_ioapic
      then record s { ioapic_phys = little bytes (ptr + 4) 4 }
      else if bytes ptr == madt_type_iso
      then (if ltb (length s.isos) 16 then record s { isos = s.isos ++ (iso_at ptr ∷ []) } else s)
      else s

  -- The loop of `madt_init`, on fuel.
  unfoldable pub walk_records : (fuel ptr end : ℕ) → Madt → Madt
  unfolding take_record
  walk_records zero ptr end s = s
  walk_records (suc fuel) ptr end s =
      let len = bytes (suc ptr) in
      let rest = walk_records fuel (ptr + len) end (take_record ptr s) in
      if ltb ptr end then (if len == 0 then s else rest) else s

  -- The records start behind the header and two words, at 44, and each turn moves by a byte at least.
  unfoldable pub madt_init : Madt → Madt
  unfolding walk_records little
  madt_init s =
      walk_records (table_length bytes) 44 (table_length bytes)
        (record s { lapic_phys = little bytes 36 4 })

-- `out_flags` of an override: IOAPIC_POLARITY_LOW and IOAPIC_TRIGGER_LEVEL.
unfoldable pub query_flags : (flags : ℕ) → ℕ
query_flags flags =
    bit_or (if bit_and flags 3 == 3 then 2 ^ 13 else 0)
      (if bit_and (flags / 4) 3 == 3 then 2 ^ 15 else 0)

-- The loop of `madt_query_irq`: `out_pin` and `out_flags`.
unfoldable pub query_isos : (irq : ℕ) → List Iso → ℕ × ℕ
unfolding query_flags
query_isos irq [] = (irq, 0)
query_isos irq (i ∷ isos) =
    let rest = query_isos irq isos in
    if i.bus_source == irq then (i.gsi % 2 ^ 8, query_flags i.flags) else rest

unfoldable pub madt_query_irq : (irq : ℕ) → Madt → ℕ × ℕ
unfolding query_isos
madt_query_irq irq s = query_isos irq s.isos
