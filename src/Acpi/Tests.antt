-- ===== src/Acpi/Tests.antt =====
-- Tests of the ACPI tables, and the theorem on the MADT at work.
use cuore_os.Base.{ℕ, none, ◌^◌, ◌≡◌, refl, true, false, [], ◌∷◌, ◌==◌, if◌then◌else◌, arith}
use cuore_os.Acpi.{sum_bytes, acpi_checksum, little}
use cuore_os.Acpi.Madt.{Madt, madt_init, iso_at, query_isos, query_flags, madt_query_irq}
use cuore_os.Acpi.Mcfg.{
  McfgEntry, Mcfg, mcfg_init, find_entry, choose_entry, addr_in, addr_of, mcfg_get_device_addr,
}
use cuore_os.Acpi.Madt.Walk.{IsChain, isos_in, last_ioapic, madt_init-after}

-- A table with an override of the interrupt 9 and an I/O APIC.
abbrev two_records : ℕ → ℕ
two_records i =
    if i == 4
    then 66
    else if i == 9
    then 234
    else if i == 38
    then 0xE0
    else if i == 39
    then 0xFE
    else if i == 44
    then 2
    else if i == 45
    then 10
    else if i == 47
    then 9
    else if i == 48
    then 9
    else if i == 52
    then 13
    else if i == 54
    then 1
    else if i == 55
    then 12
    else if i == 60
    then 0xC0
    else if i == 61
    then 0xFE
    else 0

abbrev unknown : Madt
unknown = record { lapic_phys = 0; ioapic_phys = 0; isos = [] }

abbrev known : Madt
known = record {
  lapic_phys = 0xFEE00000;
  ioapic_phys = 0xFEC00000;
  isos = record { bus_source = 9; gsi = 9; flags = 13 } ∷ [];
}

sum_is_zero : acpi_checksum two_records ≡ true
unfolding acpi_checksum sum_bytes little
sum_is_zero = refl

sum_is_not_zero : acpi_checksum (λ i. if i == 9 then 0 else two_records i) ≡ false
unfolding acpi_checksum sum_bytes little
sum_is_not_zero = refl

-- The interrupt 9 is level triggered, the interrupt 1 has no override.
overridden : madt_query_irq 9 known ≡ (9, 2 ^ 15)
unfolding madt_query_irq query_isos query_flags
overridden = refl

not_overridden : madt_query_irq 1 known ≡ (1, 0)
unfolding madt_query_irq query_isos query_flags
not_overridden = refl

two_records-IsChain : IsChain two_records (44 ∷ 54 ∷ []) 44 66
unfolding IsChain
two_records-IsChain =
    (refl, omega arith, omega arith, (refl, omega arith, omega arith, omega arith))

madt_init-after_example : madt_init two_records unknown ≡ known
unfolding isos_in last_ioapic iso_at little
madt_init-after_example =
    madt_init-after two_records (44 ∷ 54 ∷ []) unknown two_records-IsChain (omega arith)

-- Two segments, the first from the bus 4 on.
abbrev two_segments : ℕ → McfgEntry
two_segments i =
    if i == 0
    then record { base_address = 0xE0000000; segment_group = 0; start_bus = 4; end_bus = 63 }
    else record { base_address = 0xC0000000; segment_group = 1; start_bus = 0; end_bus = 255 }

abbrev with_segments : Mcfg
with_segments =
    mcfg_init 76 two_segments
      (record { entries = none; entry_count = 0; primary_entry = none; is_initialized = false })

in_first_segment : mcfg_get_device_addr 0 0 5 2 1 with_segments ≡ 0xE0111000
unfolding mcfg_get_device_addr mcfg_init addr_of find_entry choose_entry addr_in
in_first_segment = refl

in_second_segment : mcfg_get_device_addr 0 1 5 0 0 with_segments ≡ 0xC0500000
unfolding mcfg_get_device_addr mcfg_init addr_of find_entry choose_entry addr_in
in_second_segment = refl

-- A bus before the first of the segment is not refused: its address lies behind.
before_first_bus : mcfg_get_device_addr 0 0 3 0 0 with_segments ≡ 0x1DFF00000
unfolding mcfg_get_device_addr mcfg_init addr_of find_entry choose_entry addr_in
before_first_bus = refl
