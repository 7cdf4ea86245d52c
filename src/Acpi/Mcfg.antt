-- ===== src/Acpi/Mcfg.antt =====
-- firmware/acpi/mcfg.c: the addresses of the configuration spaces. The entries of the table are a function
-- of their index.
use cuore_os.Base.{
  ℕ, zero, suc, ◌+◌, ◌-◌, ◌*◌, ◌/◌, ◌^◌, bit_or, Bool, true, ◌&&◌, Option, none, some, u32, u64,
  ltb, leb, ◌==◌, if◌then◌else◌,
}

-- `struct mcfg_entry`
pub record McfgEntry : Type 0 where
  pub base_address : ℕ
  pub segment_group : ℕ
  pub start_bus : ℕ
  pub end_bus : ℕ

-- The state of the file: no entries before `mcfg_init`, the count of the entries, `primary_entry`,
-- and `mcfg_is_initialized`.
pub record Mcfg : Type 0 where
  pub entries : Option (ℕ → McfgEntry)
  pub entry_count : ℕ
  pub primary_entry : Option McfgEntry
  pub is_initialized : Bool

-- The count of the entries of a table, whose header and reserved bytes take 44.
abbrev pub count_entries : (table_size : ℕ) → ℕ
count_entries table_size = u64 (table_size + 2 ^ 64 - 44) / 16

unfoldable pub mcfg_init : (table_size : ℕ) → (ℕ → McfgEntry) → Mcfg → Mcfg
mcfg_init table_size entries s = record {
  entries = some entries;
  entry_count = count_entries table_size;
  primary_entry =
      if ltb 0 (count_entries table_size) && (entries 0).segment_group == 0
      then some (entries 0)
      else s.primary_entry;
  is_initialized = true;
}

module _ (segment bus : ℕ) where
  -- The test of the loop of `mcfg_get_device_addr`.
  abbrev pub covers : McfgEntry → Bool
  covers e = e.segment_group == segment && leb e.start_bus bus && leb bus e.end_bus

  -- The loop, with `count` entries from `i` left.
  unfoldable pub find_entry : (i count : ℕ) → (ℕ → McfgEntry) → Option McfgEntry
  find_entry i zero entries = none
  find_entry i (suc count) entries =
      let rest = find_entry (suc i) count entries in
      if covers (entries i) then some (entries i) else rest

  -- The entry that is used: the primary one, or one that the loop finds.
  unfoldable pub choose_entry : (primary found : Option McfgEntry) → Option McfgEntry
  choose_entry none found = found
  choose_entry (some p) found = if segment == 0 && leb bus p.end_bus then some p else found

  -- The offset of a bus in an entry has 32 bits.
  unfoldable pub addr_in : (hhdm_offset slot func : ℕ) → Option McfgEntry → ℕ
  addr_in hhdm_offset slot func none = 0
  addr_in hhdm_offset slot func (some e) =
      let bus_off = u32 (bus + 2 ^ 32 - e.start_bus) in
      u64 (
        u64 (e.base_address + hhdm_offset)
        + bit_or (bit_or (u32 (bus_off * 2 ^ 20)) (slot * 2 ^ 15)) (func * 2 ^ 12))

  -- `mcfg_get_device_addr` of a table, and NULL without one.
  unfoldable pub addr_of : (hhdm_offset slot func : ℕ) → Option (ℕ → McfgEntry) → Mcfg → ℕ
  unfolding find_entry choose_entry addr_in
  addr_of hhdm_offset slot func none s = 0
  addr_of hhdm_offset slot func (some entries) s =
      addr_in hhdm_offset slot func
        (choose_entry s.primary_entry (find_entry 0 s.entry_count entries))

unfoldable pub mcfg_get_device_addr : (hhdm_offset : ℕ) → (segment bus slot func : ℕ) → Mcfg → ℕ
unfolding addr_of
mcfg_get_device_addr hhdm_offset segment bus slot func s =
    addr_of segment bus hhdm_offset slot func s.entries s
