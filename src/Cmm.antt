-- ===== src/Cmm.antt =====
-- mem/cmm.c and mem/cmm.h: the map of physical memory.
pub mod Insert
mod Tests
use cuore_os.Base.{
  ℕ, ◌+◌, ◌-◌, ◌*◌, bit_and, Bool, true, false, not, ◌&&◌, Option, none, some, List, [], ◌∷◌, ◌++◌,
  map, u64, not64, smin, ltb, leb, ◌==◌, if◌then◌else◌, Run, ok, panic, ◌>>=◌, ◌>>◌, panic_if,
  length, get_elem?,
}

pub data CmmType : Type 0 where
  usable : CmmType
  reserved : CmmType
  acpi_reclaimable : CmmType
  acpi_nvs : CmmType
  bootloader_reclaimable : CmmType
  kernel_early : CmmType
  kernel_and_modules : CmmType
  framebuffer : CmmType
  reserved_mapped : CmmType
  unknown : CmmType
  bad : CmmType

-- The types of the boot loader's map that `type_lookup` has an entry for, and any other one.
pub data LimineType : Type 0 where
  limine_usable : LimineType
  limine_reserved : LimineType
  limine_acpi_reclaimable : LimineType
  limine_acpi_nvs : LimineType
  limine_bad_memory : LimineType
  limine_bootloader_reclaimable : LimineType
  limine_executable_and_modules : LimineType
  limine_framebuffer : LimineType
  limine_reserved_mapped : LimineType
  limine_other : LimineType

unfoldable pub translate_limine_type : LimineType → CmmType
translate_limine_type limine_usable = usable
translate_limine_type limine_reserved = reserved
translate_limine_type limine_acpi_reclaimable = acpi_reclaimable
translate_limine_type limine_acpi_nvs = acpi_nvs
translate_limine_type limine_bad_memory = bad
translate_limine_type limine_bootloader_reclaimable = bootloader_reclaimable
translate_limine_type limine_executable_and_modules = kernel_and_modules
translate_limine_type limine_framebuffer = framebuffer
translate_limine_type limine_reserved_mapped = reserved_mapped
translate_limine_type limine_other = unknown

pub record CmmRegion : Type 0 where
  pub id : ℕ
  pub base : ℕ
  pub extent : ℕ
  pub type : CmmType

-- The file's static variables; `internal_count` is the length of the list.
pub record Cmm : Type 0 where
  pub internal_map : List CmmRegion
  pub internal_capacity : ℕ
  pub next_id : ℕ
  pub is_heap_backed : Bool
  pub max_phys_addr : ℕ
  pub max_ram_addr : ℕ

unfoldable pub ensure_capacity : (needed_count capacity : ℕ) → ℕ
ensure_capacity needed_count capacity = if leb needed_count capacity then capacity else capacity * 2

unfoldable pub cmm_end : CmmRegion → ℕ
cmm_end r = u64 (r.base + r.extent)

-- The pieces that replace a region that the target meets and does not cover, and the next id.
unfoldable pub pieces : (target_base target_end : ℕ) → CmmType → ℕ → CmmRegion → ℕ × List CmmRegion
unfolding cmm_end
pieces target_base target_end new_type id r =
    let chunk_end = smin target_end (cmm_end r) in
    let before : ℕ × List CmmRegion =
      if ltb r.base target_base
      then (
        id + 1,
        (record { id = id; base = r.base; extent = target_base - r.base; type = r.type }) ∷ [],
      )
      else (id, []) in
    let chunk : CmmRegion = record {
      id = before.0;
      base = target_base;
      extent = chunk_end - target_base;
      type = new_type;
    } in
    if ltb target_end (cmm_end r)
    then (
      before.0 + 2,
      before.1
          ++ chunk
            ∷ (record {
              id = before.0 + 1;
              base = target_end;
              extent = cmm_end r - target_end;
              type = r.type;
            })
            ∷ [],
    )
    else (before.0 + 1, before.1 ++ chunk ∷ [])

-- What the loop of `cmm_insert_region` keeps, and the regions that it has gone over.
pub record Inserted : Type 0 where
  pub regions : List CmmRegion
  pub count : ℕ
  pub capacity : ℕ
  pub id : ℕ

unfoldable pub push_front : List CmmRegion → Inserted → Inserted
push_front rs i = record i { regions = rs ++ i.regions }

unfoldable pub insert_from :
    (target_base target_end : ℕ) → CmmType → (count capacity id : ℕ) → List CmmRegion → Inserted
unfolding ensure_capacity cmm_end pieces push_front
insert_from target_base target_end new_type count capacity id [] = record {
  regions = [];
  count = count;
  capacity = capacity;
  id = id;
}
insert_from target_base target_end new_type count capacity id (r ∷ rs) =
    let cut = pieces target_base target_end new_type id r in
    let split =
      insert_from (smin target_end (cmm_end r)) target_end new_type (count + (length cut.1 - 1))
        (ensure_capacity (count + 2) capacity) cut.0 rs in
    let same = insert_from target_base target_end new_type count capacity id rs in
    if leb target_end target_base
    then record { regions = r ∷ rs; count = count; capacity = capacity; id = id }
    else if not (ltb target_base (cmm_end r) && ltb r.base target_end)
    then push_front (r ∷ []) same
    else if leb target_base r.base && leb (cmm_end r) target_end
    then push_front ((record r { type = new_type }) ∷ []) same
    else push_front cut.1 split

unfoldable pub insert_region : (base extent : ℕ) → CmmType → Cmm → Run Cmm
unfolding insert_from
insert_region base extent new_type s = do
  panic_if (not s.is_heap_backed)
  let i =
      insert_from base (u64 (base + extent)) new_type (length s.internal_map) s.internal_capacity
        s.next_id s.internal_map
  ok (record s { internal_map = i.regions; internal_capacity = i.capacity; next_id = i.id })

unfoldable pub reclaim_early : CmmRegion → CmmRegion
reclaim_early r = elim r.type [ kernel_early ↦ record r { type = usable } | _ ↦ r ]

unfoldable pub migrate_to_heap : Cmm → Cmm
unfolding reclaim_early
migrate_to_heap s = if s.is_heap_backed then s else record s {
  internal_map = map reclaim_early s.internal_map;
  internal_capacity = s.internal_capacity * 2;
  is_heap_backed = true;
}

unfoldable pub get_region : ℕ → List CmmRegion → Option CmmRegion
get_region id [] = none
get_region id (r ∷ rs) = if r.id == id then some r else get_region id rs

unfoldable pub get_region_by_index : ℕ → Cmm → Option CmmRegion
get_region_by_index index s = get_elem? s.internal_map index

unfoldable pub get_ram_top_2mb_aligned : Cmm → ℕ
get_ram_top_2mb_aligned s = bit_and (u64 (s.max_ram_addr + 0x200000 - 1)) (not64 (0x200000 - 1))

-- An entry of the boot loader's map.
pub record LimineEntry : Type 0 where
  pub base : ℕ
  pub extent : ℕ
  pub type : LimineType

-- The entry in which the map is kept: the first usable one that is large enough.
unfoldable pub find_usable : (bytes_needed : ℕ) → List LimineEntry → Option ℕ
find_usable bytes_needed [] = none
find_usable bytes_needed (e ∷ es) =
    let rest = find_usable bytes_needed es in
    elim e.type [
      | limine_usable ↦ if leb bytes_needed e.extent then some e.base else rest
      | _ ↦ rest
    ]

unfoldable pub is_usable : CmmType → Bool
is_usable t = elim t [ usable ↦ true | _ ↦ false ]

-- The end of memory and of RAM, after a region has been added.
unfoldable pub raise_tops : CmmRegion → Cmm → Cmm
unfolding cmm_end is_usable
raise_tops r s = record s {
  max_phys_addr = if ltb s.max_phys_addr (cmm_end r) then cmm_end r else s.max_phys_addr;
  max_ram_addr =
      if is_usable r.type && ltb s.max_ram_addr (cmm_end r) then cmm_end r else s.max_ram_addr;
}

-- One turn of the loop that fills the map, which itself lies at `map_base`.
unfoldable pub add_entry : (map_base bytes_needed : ℕ) → LimineEntry → Cmm → Cmm
unfolding translate_limine_type raise_tops
add_entry map_base bytes_needed e s =
    let early : CmmRegion = record {
      id = s.next_id;
      base = e.base;
      extent = bytes_needed;
      type = kernel_early;
    } in
    let rest : CmmRegion = record {
      id = s.next_id + 1;
      base = u64 (e.base + bytes_needed);
      extent = e.extent - bytes_needed;
      type = usable;
    } in
    let whole : CmmRegion = record {
      id = s.next_id;
      base = e.base;
      extent = e.extent;
      type = translate_limine_type e.type;
    } in
    if e.base == map_base
    then raise_tops rest
        (record s { internal_map = s.internal_map ++ early ∷ rest ∷ []; next_id = s.next_id + 2 })
    else raise_tops whole
        (record s { internal_map = s.internal_map ++ whole ∷ []; next_id = s.next_id + 1 })

unfoldable pub add_entries : (map_base bytes_needed : ℕ) → List LimineEntry → Cmm → Cmm
unfolding add_entry
add_entries map_base bytes_needed [] s = s
add_entries map_base bytes_needed (e ∷ es) s =
    add_entries map_base bytes_needed es (add_entry map_base bytes_needed e s)

-- A `struct cmm_region` has 32 bytes.
unfoldable pub cmm_init : List LimineEntry → Cmm → Run Cmm
unfolding find_usable add_entries
cmm_init entries s =
    let required_slots = length entries * 2 in
    let bytes_needed = bit_and (u64 (required_slots * 32 + 4095)) (not64 4095) in
    elim (find_usable bytes_needed entries) [
      | none ↦ panic
      | some map_base ↦ ok (
          add_entries map_base bytes_needed entries
            (record s { internal_capacity = required_slots }))
    ]
