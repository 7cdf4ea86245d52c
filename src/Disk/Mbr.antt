-- ===== src/Disk/Mbr.antt =====
-- disk/mbr.c: the master boot record.
use cuore_os.Base.{
  ℕ, zero, suc, ◌+◌, ◌*◌, ◌==◌, Bool, false, ◌||◌, Option, none, some, [], ◌∷◌, if◌then◌else◌,
  store, copy_at,
}
use cuore_os.Disk.{
  Bytes, Partition, Disk, read_sectors, write_sectors, partition_register, and_then, le16, le32,
  zeros, put_le,
}

-- `mbr_partition_t`, at its place in the sector.
abbrev pub entry_at : ℕ → ℕ
entry_at i = 446 + 16 * i

abbrev pub partition_type : Bytes → ℕ → ℕ
partition_type b i = b (entry_at i + 4)

unfoldable pub is_protective : Bytes → Bool
is_protective b =
    partition_type b 0 == 0xEE
    || partition_type b 1 == 0xEE
    || partition_type b 2 == 0xEE
    || partition_type b 3 == 0xEE

-- The entry in the memory that `malloc` returned; the other fields stay as they are there.
abbrev pub partition_of : Bytes → ℕ → (fresh : Partition) → Partition
partition_of b i fresh = record fresh {
  start_lba = le32 b (entry_at i + 8);
  sector_count = le32 b (entry_at i + 12);
  type_id = partition_type b i;
  is_gpt = false;
}

-- One entry, with the memory for it or none.
unfoldable pub register_entry : Bytes → ℕ → Option Partition → Disk → Option Disk
unfolding partition_register
register_entry b i none d = some d
register_entry b i (some fresh) d = partition_register (partition_of b i fresh) d

-- The loop over the entries from `i` on; `alloc` gives the memory that `malloc` returns for each.
unfoldable pub register_from :
    (count i : ℕ) → (alloc : ℕ → Option Partition) → Bytes → Disk → Option Disk
unfolding register_entry and_then
register_from zero i alloc b d = some d
register_from (suc count) i alloc b d =
    and_then (if partition_type b i == 0 then some d else register_entry b i (alloc i) d)
      (register_from count (i + 1) alloc b)

unfoldable pub parse_sector : (alloc : ℕ → Option Partition) → Bytes → Disk → Option (ℕ × Disk)
unfolding is_protective register_from and_then
parse_sector alloc b d =
    let registered = and_then (register_from 4 0 alloc b d) (λ e. some (0, e)) in
    if le16 b 510 == 0xAA55
    then (if is_protective b then some (2, d) else registered)
    else some (1, d)

-- `mbr_parse`; `sector` says whether `dmalloc32` returned memory.
unfoldable pub mbr_parse :
    (sector : Bool) → (alloc : ℕ → Option Partition) → Disk → Option (ℕ × Disk)
unfolding read_sectors parse_sector
mbr_parse sector alloc d =
    if sector
    then elim (read_sectors d 0 1) [ none ↦ some (1, d) | some b ↦ parse_sector alloc b d ]
    else some (1, d)

abbrev pub kind_of : (type_id : ℕ) → ℕ
kind_of type_id = if type_id == 0 then 0x83 else type_id

-- The sector that `mbr_install` writes.
unfoldable pub mbr_sector : (kind : ℕ) → Bytes
unfolding put_le copy_at
mbr_sector kind =
    let entry = 0x80 ∷ 0x00 ∷ 0x01 ∷ 0x01 ∷ kind ∷ 0x00 ∷ 0x01 ∷ 0x01 ∷ [] in
    let sized = put_le 4 458 0xFFFE (put_le 4 454 2048 (copy_at entry 446 zeros)) in
    store (store sized 510 0x55) 511 0xAA

unfoldable pub mbr_install : (sector : Bool) → (type_id : ℕ) → Disk → Disk
unfolding mbr_sector write_sectors
mbr_install sector type_id d =
    if sector
    then write_sectors 2048 1 zeros (write_sectors 0 1 (mbr_sector (kind_of type_id)) d)
    else d
