-- ===== src/Disk/Gpt.antt =====
-- disk/gpt.c: the GUID partition table. `crc32` is an assembly routine, and a parameter here.
use cuore_os.Base.{
  ℕ, zero, suc, ◌+◌, ◌-◌, ◌*◌, ◌/◌, ◌==◌, Bool, true, ◌&&◌, not, Option, none, some, List, [], ◌∷◌,
  if◌then◌else◌, ltb, store, replicate, copy_at, take, u32, u64, sub64, bytes,
}
use cuore_os.Disk.{
  Bytes, Partition, Disk, read_sectors, write_sectors, partition_register, and_then, le32, le64,
  zeros, put_le,
}
use cuore_os.Disk.Guids.{guid_empty, guid_linux_filesystem}

-- `memcmp(&b[i], expected, n) == 0`
unfoldable pub has_bytes : Bytes → (i : ℕ) → List ℕ → Bool
has_bytes b i [] = true
has_bytes b i (c ∷ cs) = b i == c && has_bytes b (i + 1) cs

unfoldable pub bytes_from : (count : ℕ) → Bytes → ℕ → List ℕ
bytes_from zero b i = []
bytes_from (suc count) b i = b i ∷ bytes_from count b (i + 1)

-- The fields of `gpt_header_t` that are read.
abbrev pub header_size : Bytes → ℕ
header_size b = le32 b 12

abbrev pub header_crc32 : Bytes → ℕ
header_crc32 b = le32 b 16

abbrev pub partition_entry_lba : Bytes → ℕ
partition_entry_lba b = le64 b 72

abbrev pub num_partition_entries : Bytes → ℕ
num_partition_entries b = le32 b 80

abbrev pub sizeof_partition_entry : Bytes → ℕ
sizeof_partition_entry b = le32 b 84

abbrev pub partition_entry_array_crc32 : Bytes → ℕ
partition_entry_array_crc32 b = le32 b 88

-- The entry in the memory that `malloc` returned; `next` stays as it is there.
unfoldable pub gpt_partition : Bytes → (at index : ℕ) → (fresh : Partition) → Partition
unfolding bytes_from
gpt_partition array at index fresh = record fresh {
  start_lba = le64 array (at + 32);
  sector_count = u64 (sub64 (le64 array (at + 40)) (le64 array (at + 32)) + 1);
  partition_id = index;
  type_id = 0;
  guid = bytes_from 16 array at;
  is_gpt = true;
}

-- An entry with the memory for it, and the rest of the loop, which a `malloc` that fails ends.
unfoldable pub gpt_register_entry :
    Bytes → (at i : ℕ) → Option Partition → (rest : Disk → Option Disk) → Disk → Option Disk
unfolding gpt_partition partition_register and_then
gpt_register_entry array at i none rest d = some d
gpt_register_entry array at i (some fresh) rest d =
    and_then (partition_register (gpt_partition array at i fresh) d) rest

-- The loop over the entries; `alloc` gives the memory that `malloc` returns for each.
unfoldable pub gpt_register_from :
    (count i entry_size : ℕ) → (alloc : ℕ → Option Partition) → Bytes → Disk → Option Disk
unfolding has_bytes gpt_register_entry
gpt_register_from zero i entry_size alloc array d = some d
gpt_register_from (suc count) i entry_size alloc array d =
    let at = u32 (i * entry_size) in
    let skipped = gpt_register_from count (i + 1) entry_size alloc array d in
    let entered =
      gpt_register_entry array at i (alloc i)
        (gpt_register_from count (i + 1) entry_size alloc array) d in
    if has_bytes array at guid_empty then skipped else entered

module _ (crc32 : Bytes → (size : ℕ) → ℕ) where
  -- The table behind a header.
  unfoldable pub parse_array :
      (alloc : ℕ → Option Partition)
      → (header array : Bytes) → (array_size : ℕ) → Disk
      → Option Disk
  unfolding gpt_register_from
  parse_array alloc header array array_size d =
      let registered =
        gpt_register_from (num_partition_entries header) 0 (sizeof_partition_entry header) alloc
          array d in
      if crc32 array array_size == partition_entry_array_crc32 header then registered else some d

  unfoldable pub parse_header :
      (alloc : ℕ → Option Partition) → (header : Bytes) → Disk → Option Disk
  unfolding has_bytes put_le parse_array read_sectors
  parse_header alloc header d =
      let array_size = u32 (num_partition_entries header * sizeof_partition_entry header) in
      let sectors_to_read = u32 (array_size + 511) / 512 in
      let parsed : Option Disk =
        elim (read_sectors d (partition_entry_lba header) sectors_to_read) [
          | none ↦ some d
          | some array ↦ parse_array alloc header array array_size d
        ] in
      if not (has_bytes header 0 (bytes "EFI PART"))
      then some d
      else if crc32 (put_le 4 16 0 header) (header_size header) == header_crc32 header
      then parsed
      else some d

  -- `gpt_parse`, when there is memory for its buffers.
  unfoldable pub gpt_parse : (alloc : ℕ → Option Partition) → Disk → Option Disk
  unfolding read_sectors parse_header
  gpt_parse alloc d = elim (read_sectors d 1 1) [
    | none ↦ some d
    | some header ↦ parse_header alloc header d
  ]

  -- The table that `gpt_install` writes; the name is cut to 36 characters, each a `char` as two bytes.
  unfoldable pub name_at : (i : ℕ) → List ℕ → Bytes → Bytes
  unfolding put_le
  name_at i [] b = b
  name_at i (c ∷ cs) b = name_at (i + 2) cs (put_le 2 i (if ltb c 128 then c else c + 0xFF00) b)

  unfoldable pub gpt_array :
      (disk_sectors : ℕ) → (fs_name : List ℕ) → (type_guid : Option (List ℕ)) → Bytes
  unfolding name_at put_le copy_at
  gpt_array disk_sectors fs_name type_guid =
      let kind : List ℕ = elim type_guid [ none ↦ guid_linux_filesystem | some guid ↦ guid ] in
      let guids = copy_at (replicate 16 0xAA) 16 (copy_at kind 0 zeros) in
      name_at 56 (take 36 fs_name) (put_le 8 40 (disk_sectors - 34) (put_le 8 32 2048 guids))

  unfoldable pub protective_mbr : (disk_sectors : ℕ) → Bytes
  unfolding put_le
  protective_mbr disk_sectors =
      let size = if ltb 0xFFFFFFFF disk_sectors then 0xFFFFFFFF else disk_sectors - 1 in
      let sized = put_le 4 458 size (put_le 4 454 1 (store zeros 450 0xEE)) in
      store (store sized 510 0x55) 511 0xAA

  -- The checksum of a header, in its place.
  unfoldable pub with_crc : Bytes → Bytes
  unfolding put_le
  with_crc header = let cleared = put_le 4 16 0 header in put_le 4 16 (crc32 cleared 92) cleared

  unfoldable pub primary_header : (disk_sectors array_crc : ℕ) → Bytes
  unfolding with_crc put_le copy_at
  primary_header disk_sectors array_crc =
      let places = put_le 8 48 (disk_sectors - 34) (
        put_le 8 40 34 (
          put_le 8 32 (disk_sectors - 1) (
            put_le 8 24 1
              (put_le 4 12 92 (put_le 4 8 0x00010000 (copy_at (bytes "EFI PART") 0 zeros)))))) in
      with_crc (
        put_le 4 88 array_crc (
          put_le 4 84 128
            (put_le 4 80 128 (put_le 8 72 2 (copy_at (replicate 16 0xCC) 56 places)))))

  unfoldable pub backup_header : (disk_sectors : ℕ) → Bytes → Bytes
  unfolding with_crc put_le
  backup_header disk_sectors header =
      with_crc
        (put_le 8 72 (disk_sectors - 33) (put_le 8 32 1 (put_le 8 24 (disk_sectors - 1) header)))

  -- `gpt_install`
  unfoldable pub gpt_install : (fs_name : List ℕ) → (type_guid : Option (List ℕ)) → Disk → Disk
  unfolding write_sectors gpt_array protective_mbr primary_header backup_header
  gpt_install fs_name type_guid d =
      let n = d.total_sectors in
      let array = gpt_array n fs_name type_guid in
      let header = primary_header n (crc32 array 16384) in
      let tables =
        write_sectors (n - 33) 32 array
          (write_sectors 2 32 array (write_sectors 0 1 (protective_mbr n) d)) in
      if ltb n 68
      then d
      else write_sectors (n - 1) 1 (backup_header n header) (write_sectors 1 1 header tables)
