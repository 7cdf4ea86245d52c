-- ===== src/Disk/Refresh.antt =====
-- `partition_refresh` of disk/partition.c.
use cuore_os.Base.{ℕ, Bool, false, not, ◌==◌, Option, none, some, [], if◌then◌else◌, bytes}
use cuore_os.Disk.{Bytes, Partition, Disk, read_sectors, end_of}
use cuore_os.Disk.Mbr.{mbr_parse}
use cuore_os.Disk.Gpt.{has_bytes, gpt_parse}

module _ (crc32 : Bytes → (size : ℕ) → ℕ) where
  -- Whether the second sector has the signature of the table.
  unfoldable pub has_gpt : Disk → Bool
  unfolding read_sectors has_bytes
  has_gpt d = elim (read_sectors d 1 1) [ none ↦ false | some b ↦ has_bytes b 0 (bytes "EFI PART") ]

  unfoldable pub disk_of : Option (ℕ × Disk) → Option Disk
  disk_of none = none
  disk_of (some result) = some result.1

  -- `partition_refresh`; `sector` says whether `dmalloc32` returned memory, here and in `mbr_parse`. None
  -- when the list does not end in NULL, where C follows the pointer.
  unfoldable pub partition_refresh :
      (sector : Bool) → (alloc : ℕ → Option Partition) → Disk → Option Disk
  unfolding read_sectors has_gpt gpt_parse mbr_parse disk_of end_of
  partition_refresh sector alloc d =
      let empty = record d { partitions = [] } in
      let parsed =
        if has_gpt empty
        then gpt_parse crc32 alloc empty
        else disk_of (mbr_parse sector alloc empty) in
      let read : Option Disk = elim (read_sectors empty 0 1) [
        | none ↦ some empty
        | some b ↦ parsed
      ] in
      if not (end_of d.partitions == 0) then none else if sector then read else some empty
