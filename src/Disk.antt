-- ===== src/Disk.antt =====
-- disk/partition.c, disk/mbr.c, disk/gpt.c and disk/ata.c: the partitions of a disk. A buffer is an array of bytes.
-- The driver's functions are `read`, none for an error, and a list of what was written; their block
-- number has 32 bits.
pub mod Guids
pub mod Mbr
pub mod Gpt
pub mod Refresh
pub mod Install
pub mod Ata
mod Tests
use cuore_os.Base.{
  ℕ, zero, suc, ◌+◌, ◌-◌, ◌*◌, ◌/◌, ◌%◌, ◌^◌, Bool, true, false, not, ◌&&◌, Option, none, some,
  List, [], ◌∷◌, ◌++◌, u8, u32, u64, ltb, leb, ◌==◌, if◌then◌else◌, store,
}

abbrev pub Bytes : Type 0
Bytes = ℕ → ℕ

-- `partition_t`; `disk` is the disk whose list it is in. `next` is what the field held when the entry
-- was registered; from then on its link is the next place in the list.
pub record Partition : Type 0 where
  pub start_lba : ℕ
  pub sector_count : ℕ
  pub partition_id : ℕ
  pub type_id : ℕ
  pub guid : List ℕ
  pub is_gpt : Bool
  pub next : ℕ

pub record Write : Type 0 where
  pub lba : ℕ
  pub count : ℕ
  pub buffer : Bytes

-- `kernel_disk_dev_t`
pub record Disk : Type 0 where
  pub total_sectors : ℕ
  pub read : (lba count : ℕ) → Option Bytes
  pub written : List Write
  pub partitions : List Partition

unfoldable pub read_sectors : Disk → (lba count : ℕ) → Option Bytes
read_sectors d lba count = d.read (u32 lba) count

unfoldable pub write_sectors : (lba count : ℕ) → Bytes → Disk → Disk
write_sectors lba count buffer d = record d {
  written = d.written ++ (record { lba = u32 lba; count = count; buffer = buffer }) ∷ [];
}

-- The `next` at the end of a list: the field of the last entry, which no function sets.
unfoldable pub end_of : List Partition → ℕ
end_of [] = 0
end_of (p ∷ []) = p.next
end_of (p ∷ q ∷ ps) = end_of (q ∷ ps)

-- `partition_register`: behind the last entry. None when the list does not end in NULL, where C follows
-- the pointer.
unfoldable pub partition_register : Partition → Disk → Option Disk
unfolding end_of
partition_register p d =
    if end_of d.partitions == 0
    then some (record d { partitions = d.partitions ++ p ∷ [] })
    else none

-- What follows on a disk, if there is one.
unfoldable pub and_then {ℓ} : {A : Type ℓ} → Option Disk → (Disk → Option A) → Option A
and_then none f = none
and_then (some d) f = f d

-- Little-endian numbers in a buffer.
abbrev pub le16 : Bytes → ℕ → ℕ
le16 b i = b i + 2 ^ 8 * b (i + 1)

abbrev pub le32 : Bytes → ℕ → ℕ
le32 b i = le16 b i + 2 ^ 16 * le16 b (i + 2)

abbrev pub le64 : Bytes → ℕ → ℕ
le64 b i = le32 b i + 2 ^ 32 * le32 b (i + 4)

abbrev pub zeros : Bytes
zeros i = 0

-- A number of some bytes, from a place on.
unfoldable pub put_le : (size i v : ℕ) → Bytes → Bytes
put_le zero i v b = b
put_le (suc size) i v b = put_le size (i + 1) (v / 2 ^ 8) (store b i (v % 2 ^ 8))
