-- ===== src/Disk/Install.antt =====
-- What `mbr_parse` of disk/mbr.c reads on a disk that `mbr_install` has written.
use cuore_os.Base.{ℕ, false}
use cuore_os.Disk.{Partition, Disk}

-- The partition of an installed record, in the memory that it got.
abbrev pub installed : (kind : ℕ) → (fresh : Partition) → Partition
installed kind fresh = record fresh {
  start_lba = 2048;
  sector_count = 0xFFFE;
  type_id = kind;
  is_gpt = false;
}
