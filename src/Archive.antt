-- ===== src/Archive.antt =====
-- fs/ramfs.c: the archive of files that is loaded with the kernel.
pub mod Lookup
mod Tests
use cuore_os.Base.{
  ℕ, zero, suc, ◌+◌, Bool, Option, none, some, List, [], ◌∷◌, u64, ltb, ◌==◌, if◌then◌else◌,
}
use cuore_os.Memory.{strcmp}

-- `ramfs_entry_t`; the name ends in its 64 bytes.
pub record RamfsEntry : Type 0 where
  pub name : List ℕ
  pub offset : ℕ
  pub size : ℕ

-- `ramfs_handle_t`: where the archive lies, the count of its header, and its entries.
pub record Ramfs : Type 0 where
  pub base : ℕ
  pub file_count : ℕ
  pub entries : ℕ → RamfsEntry

-- `ramfs_file_t`
pub record RamfsFile : Type 0 where
  pub data_at : ℕ
  pub size : ℕ

abbrev pub no_file : RamfsFile
no_file = record { data_at = 0; size = 0 }

abbrev pub file_of : (base : ℕ) → RamfsEntry → RamfsFile
file_of base e = record { data_at = u64 (base + e.offset); size = e.size }

-- The loop from the entry `i` on, for the entries that are left.
unfoldable pub get_from : (count i : ℕ) → (name : List ℕ) → Ramfs → RamfsFile
get_from zero i name fs = no_file
get_from (suc count) i name fs =
    let rest = get_from count (i + 1) name fs in
    if strcmp (fs.entries i).name name == 0 then file_of fs.base (fs.entries i) else rest

unfoldable pub ramfs_get_file : (name : List ℕ) → Ramfs → RamfsFile
unfolding get_from
ramfs_get_file name fs = get_from fs.file_count 0 name fs
