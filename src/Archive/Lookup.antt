-- ===== src/Archive/Lookup.antt =====
-- `ramfs_get_file` of fs/ramfs.c finds the first file of a name.
use cuore_os.Base.{
  ℕ, zero, suc, ◌+◌, ◌<◌, ◌≡◌, ◌≢◌, ◌↔◌, subst, Bool-cases, inl, inr, List, ◌==◌, ==_iff, All,
  arith,
}
use cuore_os.Memory.{strcmp}
use cuore_os.Memory.Compare.{IsByte, strcmp-zero_iff}
use cuore_os.Archive.{Ramfs, RamfsFile, no_file, file_of, get_from, ramfs_get_file}

-- The file of the first entry with the name, from the entry `i` up to `n`, or none.
pub data IsFile : Ramfs → (name : List ℕ) → (i n : ℕ) → RamfsFile → Type 0 where
  none_left : {fs : Ramfs} {name : List ℕ} (i : ℕ) → IsFile fs name i i no_file
  found_at :
      {fs : Ramfs} {name : List ℕ} (i n : ℕ)
      → i < n
      → (fs.entries i).name ≡ name
      → IsFile fs name i n (file_of fs.base (fs.entries i))
  further :
      {fs : Ramfs} {name : List ℕ} {file : RamfsFile} (i n : ℕ)
      → i < n
      → (fs.entries i).name ≢ name
      → IsFile fs name (i + 1) n file
      → IsFile fs name i n file

get_from-IsFile :
    (count i n : ℕ) (name : List ℕ) (fs : Ramfs)
    → All IsByte name
    → ((j : ℕ) → All IsByte (fs.entries j).name)
    → n ≡ i + count
    → IsFile fs name i n (get_from count i name fs)
unfolding get_from
get_from-IsFile zero i n name fs h k e =
    subst (λ m. IsFile fs name i m no_file) (omega (arith, e)) (none_left i)
get_from-IsFile (suc count) i n name fs h k e =
    elim (Bool-cases (strcmp (fs.entries i).name name == 0)) [
      | inl t ↦ rw t (
          found_at i n (omega (arith, e))
            (iff.0 ((==_iff (strcmp (fs.entries i).name name) 0).0 t)))
      | inr t ↦ rw t (
          further i n (omega (arith, e)) (λ q. ground (arith, t, iff.1 q))
            (get_from-IsFile count (i + 1) n name fs h k (omega (arith, e))))
    ]
  where
    iff : (strcmp (fs.entries i).name name ≡ 0) ↔ ((fs.entries i).name ≡ name)
    iff = strcmp-zero_iff (fs.entries i).name name (k i) h

-- When the given name and the names of the archive are bytes other than the terminator,
-- `ramfs_get_file` returns the file of the first entry with the name, among as many entries as
-- the header counts, and NULL with the size 0 when there is none.
pub ramfs_get_file-IsFile :
    (name : List ℕ) (fs : Ramfs)
    → All IsByte name
    → ((j : ℕ) → All IsByte (fs.entries j).name)
    → IsFile fs name 0 fs.file_count (ramfs_get_file name fs)
unfolding ramfs_get_file
ramfs_get_file-IsFile name fs h k =
    get_from-IsFile fs.file_count 0 fs.file_count name fs h k (omega arith)
