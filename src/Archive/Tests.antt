-- ===== src/Archive/Tests.antt =====
-- Tests of the archive.
use cuore_os.Base.{◌*◌, ◌≡◌, refl, [], ◌∷◌, arith}
use cuore_os.Memory.{strcmp}
use cuore_os.Archive.{Ramfs, get_from, ramfs_get_file}
use cuore_os.Archive.Lookup.{IsFile, ramfs_get_file-IsFile}

-- Two files of one name.
abbrev twice : Ramfs
twice = record {
  base = 0x1000;
  file_count = 2;
  entries = λ i. record { name = 97 ∷ []; offset = 256 * i; size = 10 };
}

the_first : ramfs_get_file (97 ∷ []) twice ≡ record { data_at = 0x1000; size = 10 }
unfolding ramfs_get_file get_from strcmp
the_first = refl

ramfs_get_file-IsFile_example : IsFile twice (97 ∷ []) 0 2 (ramfs_get_file (97 ∷ []) twice)
ramfs_get_file-IsFile_example =
    ramfs_get_file-IsFile (97 ∷ []) twice ((omega arith, omega arith), tt)
      (λ j. ((omega arith, omega arith), tt))
