-- ===== src/Cmdline/Tests.antt =====
-- Tests of the command line.
use cuore_os.Base.{ℕ, ◌≡◌, refl, List, [], ◌∷◌, All, bytes, ok, arith}
use cuore_os.Memory.{strcmp}
use cuore_os.Memory.Compare.{IsByte}
use cuore_os.Stdio.Parse.{hex_loop, dec_loop, strtoull}
use cuore_os.Cmdline.{
  ArgEntry, hash_from, hash_fnv1a, word_of, behind_word, skip_spaces, value_of, behind_value,
  entry_of, behind_entry, cmdline_parse, cmdline_init, cmdline_find, uint_in, get_uint,
}
use cuore_os.Cmdline.Find.{IsHashed, IsFirst, cmdline_find-IsFirst}
use cuore_os.Cmdline.Parse.{OnOk, cmdline_parse-fuel, cmdline_init-IsHashed}

entry : (key value : List ℕ) → ArgEntry
entry key value = record { key = key; value = value; hash = hash_fnv1a key }

two_entries :
    cmdline_init (bytes " quiet  mem=0x10") []
    ≡ ok (entry (bytes "quiet") [] ∷ entry (bytes "mem") (bytes "0x10") ∷ [])
unfolding entry cmdline_init cmdline_parse word_of behind_word skip_spaces value_of behind_value
    entry_of behind_entry
two_entries = refl

number :
    get_uint (bytes "mem") 5 (entry (bytes "quiet") [] ∷ entry (bytes "mem") (bytes "0x10") ∷ [])
    ≡ 16
unfolding entry get_uint uint_in cmdline_find hash_fnv1a hash_from strcmp strtoull hex_loop dec_loop
number = refl

key_bytes : All IsByte (bytes "mem")
key_bytes =
    ((omega arith, omega arith), ((omega arith, omega arith), ((omega arith, omega arith), tt)))

cmdline_find-IsFirst_example :
    IsFirst
      (bytes "mem")
      (entry (bytes "mem") [] ∷ [])
      (cmdline_find (bytes "mem") (entry (bytes "mem") [] ∷ []))
unfolding entry
cmdline_find-IsFirst_example =
    cmdline_find-IsFirst (bytes "mem") (entry (bytes "mem") [] ∷ []) key_bytes
      ((refl, key_bytes), tt)

cmdline_parse-fuel_example : cmdline_parse 9 (bytes "mem") [] ≡ cmdline_parse 3 (bytes "mem") []
cmdline_parse-fuel_example = cmdline_parse-fuel 3 9 (bytes "mem") [] (omega arith) (omega arith)

cmdline_init-IsHashed_example : OnOk (All IsHashed) (cmdline_init (bytes "mem") [])
cmdline_init-IsHashed_example = cmdline_init-IsHashed (bytes "mem") [] key_bytes tt
