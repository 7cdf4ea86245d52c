-- ===== src/Symtable/Tests.antt =====
-- Tests of the table of symbols.
use cuore_os.Base.{◌+◌, ◌*◌, ◌≡◌, refl, [], ◌∷◌, panic, bytes}
use cuore_os.Memory.{strcmp}
use cuore_os.Symtable.{
  SymTable, symtable_init, symtable_lookup, search_step, search_between, symtable_lookup_name,
}

-- Five symbols with names of one letter, from `a` on.
abbrev letters : SymTable
letters = record {
  entries = λ i. record { address = 4096 * (i + 1); string_offset = 2 * i };
  string_blob = λ offset. (offset + 97) ∷ [];
  entry_count = 5;
  string_pool_max = 10;
}

last_symbol : symtable_lookup_name (bytes "i") letters ≡ 0x5000
unfolding symtable_lookup_name search_between search_step symtable_lookup strcmp
last_symbol = refl

no_symbol : symtable_lookup_name (bytes "b") letters ≡ 0
unfolding symtable_lookup_name search_between search_step symtable_lookup strcmp
no_symbol = refl

short_blob : symtable_init 7 0 letters.entries letters.string_blob ≡ panic
unfolding symtable_init
short_blob = refl
