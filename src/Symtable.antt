-- ===== src/Symtable.antt =====
-- symtable.c: the table of the kernel's symbols, as the blob of the build is read. A name is the list of
-- the bytes up to the terminator.
mod Tests
use cuore_os.Base.{
  ℕ, zero, suc, ◌+◌, ◌-◌, ◌*◌, ◌/◌, ◌^◌, Bool, true, false, ◌||◌, Option, none, some, List, [], ◌∷◌,
  u64, ltb, leb, ◌==◌, if◌then◌else◌, Run, ok, panic,
}
use cuore_os.Memory.{strcmp}

-- `struct SymTableEntry`, packed into 12 bytes.
pub record SymTableEntry : Type 0 where
  pub address : ℕ
  pub string_offset : ℕ

-- `struct SymTable`, with the names by their offset and the size of their pool.
pub record SymTable : Type 0 where
  pub entries : ℕ → SymTableEntry
  pub string_blob : ℕ → List ℕ
  pub entry_count : ℕ
  pub string_pool_max : ℕ

-- `symtable_init`, on the count, the entries and the names of a blob that is not NULL.
unfoldable pub symtable_init :
    (total_size count : ℕ) → (ℕ → SymTableEntry) → (ℕ → List ℕ) → Run SymTable
symtable_init total_size count entries names =
    let header_plus_entries = u64 (8 + u64 (count * 12)) in
    if ltb total_size 8
    then panic
    else if ltb total_size header_plus_entries
    then panic
    else ok (record {
      entries = entries;
      string_blob = names;
      entry_count = count;
      string_pool_max = total_size - header_plus_entries;
    })

-- `symtable_lookup`: the name, and the address for `out_addr`.
unfoldable pub symtable_lookup : (index : ℕ) → SymTable → Option (List ℕ) × Option ℕ
symtable_lookup index t =
    let entry = t.entries index in
    if leb t.entry_count index
    then (none, none)
    else if leb t.string_pool_max entry.string_offset
    then (none, some entry.address)
    else (some (t.string_blob entry.string_offset), some entry.address)

-- The result of a comparison that is an `int` is negative.
abbrev pub is_negative : ℕ → Bool
is_negative res = leb (2 ^ 31) res

-- One turn of the binary search: with the name found, the rest of the search below and above.
unfoldable pub search_step :
    (name : List ℕ) → (mid : ℕ) → (below above : ℕ) → Option (List ℕ) × Option ℕ → ℕ
search_step name mid below above (none, addr) = 0
search_step name mid below above (some sym_name, none) = 0
search_step name mid below above (some sym_name, some addr) =
    let res = strcmp name sym_name in
    if res == 0 then addr else if is_negative res then (if mid == 0 then 0 else below) else above

unfoldable pub search_between : (fuel : ℕ) → (name : List ℕ) → (low high : ℕ) → SymTable → ℕ
unfolding search_step symtable_lookup
search_between zero name low high t = 0
search_between (suc fuel) name low high t =
    let mid = low + (high - low) / 2 in
    let below = search_between fuel name low (mid - 1) t in
    let above = search_between fuel name (mid + 1) high t in
    if leb low high then search_step name mid below above (symtable_lookup mid t) else 0

-- `symtable_lookup_name`, on fuel for as many turns as there are entries.
unfoldable pub symtable_lookup_name : (name : List ℕ) → SymTable → ℕ
unfolding search_between
symtable_lookup_name name t =
    if t.entry_count == 0 then 0 else search_between t.entry_count name 0 (t.entry_count - 1) t
