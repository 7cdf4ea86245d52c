-- ===== src/Cmdline.antt =====
-- cmdline.c and math/fnv1a.c: the arguments of the kernel, and the hash by which they are found.
pub mod Find
pub mod Parse
mod Tests
use cuore_os.Base.{
  ℕ, zero, suc, ◌+◌, ◌-◌, ◌*◌, ◌^◌, bit_xor, Bool, true, false, not, ◌&&◌, ◌||◌, Option, none, some,
  List, [], ◌∷◌, ◌++◌, length, u64, ltb, leb, ◌==◌, if◌then◌else◌, Run, ok, panic, ◌>>=◌,
}
use cuore_os.Memory.{strcmp}
use cuore_os.Stdio.Parse.{strtoull}

abbrev pub fnv_offset_basis : ℕ
fnv_offset_basis = 14695981039346656037

abbrev pub fnv_prime : ℕ
fnv_prime = 1099511628211

-- A `char` above 127 is negative, and has all the high bits set as an `uint64_t`.
abbrev pub char64 : ℕ → ℕ
char64 c = if ltb c 128 then c else c + 2 ^ 64 - 256

unfoldable pub hash_from : (hash : ℕ) → List ℕ → ℕ
hash_from hash [] = hash
hash_from hash (c ∷ key) = hash_from (u64 (bit_xor hash (char64 c) * fnv_prime)) key

unfoldable pub hash_fnv1a : List ℕ → ℕ
unfolding hash_from
hash_fnv1a key = hash_from fnv_offset_basis key

-- `arg_entry_t`; the bytes behind the terminators are left out, and so is `found`, which is always set.
pub record ArgEntry : Type 0 where
  pub key : List ℕ
  pub value : List ℕ
  pub hash : ℕ

abbrev pub cmdline_max_args : ℕ
cmdline_max_args = 128

-- A loop that copies at most `room` characters, up to a space and, in a key, up to `=`: what is copied and
-- what is left.
unfoldable pub word_of : (is_key : Bool) → (room : ℕ) → List ℕ → List ℕ
word_of is_key zero cmd = []
word_of is_key (suc room) [] = []
word_of is_key (suc room) (c ∷ cmd) =
    let more = word_of is_key room cmd in
    if c == b' ' || (is_key && c == b'=') then [] else c ∷ more

unfoldable pub behind_word : (is_key : Bool) → (room : ℕ) → List ℕ → List ℕ
behind_word is_key zero cmd = cmd
behind_word is_key (suc room) [] = []
behind_word is_key (suc room) (c ∷ cmd) =
    let more = behind_word is_key room cmd in
    if c == b' ' || (is_key && c == b'=') then c ∷ cmd else more

unfoldable pub skip_spaces : List ℕ → List ℕ
skip_spaces [] = []
skip_spaces (c ∷ cmd) = let more = skip_spaces cmd in if c == b' ' then more else c ∷ cmd

-- An entry with its value, from behind the key on, and what is left.
unfoldable pub value_of : List ℕ → List ℕ
unfolding word_of
value_of [] = []
value_of (c ∷ cmd) = if c == b'=' then word_of false 63 cmd else []

unfoldable pub behind_value : List ℕ → List ℕ
unfolding behind_word
behind_value [] = []
behind_value (c ∷ cmd) = if c == b'=' then behind_word false 63 cmd else c ∷ cmd

unfoldable pub entry_of : List ℕ → ArgEntry
unfolding word_of behind_word value_of hash_fnv1a
entry_of cmd =
    let name = word_of true 31 cmd in
    record { key = name; value = value_of (behind_word true 31 cmd); hash = hash_fnv1a name }

unfoldable pub behind_entry : List ℕ → List ℕ
unfolding behind_word behind_value
behind_entry cmd = behind_value (behind_word true 31 cmd)

-- `cmdline_parse`, on fuel; the registry is a list.
unfoldable pub cmdline_parse : (fuel : ℕ) → List ℕ → List ArgEntry → Run (List ArgEntry)
unfolding skip_spaces entry_of behind_entry
cmdline_parse zero cmd registry = ok registry
cmdline_parse (suc fuel) cmd registry =
    let from = skip_spaces cmd in
    let more = cmdline_parse fuel (behind_entry from) (registry ++ entry_of from ∷ []) in
    if length from == 0
    then ok registry
    else if leb cmdline_max_args (length registry)
    then panic
    else more

unfoldable pub cmdline_init : List ℕ → List ArgEntry → Run (List ArgEntry)
unfolding cmdline_parse
cmdline_init cmd registry =
    if length cmd == 0 then ok registry else cmdline_parse (length cmd) cmd registry

-- `cmdline_find`, with the entry in place of its index.
unfoldable pub cmdline_find : (key : List ℕ) → List ArgEntry → Option ArgEntry
unfolding hash_fnv1a
cmdline_find key [] = none
cmdline_find key (e ∷ registry) =
    let rest = cmdline_find key registry in
    if e.hash == hash_fnv1a key && strcmp e.key key == 0 then some e else rest

unfoldable pub value_in : Option ArgEntry → Option (List ℕ)
value_in none = none
value_in (some e) = some e.value

unfoldable pub get_string : (key : List ℕ) → List ArgEntry → Option (List ℕ)
unfolding cmdline_find value_in
get_string key registry = value_in (cmdline_find key registry)

unfoldable pub uint_in : Option ArgEntry → (default_val : ℕ) → ℕ
uint_in none default_val = default_val
uint_in (some e) default_val = if length e.value == 0 then default_val else strtoull e.value

unfoldable pub get_uint : (key : List ℕ) → (default_val : ℕ) → List ArgEntry → ℕ
unfolding cmdline_find uint_in
get_uint key default_val registry = uint_in (cmdline_find key registry) default_val

unfoldable pub has_key : (key : List ℕ) → List ArgEntry → Bool
unfolding cmdline_find
has_key key registry = elim (cmdline_find key registry) [ none ↦ false | some _ ↦ true ]
