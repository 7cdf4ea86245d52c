-- ===== src/Cmdline/Parse.antt =====
-- The parsing of the command line by cmdline.c: it ends, and the registry has the hashes of its keys.
use cuore_os.Base.{
  ℕ, zero, suc, ◌-◌, ◌≤◌, ◌≡◌, refl, Bool, true, false, ◌&&◌, ◌||◌, Bool-cases, inl, inr, List, [],
  ◌∷◌, ◌++◌, length, leb, ◌==◌, if◌then◌else◌, if_cases, All, All-append, Run, ok, panic, arith,
}
use cuore_os.Memory.Compare.{IsByte}
use cuore_os.Cmdline.{
  ArgEntry, word_of, behind_word, skip_spaces, behind_value, entry_of, behind_entry, cmdline_parse,
  cmdline_init, cmdline_max_args,
}
use cuore_os.Cmdline.Find.{IsHashed}

skip_spaces-length : (cmd : List ℕ) → length (skip_spaces cmd) ≤ length cmd
unfolding skip_spaces
skip_spaces-length [] = omega arith
skip_spaces-length (c ∷ cmd) =
    if_cases (λ (r : List ℕ). length r ≤ suc (length cmd)) (c == b' ') _ _
      (λ e. omega (arith, skip_spaces-length cmd)) (λ e. omega arith)

behind_word-length :
    (is_key : Bool) (room : ℕ) (cmd : List ℕ) → length (behind_word is_key room cmd) ≤ length cmd
unfolding behind_word
behind_word-length is_key zero cmd = omega arith
behind_word-length is_key (suc room) [] = omega arith
behind_word-length is_key (suc room) (c ∷ cmd) =
    if_cases (λ (r : List ℕ). length r ≤ suc (length cmd)) (c == b' ' || (is_key && c == b'=')) _ _
      (λ e. omega arith) (λ e. omega (arith, behind_word-length is_key room cmd))

behind_value-length : (cmd : List ℕ) → length (behind_value cmd) ≤ length cmd
unfolding behind_value
behind_value-length [] = omega arith
behind_value-length (c ∷ cmd) =
    if_cases (λ (r : List ℕ). length r ≤ suc (length cmd)) (c == b'=') _ _
      (λ e. omega (arith, behind_word-length false 63 cmd)) (λ e. omega arith)

key_starts :
    (room c : ℕ) (cmd : List ℕ)
    → (c == b' ') ≡ false
    → behind_word true (suc room) (c ∷ cmd)
      ≡ (if c == b'=' then c ∷ cmd else behind_word true room cmd)
unfolding behind_word
key_starts room c cmd e =
    rw e (elim (Bool-cases (c == b'=')) [ inl f ↦ rw f refl | inr f ↦ rw f refl ])

-- An entry consumes a character: one that is no space is part of the key, or ends it.
behind_entry-length :
    (c : ℕ) (cmd : List ℕ) → (c == b' ') ≡ false → length (behind_entry (c ∷ cmd)) ≤ length cmd
unfolding behind_entry behind_value
behind_entry-length c cmd e = rw (key_starts 30 c cmd e) (elim (Bool-cases (c == b'=')) [
  | inl f ↦ rw (f, f) (behind_word-length false 63 cmd)
  | inr f ↦
      rw f (
        omega
          (arith, behind_value-length (behind_word true 30 cmd), behind_word-length true 30 cmd))
])

nothing_behind : length (behind_entry []) ≡ 0
unfolding behind_entry behind_word behind_value
nothing_behind = refl

no_space : (cmd : List ℕ) → length (behind_entry (skip_spaces cmd)) ≤ length cmd - 1
unfolding skip_spaces
no_space [] = omega (arith, nothing_behind)
no_space (c ∷ cmd) = elim (Bool-cases (c == b' ')) [
  | inl e ↦ rw e (omega (arith, no_space cmd))
  | inr e ↦ rw e (omega (arith, behind_entry-length c cmd e))
]

-- `cmdline_parse` comes to its end in as many turns as there are characters: with fuel for at
-- least those, any more makes no difference.
pub cmdline_parse-fuel :
    (fuel more : ℕ) (cmd : List ℕ) (registry : List ArgEntry)
    → length cmd ≤ fuel
    → fuel ≤ more
    → cmdline_parse more cmd registry ≡ cmdline_parse fuel cmd registry
unfolding cmdline_parse
cmdline_parse-fuel zero zero cmd registry h k = refl
cmdline_parse-fuel zero (suc more) [] registry h k = refl
cmdline_parse-fuel zero (suc more) (c ∷ cmd) registry h k = ground (arith, h)
cmdline_parse-fuel (suc fuel) zero cmd registry h k = ground (arith, k)
cmdline_parse-fuel (suc fuel) (suc more) cmd registry h k =
    elim (Bool-cases (length (skip_spaces cmd) == 0)) [
      | inl e ↦ rw e refl
      | inr e ↦ rw e (elim (Bool-cases (leb cmdline_max_args (length registry))) [
        | inl f ↦ rw f refl
        | inr f ↦ rw f (
            cmdline_parse-fuel fuel more (behind_entry (skip_spaces cmd))
              (registry ++ entry_of (skip_spaces cmd) ∷ []) (omega (arith, h, no_space cmd))
              (omega (arith, k)))
      ])
    ]

-- A result, when there is one.
abbrev pub OnOk {ℓ} : {A : Type ℓ} → (A → Type 0) → Run A → Type 0
OnOk P (ok a) = P a
OnOk P panic = Unit

All-word_of :
    (P : ℕ → Type 0) (is_key : Bool) (room : ℕ) (cmd : List ℕ)
    → All P cmd
    → All P (word_of is_key room cmd) × All P (behind_word is_key room cmd)
unfolding word_of behind_word
All-word_of P is_key zero cmd h = (tt, h)
All-word_of P is_key (suc room) [] h = (tt, tt)
All-word_of P is_key (suc room) (c ∷ cmd) h =
    elim (Bool-cases (c == b' ' || (is_key && c == b'='))) [
      | inl e ↦ rw e (tt, h)
      | inr e ↦ let more = All-word_of P is_key room cmd h.1 in rw e ((h.0, more.0), more.1)
    ]

All-skip_spaces : (P : ℕ → Type 0) (cmd : List ℕ) → All P cmd → All P (skip_spaces cmd)
unfolding skip_spaces
All-skip_spaces P [] h = h
All-skip_spaces P (c ∷ cmd) h =
    if_cases (All P) (c == b' ') _ _ (λ e. All-skip_spaces P cmd h.1) (λ e. h)

All-behind_value : (P : ℕ → Type 0) (cmd : List ℕ) → All P cmd → All P (behind_value cmd)
unfolding behind_value
All-behind_value P [] h = tt
All-behind_value P (c ∷ cmd) h =
    if_cases (All P) (c == b'=') _ _ (λ e. (All-word_of P false 63 cmd h.1).1) (λ e. h)

cmdline_parse-IsHashed :
    (fuel : ℕ) (cmd : List ℕ) (registry : List ArgEntry)
    → All IsByte cmd
    → All IsHashed registry
    → OnOk (All IsHashed) (cmdline_parse fuel cmd registry)
unfolding cmdline_parse behind_entry entry_of
cmdline_parse-IsHashed zero cmd registry b h = h
cmdline_parse-IsHashed (suc fuel) cmd registry b h =
    let from = skip_spaces cmd in
    let bytes_left = All-skip_spaces IsByte cmd b in
    let key = All-word_of IsByte true 31 from bytes_left in
    if_cases (OnOk (All IsHashed)) (length from == 0) _ _ (λ e. h)
      (λ e.
        if_cases (OnOk (All IsHashed)) (leb cmdline_max_args (length registry)) _ _ (λ f. tt)
          (λ f.
            cmdline_parse-IsHashed fuel (behind_entry from) (registry ++ entry_of from ∷ [])
              (All-behind_value IsByte (behind_word true 31 from) key.1)
              (All-append IsHashed registry (entry_of from ∷ []) h ((refl, key.0), tt))))

-- If the command line has bytes other than the terminator, and every entry of the registry has
-- such a key and its hash, then so it is after `cmdline_init`, when that returns.
pub cmdline_init-IsHashed :
    (cmd : List ℕ) (registry : List ArgEntry)
    → All IsByte cmd
    → All IsHashed registry
    → OnOk (All IsHashed) (cmdline_init cmd registry)
unfolding cmdline_init
cmdline_init-IsHashed cmd registry b h =
    if_cases (OnOk (All IsHashed)) (length cmd == 0) _ _ (λ e. h)
      (λ e. cmdline_parse-IsHashed (length cmd) cmd registry b h)
