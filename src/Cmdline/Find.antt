-- ===== src/Cmdline/Find.antt =====
-- `cmdline_find` of cmdline.c against a search by the key alone.
use cuore_os.Base.{
  ℕ, ◌≡◌, ◌≢◌, ap, ◌∙◌, true, false, ◌&&◌, Bool-cases, inl, inr, Option, none, some, List, [], ◌∷◌,
  ◌==◌, ==_iff, and-parts, All, arith,
}
use cuore_os.Memory.{strcmp}
use cuore_os.Memory.Compare.{IsByte, strcmp-zero_iff}
use cuore_os.Cmdline.{ArgEntry, hash_fnv1a, cmdline_find}

-- The entry has the hash of its key, whose bytes are no terminators.
abbrev pub IsHashed : ArgEntry → Type 0
IsHashed e = (e.hash ≡ hash_fnv1a e.key) × All IsByte e.key

-- The first entry with the key: those in front of it have other keys.
pub data IsFirst : (key : List ℕ) → List ArgEntry → Option ArgEntry → Type 0 where
  nothing_there : {key : List ℕ} → IsFirst key [] none
  it_is :
      {key : List ℕ} {registry : List ArgEntry} (e : ArgEntry)
      → e.key ≡ key
      → IsFirst key (e ∷ registry) (some e)
  later :
      {key : List ℕ} {registry : List ArgEntry} {o : Option ArgEntry} (e : ArgEntry)
      → e.key ≢ key
      → IsFirst key registry o
      → IsFirst key (e ∷ registry) o

true_is_not_false : true ≢ false
true_is_not_false e = ground (arith, e)

-- For a key of bytes other than the terminator, and a registry whose entries have such keys and
-- their hashes, `cmdline_find`, which compares hashes first, finds the first entry with the key,
-- and nothing just when there is none.
pub cmdline_find-IsFirst :
    (key : List ℕ) (registry : List ArgEntry)
    → All IsByte key
    → All IsHashed registry
    → IsFirst key registry (cmdline_find key registry)
unfolding cmdline_find
cmdline_find-IsFirst key [] k h = nothing_there
cmdline_find-IsFirst key (e ∷ registry) k h =
    elim (Bool-cases (e.hash == hash_fnv1a key && strcmp e.key key == 0)) [
      | inl t ↦ rw t (
          it_is e (
            (strcmp-zero_iff e.key key h.0.1 k).0 (
              (==_iff (strcmp e.key key) 0).0
                (and-parts (e.hash == hash_fnv1a key) (strcmp e.key key == 0) t).1)))
      | inr t ↦ rw t (later e (λ q. differs t q) (cmdline_find-IsFirst key registry k h.1))
    ]
  where
    same_hash : e.key ≡ key → (e.hash == hash_fnv1a key) ≡ true
    same_hash q = (==_iff e.hash (hash_fnv1a key)).1 (h.0.0 ∙ ap hash_fnv1a q)

    same_key : e.key ≡ key → (strcmp e.key key == 0) ≡ true
    same_key q = (==_iff (strcmp e.key key) 0).1 ((strcmp-zero_iff e.key key h.0.1 k).1 q)

    differs : (e.hash == hash_fnv1a key && strcmp e.key key == 0) ≡ false → e.key ≢ key
    differs t q = true_is_not_false (rw (same_hash q, same_key q) at t)
