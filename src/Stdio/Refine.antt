-- ===== src/Stdio/Refine.antt =====
-- The output into a buffer against the output as a text: functions of stdio.c that print do the same
-- to both, so that `vsnprintf` leaves the first bytes of the text.
use cuore_os.Base.{
  ℕ, ◌-◌, Option, none, some, List, [], ◌∷◌, ◌++◌, ltb, if◌then◌else◌, length, take, copy_at, u32,
}
use cuore_os.Stdio.{Context, to_buffer}
use cuore_os.Stdio.Format.{Arg}
use cuore_os.Stdio.Print.{format_from}

module _ (old : ℕ → ℕ) (size : ℕ) where
  -- The buffer with the first `size` bytes of a text.
  abbrev holding : List ℕ → Context
  holding text = record { buf = copy_at (take size text) 0 old; cap = size; pos = length text }

module _ (buf : ℕ → ℕ) (fmt : List ℕ) (args : List Arg) where
  print : (size : ℕ) → Option Context
  print size =
      format_from to_buffer (length fmt) fmt args (record { buf = buf; cap = size; pos = 0 })

-- A buffer of a size with as much of a text as there is room for, and its terminator, and the length
-- of the whole text.
unfoldable pub in_buffer : (buf : ℕ → ℕ) → (bufsz : ℕ) → Option (List ℕ) → Option ((ℕ → ℕ) × ℕ)
unfolding copy_at
in_buffer buf bufsz none = none
in_buffer buf bufsz (some text) =
    some (
      copy_at (if ltb 0 bufsz then take (bufsz - 1) text ++ 0 ∷ [] else []) 0 buf,
      u32 (length text),
    )
