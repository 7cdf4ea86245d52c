-- ===== src/Keyboard/Tests.antt =====
-- Tests of the keyboard.
use cuore_os.Base.{◌≡◌, refl, true, false, none, some}
use cuore_os.Keyboard.{Keyboard, ps2_getc}

abbrev plain : Keyboard
plain = record { shift_active = false; caps_active = false }

shifted : (ps2_getc 0x1E (ps2_getc 0x2A plain).1).0 ≡ some b'A'
unfolding ps2_getc
shifted = refl

shift_and_caps : (ps2_getc 0x1E (record { shift_active = true; caps_active = true })).0 ≡ some b'a'
unfolding ps2_getc
shift_and_caps = refl

-- The key F1 has no place in the tables.
behind_the_table : (ps2_getc 0x3B plain).0 ≡ none
unfolding ps2_getc
behind_the_table = refl
