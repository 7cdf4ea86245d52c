-- ===== src/Keyboard.antt =====
-- drivers/PS2.c and kbd_layouts.h: the characters of the scan codes, with the layout that is the default.
mod Tests
use cuore_os.Base.{
  ℕ, ◌%◌, bit_and, Bool, true, false, not, ◌||◌, Option, none, some, List, [], ◌∷◌, get_elem?, ◌==◌,
  if◌then◌else◌, leb,
}

abbrev pub keys_low : List ℕ
keys_low =
    0 ∷ 27 ∷ 49 ∷ 50 ∷ 51 ∷ 52 ∷ 53 ∷ 54 ∷ 55 ∷ 56 ∷ 57 ∷ 48 ∷ 45 ∷ 61 ∷ 8 ∷ 9 ∷ 113 ∷ 119 ∷ 101
    ∷ 114 ∷ 116 ∷ 121 ∷ 117 ∷ 105 ∷ 111 ∷ 112 ∷ 91 ∷ 93 ∷ 10 ∷ 0 ∷ 97 ∷ 115 ∷ 100 ∷ 102 ∷ 103 ∷ 104
    ∷ 106 ∷ 107 ∷ 108 ∷ 59 ∷ 39 ∷ 96 ∷ 0 ∷ 35 ∷ 122 ∷ 120 ∷ 99 ∷ 118 ∷ 98 ∷ 110 ∷ 109 ∷ 44 ∷ 46 ∷ 47
    ∷ 0 ∷ 42 ∷ 0 ∷ 32 ∷ []

abbrev pub keys_high : List ℕ
keys_high =
    0 ∷ 27 ∷ 33 ∷ 34 ∷ 0 ∷ 36 ∷ 37 ∷ 94 ∷ 38 ∷ 42 ∷ 40 ∷ 41 ∷ 95 ∷ 43 ∷ 8 ∷ 9 ∷ 81 ∷ 87 ∷ 69 ∷ 82
    ∷ 84 ∷ 89 ∷ 85 ∷ 73 ∷ 79 ∷ 80 ∷ 123 ∷ 125 ∷ 10 ∷ 0 ∷ 65 ∷ 83 ∷ 68 ∷ 70 ∷ 71 ∷ 72 ∷ 74 ∷ 75 ∷ 76
    ∷ 58 ∷ 64 ∷ 126 ∷ 0 ∷ 126 ∷ 90 ∷ 88 ∷ 67 ∷ 86 ∷ 66 ∷ 78 ∷ 77 ∷ 60 ∷ 62 ∷ 63 ∷ 0 ∷ 42 ∷ 0 ∷ 32
    ∷ []

-- `shift_active` and `caps_active`
pub record Keyboard : Type 0 where
  pub shift_active : Bool
  pub caps_active : Bool

abbrev pub is_shift : (key_only : ℕ) → Bool
is_shift key_only = key_only == 0x2A || key_only == 0x36

-- `shift_active ^ caps_active`
abbrev pub is_upper : Keyboard → Bool
is_upper k = if k.shift_active then not k.caps_active else k.caps_active

-- `ps2_getc` once a scan code waits: the character, 0 for none, or nothing when the code lies behind the
-- tables, where the source reads on.
unfoldable pub ps2_getc : (scancode : ℕ) → Keyboard → Option ℕ × Keyboard
ps2_getc scancode k =
    let key_only = scancode % 128 in
    if scancode == 0xE0
    then (some 0, k)
    else if leb 128 scancode
    then (some 0, if is_shift key_only then record k { shift_active = false } else k)
    else if is_shift key_only
    then (some 0, record k { shift_active = true })
    else if key_only == 0x3A
    then (some 0, record k { caps_active = not k.caps_active })
    else (get_elem? (if is_upper k then keys_high else keys_low) key_only, k)
