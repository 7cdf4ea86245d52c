-- ===== src/Disk/Ata.antt =====
-- disk/ata.c: the decoding of the block of words that a disk identifies itself with.
use cuore_os.Base.{
  ℕ, zero, suc, ◌*◌, ◌/◌, ◌%◌, ◌^◌, bit_and, bit_or, Bool, false, Option, none, some, List, [], ◌∷◌,
  ◌++◌, get_elem?, set, ◌==◌, if◌then◌else◌,
}

-- `ata_identity_t`
pub record AtaIdentity : Type 0 where
  pub config : ℕ
  pub total_sectors : ℕ
  pub model : List ℕ
  pub serial : List ℕ
  pub firmware : List ℕ
  pub capabilities : ℕ
  pub field_validity : ℕ
  pub pio_modes : ℕ
  pub dma_modes : ℕ
  pub command_sets_82 : ℕ
  pub command_sets_83 : ℕ
  pub logical_sector_size : ℕ

abbrev pub is_space : Option ℕ → Bool
is_space none = false
is_space (some c) = c == 32

-- The second loop of `ata_parse_string`, with the places below `count` left.
unfoldable pub blank_tail : (count : ℕ) → (dest : List ℕ) → List ℕ
blank_tail zero dest = dest
blank_tail (suc i) dest =
    let rest = blank_tail i (set dest i 0) in if is_space (get_elem? dest i) then rest else dest

module _ (id_data : ℕ → ℕ) where
  -- Its first loop: the high byte of a word is the first character.
  unfoldable pub word_chars : (word_start word_count : ℕ) → List ℕ
  word_chars word_start zero = []
  word_chars word_start (suc word_count) =
      id_data word_start / 2 ^ 8
      ∷ (id_data word_start % 2 ^ 8 ∷ word_chars (suc word_start) word_count)

  unfoldable pub ata_parse_string : (word_start word_count : ℕ) → List ℕ
  unfolding word_chars blank_tail
  ata_parse_string word_start word_count =
      blank_tail (word_count * 2) (word_chars word_start word_count ++ (0 ∷ []))

  unfoldable pub total_sectors_of : ℕ
  total_sectors_of =
      if bit_and (id_data 83) (2 ^ 10) == 0
      then bit_or (id_data 61 * 2 ^ 16) (id_data 60)
      else bit_or
          (bit_or (bit_or (id_data 103 * 2 ^ 48) (id_data 102 * 2 ^ 32)) (id_data 101 * 2 ^ 16))
          (id_data 100)

  unfoldable pub ata_identify : AtaIdentity
  unfolding ata_parse_string total_sectors_of
  ata_identify = record {
    config = id_data 0;
    total_sectors = total_sectors_of;
    model = ata_parse_string 27 20;
    serial = ata_parse_string 10 10;
    firmware = ata_parse_string 23 4;
    capabilities = id_data 49;
    field_validity = id_data 53;
    pio_modes = id_data 64;
    dma_modes = bit_or (id_data 63 * 2 ^ 16) (id_data 88);
    command_sets_82 = id_data 82;
    command_sets_83 = id_data 83;
    logical_sector_size = bit_and (id_data 106) 0x0FFF;
  }
