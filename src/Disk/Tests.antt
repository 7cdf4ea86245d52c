-- ===== src/Disk/Tests.antt =====
-- Tests of the partitions.
use cuore_os.Base.{ℕ, ◌∷◌, ◌≡◌, refl, true, none, some, [], bytes, if◌then◌else◌, ◌==◌, ◌&&◌}
use cuore_os.Disk.{Bytes, Partition, Disk, read_sectors, end_of, partition_register, put_le}
use cuore_os.Disk.Ata.{blank_tail, word_chars, ata_parse_string, total_sectors_of}
use cuore_os.Disk.Guids.{name_of_type, partition_get_name}
use cuore_os.Disk.Mbr.{mbr_parse, parse_sector, is_protective, register_from}
use cuore_os.Disk.Gpt.{protective_mbr, gpt_install}
use cuore_os.Disk.Install.{installed}

-- Memory as `malloc` gives it.
abbrev unset : Partition
unset = record {
  start_lba = 7;
  sector_count = 7;
  partition_id = 7;
  type_id = 7;
  guid = 7 ∷ [];
  is_gpt = true;
  next = 7;
}

linux : partition_get_name (installed 0x83 unset) ≡ bytes "Linux Native"
unfolding partition_get_name name_of_type
linux = refl

-- A disk with one readable sector.
abbrev with_sector : Bytes → Disk
with_sector b = record {
  total_sectors = 100;
  read = λ lba count. if lba == 0 && count == 1 then some b else none;
  written = [];
  partitions = [];
}

-- The table that is installed protects itself in the first sector.
protective :
    mbr_parse true (λ i. some unset) (with_sector (protective_mbr (λ b n. 0) 100))
    ≡ some (2, with_sector (protective_mbr (λ b n. 0) 100))
unfolding mbr_parse read_sectors parse_sector is_protective register_from protective_mbr put_le
protective = refl

too_small :
    gpt_install (λ b n. 0) [] none (record (with_sector (λ i. 0)) { total_sectors = 67 })
    ≡ record (with_sector (λ i. 0)) { total_sectors = 67 }
unfolding gpt_install
too_small = refl

-- A second entry behind one whose `next` is not NULL.
no_end : partition_register unset (record (with_sector (λ i. 0)) { partitions = unset ∷ [] }) ≡ none
unfolding partition_register end_of
no_end = refl

-- A name in two words, with a space behind it, and the count of sectors in 28 bits.
abbrev identified : ℕ → ℕ
identified i =
    if i == 10
    then 0x4142
    else if i == 11
    then 0x4320
    else if i == 60
    then 5
    else if i == 61
    then 2
    else 0

short_name : ata_parse_string identified 10 2 ≡ 65 ∷ 66 ∷ 67 ∷ 0 ∷ 0 ∷ []
unfolding ata_parse_string blank_tail word_chars
short_name = refl

few_sectors : total_sectors_of identified ≡ 0x20005
unfolding total_sectors_of
few_sectors = refl
