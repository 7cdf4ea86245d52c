-- ===== src/Disk/Guids.antt =====
-- disk/guid_list.h and the tables of names in disk/partition.c.
use cuore_os.Base.{
  ℕ, ◌/◌, ◌%◌, ◌^◌, List, [], ◌∷◌, Bool, true, false, ◌&&◌, if◌then◌else◌, ◌==◌, bytes,
}
use cuore_os.Disk.{Partition}

-- GUIDE_PARSE: the first three parts are little-endian numbers.
abbrev pub guide_parse : (d1 d2 d3 : ℕ) → List ℕ → List ℕ
guide_parse d1 d2 d3 d4 =
    d1 % 256
    ∷ d1 / 2 ^ 8 % 256
    ∷ d1 / 2 ^ 16 % 256
    ∷ d1 / 2 ^ 24 % 256
    ∷ d2 % 256
    ∷ d2 / 2 ^ 8 % 256
    ∷ d3 % 256
    ∷ d3 / 2 ^ 8 % 256
    ∷ d4

abbrev pub guid_empty : List ℕ
guid_empty = guide_parse 0 0 0 (0 ∷ 0 ∷ 0 ∷ 0 ∷ 0 ∷ 0 ∷ 0 ∷ 0 ∷ [])

abbrev pub guid_efi_system : List ℕ
guid_efi_system =
    guide_parse 0xC12A7328 0xF81F 0x11D2
      (0xBA ∷ 0x4B ∷ 0x00 ∷ 0xA0 ∷ 0xC9 ∷ 0x3E ∷ 0xC9 ∷ 0x3B ∷ [])

abbrev pub guid_bios_boot : List ℕ
guid_bios_boot =
    guide_parse 0x21686148 0x6449 0x6E6F
      (0x74 ∷ 0x4E ∷ 0x65 ∷ 0x65 ∷ 0x64 ∷ 0x45 ∷ 0x46 ∷ 0x49 ∷ [])

abbrev pub guid_ms_basic_data : List ℕ
guid_ms_basic_data =
    guide_parse 0xEBD0A0A2 0xB9E5 0x4433
      (0x87 ∷ 0xC0 ∷ 0x68 ∷ 0xB6 ∷ 0xB7 ∷ 0x26 ∷ 0x99 ∷ 0xC7 ∷ [])

abbrev pub guid_linux_swap : List ℕ
guid_linux_swap =
    guide_parse 0x0657FD6D 0xA4AB 0x43C4
      (0x84 ∷ 0xE5 ∷ 0x09 ∷ 0x33 ∷ 0xC8 ∷ 0x4B ∷ 0x4F ∷ 0x4F ∷ [])

abbrev pub guid_linux_filesystem : List ℕ
guid_linux_filesystem =
    guide_parse 0x0FC63DAF 0x8483 0x4772
      (0x8E ∷ 0x79 ∷ 0x3D ∷ 0x69 ∷ 0xD8 ∷ 0x47 ∷ 0x7D ∷ 0xE4 ∷ [])

abbrev pub guid_ms_reserved : List ℕ
guid_ms_reserved =
    guide_parse 0xE3C9E316 0x0B5C 0x4DB8
      (0x81 ∷ 0x7D ∷ 0xF9 ∷ 0x2D ∷ 0xF0 ∷ 0x02 ∷ 0x15 ∷ 0xAE ∷ [])

abbrev pub guid_win_recovery : List ℕ
guid_win_recovery =
    guide_parse 0xDE94BBA4 0x06D1 0x4D40
      (0xA1 ∷ 0x6A ∷ 0xBF ∷ 0xD5 ∷ 0x01 ∷ 0x79 ∷ 0xD6 ∷ 0xAC ∷ [])

abbrev pub guid_mbr_scheme : List ℕ
guid_mbr_scheme =
    guide_parse 0x024DEE41 0x33E7 0x11D3
      (0x9D ∷ 0x69 ∷ 0x00 ∷ 0x08 ∷ 0xC7 ∷ 0x81 ∷ 0xF3 ∷ 0x9F ∷ [])

abbrev pub guid_intel_fast_flash : List ℕ
guid_intel_fast_flash =
    guide_parse 0xD3BFE2DE 0x3DAF 0x11DF
      (0xBA ∷ 0x40 ∷ 0xE3 ∷ 0xA5 ∷ 0x56 ∷ 0xD8 ∷ 0x95 ∷ 0x93 ∷ [])

abbrev pub guid_sony_boot : List ℕ
guid_sony_boot =
    guide_parse 0xF4019732 0x066E 0x4E12
      (0x82 ∷ 0x73 ∷ 0x34 ∷ 0x6C ∷ 0x56 ∷ 0x41 ∷ 0x49 ∷ 0x4F ∷ [])

abbrev pub guid_lenovo_boot : List ℕ
guid_lenovo_boot =
    guide_parse 0xBFBFAFE7 0xA34F 0x448A
      (0x9A ∷ 0x5B ∷ 0x62 ∷ 0x13 ∷ 0xEB ∷ 0x73 ∷ 0x6C ∷ 0x22 ∷ [])

abbrev pub guid_powerpc_prep : List ℕ
guid_powerpc_prep =
    guide_parse 0x9E1A2D38 0xC612 0x4316
      (0xAA ∷ 0x26 ∷ 0x8B ∷ 0x49 ∷ 0x52 ∷ 0x1E ∷ 0x5A ∷ 0x8B ∷ [])

abbrev pub guid_onie_boot : List ℕ
guid_onie_boot =
    guide_parse 0x7412F7D5 0xA156 0x4B13
      (0x81 ∷ 0xDC ∷ 0x86 ∷ 0x71 ∷ 0x74 ∷ 0x92 ∷ 0x93 ∷ 0x25 ∷ [])

abbrev pub guid_onie_config : List ℕ
guid_onie_config =
    guide_parse 0xD4E6E2CD 0x4469 0x46F3
      (0xB5 ∷ 0xCB ∷ 0x1B ∷ 0xFF ∷ 0x57 ∷ 0xAF ∷ 0xC1 ∷ 0x49 ∷ [])

abbrev pub guid_ms_ldm_metadata : List ℕ
guid_ms_ldm_metadata =
    guide_parse 0x5808C8AA 0x7E8F 0x42E0
      (0x85 ∷ 0xD2 ∷ 0xE1 ∷ 0xE9 ∷ 0x04 ∷ 0x34 ∷ 0xCF ∷ 0xB3 ∷ [])

abbrev pub guid_ms_ldm_data : List ℕ
guid_ms_ldm_data =
    guide_parse 0xAF9B60A0 0x1431 0x4F62
      (0xBC ∷ 0x68 ∷ 0x33 ∷ 0x11 ∷ 0x71 ∷ 0x4A ∷ 0x69 ∷ 0xAD ∷ [])

abbrev pub guid_ms_storage_spaces : List ℕ
guid_ms_storage_spaces =
    guide_parse 0xE75CAF8F 0xF680 0x4CEE
      (0xAF ∷ 0xA3 ∷ 0xB0 ∷ 0x01 ∷ 0xE5 ∷ 0x6E ∷ 0xFC ∷ 0x2D ∷ [])

abbrev pub guid_hp_ux_data : List ℕ
guid_hp_ux_data =
    guide_parse 0x75894C1E 0x3AEB 0x11D3
      (0xB7 ∷ 0xC1 ∷ 0x7B ∷ 0x03 ∷ 0xA0 ∷ 0x00 ∷ 0x00 ∷ 0x00 ∷ [])

abbrev pub guid_hp_ux_service : List ℕ
guid_hp_ux_service =
    guide_parse 0xE2A1E728 0x32E3 0x11D6
      (0xA6 ∷ 0x82 ∷ 0x7B ∷ 0x03 ∷ 0xA0 ∷ 0x00 ∷ 0x00 ∷ 0x00 ∷ [])

abbrev pub guid_ibm_gpfs : List ℕ
guid_ibm_gpfs =
    guide_parse 0x37AFFC90 0xEF7D 0x4E96
      (0x91 ∷ 0xC3 ∷ 0x2D ∷ 0x7A ∷ 0xE0 ∷ 0x55 ∷ 0xB1 ∷ 0x74 ∷ [])

-- The types of a master boot record, and their names.
abbrev pub partition_lookup_table : List (ℕ × List ℕ)
partition_lookup_table =
    (0x00, bytes "Empty")
    ∷ (0x06, bytes "FAT16")
    ∷ (0x0B, bytes "FAT32 (CHS)")
    ∷ (0x0C, bytes "FAT32 (LBA)")
    ∷ (0x07, bytes "NTFS/exFAT")
    ∷ (0x83, bytes "Linux Native")
    ∷ (0x82, bytes "Linux Swap")
    ∷ (0xEF, bytes "EFI System Partition")
    ∷ (0x21, bytes "BIOS Boot Partition")
    ∷ []

abbrev pub guid_name_table : List (List ℕ × List ℕ)
guid_name_table =
    (guid_empty, bytes "Empty/Unknown")
    ∷ (guid_efi_system, bytes "EFI System Partition")
    ∷ (guid_bios_boot, bytes "BIOS Boot Partition")
    ∷ (guid_ms_basic_data, bytes "Microslop Basic Data")
    ∷ (guid_linux_swap, bytes "Linux Swap")
    ∷ (guid_linux_filesystem, bytes "Linux Filesystem")
    ∷ (guid_ms_reserved, bytes "Microslop Reserved")
    ∷ (guid_win_recovery, bytes "Windows Recovery Environment")
    ∷ (guid_mbr_scheme, bytes "MBR Partition Scheme")
    ∷ (guid_intel_fast_flash, bytes "Intel Fast Flash")
    ∷ (guid_sony_boot, bytes "Sony Boot Partition")
    ∷ (guid_lenovo_boot, bytes "Lenovo Boot Partition")
    ∷ (guid_powerpc_prep, bytes "PowerPC PReP Boot")
    ∷ (guid_onie_boot, bytes "ONIE Boot Partition")
    ∷ (guid_onie_config, bytes "ONIE Config Partition")
    ∷ (guid_ms_ldm_metadata, bytes "Logical Disk Manager Metadata")
    ∷ (guid_ms_ldm_data, bytes "Logical Disk Manager Data")
    ∷ (guid_ms_storage_spaces, bytes "Microsoft Storage Spaces")
    ∷ (guid_hp_ux_data, bytes "HP-UX Data")
    ∷ (guid_hp_ux_service, bytes "HP-UX Service")
    ∷ (guid_ibm_gpfs, bytes "IBM General Parallel FS")
    ∷ []

unfoldable pub same_bytes : List ℕ → List ℕ → Bool
same_bytes [] [] = true
same_bytes [] (d ∷ ds) = false
same_bytes (c ∷ cs) [] = false
same_bytes (c ∷ cs) (d ∷ ds) = c == d && same_bytes cs ds

unfoldable pub name_of_guid : (guid : List ℕ) → List (List ℕ × List ℕ) → List ℕ
unfolding same_bytes
name_of_guid guid [] = bytes "Unknown"
name_of_guid guid (e ∷ es) =
    let rest = name_of_guid guid es in if same_bytes e.0 guid then e.1 else rest

unfoldable pub name_of_type : (type_id : ℕ) → List (ℕ × List ℕ) → List ℕ
name_of_type type_id [] = bytes "Unknown"
name_of_type type_id (e ∷ es) =
    let rest = name_of_type type_id es in if e.0 == type_id then e.1 else rest

-- `partition_get_name`
unfoldable pub partition_get_name : Partition → List ℕ
unfolding name_of_guid name_of_type
partition_get_name p =
    if p.is_gpt
    then name_of_guid p.guid guid_name_table
    else name_of_type p.type_id partition_lookup_table
