-- ===== src/Acpi.antt =====
-- firmware/acpi: the checksum of a table and the records of the MADT. The bytes of a table are a function of
-- their offset from the start of the table.
pub mod Madt
pub mod Mcfg
mod Tests
use cuore_os.Base.{ℕ, zero, suc, ◌+◌, ◌*◌, ◌^◌, ◌%◌, Bool, ◌==◌}

-- A number of `count` bytes at `at`, the lowest byte first.
unfoldable pub little : (bytes : ℕ → ℕ) → (at count : ℕ) → ℕ
little bytes at zero = 0
little bytes at (suc count) = bytes at + 256 * little bytes (suc at) count

-- `length` of the header of a table
abbrev pub table_length : (bytes : ℕ → ℕ) → ℕ
table_length bytes = little bytes 4 4

-- The loop of `acpi_checksum`, with `count` bytes from `i` left.
unfoldable pub sum_bytes : (bytes : ℕ → ℕ) → (i count sum : ℕ) → ℕ
sum_bytes bytes i zero sum = sum
sum_bytes bytes i (suc count) sum = sum_bytes bytes (suc i) count ((sum + bytes i) % 2 ^ 8)

unfoldable pub acpi_checksum : (bytes : ℕ → ℕ) → Bool
unfolding sum_bytes little
acpi_checksum bytes = sum_bytes bytes 0 (table_length bytes) 0 == 0
