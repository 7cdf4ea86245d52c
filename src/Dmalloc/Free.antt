-- ===== src/Dmalloc/Free.antt =====
-- `dmfree` of mem/dmalloc.c after `dmalloc`.
use cuore_os.Base.{ℕ, ◌+◌, ◌/◌, ◌^◌, ◌<◌, ◌≡◌, refl, true, false, u64, sub64, ◌==◌, arith}
use cuore_os.Pma.Alloc.{Pma, pma_alloc_pages}
use cuore_os.Pma.Release.{pma_free_pages}
use cuore_os.Dmalloc.{Dmalloc, finish_dmalloc, dmalloc, free_entry, dmfree}

-- The address that a successful allocation returns goes back with the pages that were allocated.
finish_dmalloc-dmfree :
    (hhdm_offset pages : ℕ) (result : ℕ × Pma) (s : Dmalloc)
    → (result.0 == 0) ≡ false
    → result.0 + hhdm_offset < 2 ^ 64
    → dmfree hhdm_offset
        (finish_dmalloc hhdm_offset pages result s).0.virt
        (finish_dmalloc hhdm_offset pages result s).1
      ≡ record s { pma = pma_free_pages result.0 pages result.1 }
unfolding dmfree finish_dmalloc free_entry
finish_dmalloc-dmfree hhdm_offset pages result s h k = rw (h, not_null, itself, back) refl
  where
    not_null : (u64 (result.0 + hhdm_offset) == 0) ≡ false
    not_null = ground (arith, h, k)

    itself : (u64 (result.0 + hhdm_offset) == u64 (result.0 + hhdm_offset)) ≡ true
    itself = ground arith

    back : sub64 (u64 (result.0 + hhdm_offset)) hhdm_offset ≡ result.0
    back = omega (arith, k)

-- When `pma_alloc_pages` returns pages for `dmalloc`, and their address is mapped below 2^64,
-- `dmfree` of the virtual address that `dmalloc` returned leaves the registry as it was before,
-- and calls `pma_free_pages` for the pages that were allocated.
pub dmfree-dmalloc :
    (hhdm_offset size : ℕ) (s : Dmalloc)
    → ((pma_alloc_pages (u64 (size + 4095) / 4096) s.pma).0 == 0) ≡ false
    → (pma_alloc_pages (u64 (size + 4095) / 4096) s.pma).0 + hhdm_offset < 2 ^ 64
    → dmfree hhdm_offset (dmalloc hhdm_offset size s).0.virt (dmalloc hhdm_offset size s).1
      ≡ record s {
        pma =
            pma_free_pages
              (pma_alloc_pages (u64 (size + 4095) / 4096) s.pma).0
              (u64 (size + 4095) / 4096)
              (pma_alloc_pages (u64 (size + 4095) / 4096) s.pma).1;
      }
unfolding dmalloc
dmfree-dmalloc hhdm_offset size s h k =
    finish_dmalloc-dmfree hhdm_offset (u64 (size + 4095) / 4096)
      (pma_alloc_pages (u64 (size + 4095) / 4096) s.pma) s h k
