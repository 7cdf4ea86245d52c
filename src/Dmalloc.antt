-- ===== src/Dmalloc.antt =====
-- mem/dmalloc.c: memory for devices, whole pages with both of their addresses, and the registry of what was
-- allocated. The registry is a list; `hhdm_offset` is where physical memory is mapped.
pub mod Free
mod Tests
use cuore_os.Base.{ℕ, ◌+◌, ◌-◌, ◌/◌, Bool, List, [], ◌∷◌, u64, sub64, ◌==◌, if◌then◌else◌}
use cuore_os.Pma.Alloc.{Pma, pma_alloc_pages, pma_alloc_pages_low}
use cuore_os.Pma.Release.{pma_free_pages}

-- `DMARegistry`
pub record Dma : Type 0 where
  pub virt : ℕ
  pub pages : ℕ

-- `dmalloc_ret_t`
pub record DmallocRet : Type 0 where
  pub virt : ℕ
  pub phys : ℕ

pub record Dmalloc : Type 0 where
  pub registry : List Dma
  pub pma : Pma

module _ (hhdm_offset : ℕ) where
  -- `register_dma`, for a `malloc` that returns memory, which is not tested.
  abbrev pub register_dma : (virt pages : ℕ) → Dmalloc → Dmalloc
  register_dma virt pages s = record s {
    registry = (record { virt = virt; pages = pages }) ∷ s.registry;
  }

  -- What follows the call of the page allocator.
  unfoldable pub finish_dmalloc : (pages : ℕ) → ℕ × Pma → Dmalloc → DmallocRet × Dmalloc
  finish_dmalloc pages result s =
      let virt = u64 (result.0 + hhdm_offset) in
      let next = record s { pma = result.1 } in
      if result.0 == 0
      then (record { virt = 0; phys = 0 }, next)
      else (record { virt = virt; phys = result.0 }, register_dma virt pages next)

  unfoldable pub dmalloc : (size : ℕ) → Dmalloc → DmallocRet × Dmalloc
  unfolding finish_dmalloc
  dmalloc size s =
      let pages = u64 (size + 4095) / 4096 in finish_dmalloc pages (pma_alloc_pages pages s.pma) s

  unfoldable pub dmalloc32 : (size : ℕ) → Dmalloc → DmallocRet × Dmalloc
  unfolding finish_dmalloc
  dmalloc32 size s =
      let pages = u64 (size + 4095) / 4096 in
      finish_dmalloc pages (pma_alloc_pages_low pages s.pma) s

  -- The loop of `dmfree`: the registry without the first entry of the address, and the pages freed.
  unfoldable pub free_entry : (virt_addr : ℕ) → List Dma → Pma → List Dma × Pma
  free_entry virt_addr [] p = ([], p)
  free_entry virt_addr (e ∷ es) p =
      let rest = free_entry virt_addr es p in
      if e.virt == virt_addr
      then (es, pma_free_pages (sub64 e.virt hhdm_offset) e.pages p)
      else (e ∷ rest.0, rest.1)

  unfoldable pub dmfree : (virt_addr : ℕ) → Dmalloc → Dmalloc
  unfolding free_entry
  dmfree virt_addr s =
      let result = free_entry virt_addr s.registry s.pma in
      if virt_addr == 0 then s else record s { registry = result.0; pma = result.1 }
