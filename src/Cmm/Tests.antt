-- ===== src/Cmm/Tests.antt =====
-- Tests of the memory map, and its theorem at a map of two regions.
use cuore_os.Base.{◌≡◌, refl, true, some, [], ◌∷◌, arith, ok, length, ◌≤◌}
use cuore_os.Cmm.{
  Cmm, usable, reserved, framebuffer, insert_region, insert_from, pieces, push_front,
  ensure_capacity, cmm_end,
}
use cuore_os.Cmm.Insert.{type_at, insert_region-type_at}

abbrev two_regions : Cmm
two_regions = record {
  internal_map =
      (record { id = 1; base = 0; extent = 0x1000; type = usable })
      ∷ (record { id = 2; base = 0x1000; extent = 0x3000; type = reserved })
      ∷ [];
  internal_capacity = 4;
  next_id = 3;
  is_heap_backed = true;
  max_phys_addr = 0x4000;
  max_ram_addr = 0x1000;
}

-- A target inside the first region cuts it into three.
cut_in_three :
    insert_region 0x200 0x100 framebuffer two_regions
    ≡ ok (record two_regions {
      internal_map =
          (record { id = 3; base = 0; extent = 0x200; type = usable })
          ∷ (record { id = 4; base = 0x200; extent = 0x100; type = framebuffer })
          ∷ (record { id = 5; base = 0x300; extent = 0xD00; type = usable })
          ∷ (record { id = 2; base = 0x1000; extent = 0x3000; type = reserved })
          ∷ [];
      next_id = 6;
    })
unfolding insert_region insert_from pieces push_front ensure_capacity cmm_end
cut_in_three = refl

-- A target that covers the first region and ends in the second: the piece in the second region
-- begins at the target's base, so it overlaps the first.
overlapping_pieces :
    insert_region 0 0x2000 framebuffer two_regions
    ≡ ok (record two_regions {
      internal_map =
          (record { id = 1; base = 0; extent = 0x1000; type = framebuffer })
          ∷ (record { id = 3; base = 0; extent = 0x2000; type = framebuffer })
          ∷ (record { id = 4; base = 0x2000; extent = 0x2000; type = reserved })
          ∷ [];
      next_id = 5;
    })
unfolding insert_region insert_from pieces push_front ensure_capacity cmm_end
overlapping_pieces = refl

insert_region-type_at_example :
    (s' : Cmm) × (insert_region 0x200 0x100 framebuffer two_regions ≡ ok s')
    × (length s'.internal_map ≤ s'.internal_capacity)
    × (type_at 0x280 s'.internal_map ≡ some framebuffer)
insert_region-type_at_example =
    insert_region-type_at 0x200 0x100 framebuffer two_regions 0x280 usable refl (omega arith)
      (omega arith, (omega arith, tt), (omega arith, tt, tt)) (omega arith) (omega arith) refl
