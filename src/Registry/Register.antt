-- ===== src/Registry/Register.antt =====
-- `device_register` of devices/registry.c.
use cuore_os.Base.{
  ℕ, ◌+◌, ◌^◌, ◌<◌, ◌≡◌, refl, false, some, [], ◌∷◌, ◌++◌, leb, arith, All-append, All-map, length,
  ok, u32,
}
use cuore_os.Registry.{Entry, Registry, DeviceType, registry_size, device_find, device_register}
use cuore_os.Registry.Find.{
  IsValid, device_find-present, insert_entry-append, IsSorted-last, get_elem?-last,
}

abbrev pub entry_for : DeviceType → ℕ → Registry → Entry
entry_for type dev_ptr r = record { id = r.next_device_id; type = type; dev_ptr = dev_ptr }

module _ (type : DeviceType) (dev_ptr : ℕ) (r : Registry) (valid : IsValid r) where
  registered : Registry
  registered = record {
    entries = r.entries ++ entry_for type dev_ptr r ∷ [];
    next_device_id = r.next_device_id + 1;
  }

  registered-IsValid : r.next_device_id + 2 < 2 ^ 32 → IsValid registered
  unfolding registered
  registered-IsValid w = record {
    in_order = IsSorted-last (entry_for type dev_ptr r) r.entries valid.below_next valid.in_order;
    below_next =
        All-append (λ e. e.id < r.next_device_id + 1) r.entries (entry_for type dev_ptr r ∷ [])
          (All-map (λ e. e.id < r.next_device_id) (λ e. e.id < r.next_device_id + 1) r.entries
            (λ e h. omega (arith, h)) valid.below_next)
          (omega arith, tt);
    no_wrap = omega (arith, w);
  }

  -- On a valid table with fewer than 512 entries and an id that stays two below 2^32,
  -- `device_register` returns the next id, appends the entry and leaves a valid table, and
  -- `device_find` of that id finds the device.
  pub device_register-device_find :
      length r.entries < registry_size
      → r.next_device_id + 2 < 2 ^ 32
      → (r' : Registry) × (device_register type dev_ptr r ≡ ok (r', r.next_device_id))
        × IsValid r'
        × (r'.entries ≡ r.entries ++ entry_for type dev_ptr r ∷ [])
        × (device_find r.next_device_id r' ≡ some dev_ptr)
  unfolding device_register registered
  device_register-device_find room w = (
    registered,
    rw
        (
          has_room,
          insert_entry-append (entry_for type dev_ptr r) r.entries valid.below_next,
          no_wrap,
        )
        refl,
    registered-IsValid w,
    refl,
    device_find-present registered (length r.entries) (entry_for type dev_ptr r)
        (registered-IsValid w) (get_elem?-last (entry_for type dev_ptr r) r.entries),
  )
    where
      has_room : leb registry_size (length r.entries) ≡ false
      has_room = ground (arith, room)

      no_wrap : u32 (r.next_device_id + 1) ≡ r.next_device_id + 1
      no_wrap = omega (arith, w)
