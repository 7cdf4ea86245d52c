-- ===== src/Registry/Tests.antt =====
-- Tests of the device registry, and its theorems at a small table.
use cuore_os.Base.{◌≡◌, refl, none, some, [], ◌∷◌, ◌++◌, arith, ok}
use cuore_os.Registry.{
  Registry, char_dev, disk_dev, net_dev, device_find, device_find_first, find_between, find_type,
  code_of, device_register,
}
use cuore_os.Registry.Find.{IsValid, device_find-present}
use cuore_os.Registry.Register.{entry_for, device_register-device_find}

abbrev two_devices : Registry
two_devices = record {
  entries =
      (record { id = 1; type = char_dev; dev_ptr = 0x1000 })
      ∷ (record { id = 2; type = disk_dev; dev_ptr = 0x2000 })
      ∷ [];
  next_device_id = 3;
}

lookups :
    (device_find 2 two_devices ≡ some 0x2000)
    × (device_find 3 two_devices ≡ none)
    × (device_find_first disk_dev two_devices ≡ some 0x2000)
unfolding device_find find_between device_find_first find_type code_of
lookups = (refl, refl, refl)

two_devices-IsValid : IsValid two_devices
two_devices-IsValid = record {
  in_order = ((omega arith, tt), (tt, tt));
  below_next = (omega arith, (omega arith, tt));
  no_wrap = omega arith;
}

device_find-present_example : device_find 2 two_devices ≡ some 0x2000
device_find-present_example =
    device_find-present two_devices 1 (record { id = 2; type = disk_dev; dev_ptr = 0x2000 })
      two_devices-IsValid refl

device_register-device_find_example :
    (r' : Registry) × (device_register net_dev 0x3000 two_devices ≡ ok (r', 3))
    × IsValid r'
    × (r'.entries ≡ two_devices.entries ++ entry_for net_dev 0x3000 two_devices ∷ [])
    × (device_find 3 r' ≡ some 0x3000)
device_register-device_find_example =
    device_register-device_find net_dev 0x3000 two_devices two_devices-IsValid (omega arith)
      (omega arith)
