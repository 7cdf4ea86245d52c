-- ===== src/Registry.antt =====
-- devices/registry.c and devices/registry.h: the table of devices, in the order of their ids. A
-- device is its address.
pub mod Find
pub mod Register
mod Tests
use cuore_os.Base.{
  ℕ, zero, suc, ◌+◌, ◌-◌, ◌/◌, Bool, true, false, ◌&&◌, Option, none, some, List, [], ◌∷◌, u32, ltb,
  leb, ◌==◌, if◌then◌else◌, Run, ok, ◌>>=◌, ◌>>◌, panic_if, length, get_elem?,
}

pub data DeviceType : Type 0 where
  char_dev : DeviceType
  disk_dev : DeviceType
  usb_dev : DeviceType
  net_dev : DeviceType
  audio_dev : DeviceType
  power_dev : DeviceType
  extmem_dev : DeviceType
  usb_bus_dev : DeviceType

-- The number of a type in the enumeration.
unfoldable pub code_of : DeviceType → ℕ
code_of char_dev = 0
code_of disk_dev = 1
code_of usb_dev = 2
code_of net_dev = 3
code_of audio_dev = 4
code_of power_dev = 5
code_of extmem_dev = 6
code_of usb_bus_dev = 7

pub record Entry : Type 0 where
  pub id : ℕ
  pub type : DeviceType
  pub dev_ptr : ℕ

abbrev pub registry_size : ℕ
registry_size = 512

-- `registry_count` is the length of the list.
pub record Registry : Type 0 where
  pub entries : List Entry
  pub next_device_id : ℕ

-- The binary search, on fuel; `above` is `high + 1`, as `high` may be -1.
unfoldable pub find_between : (fuel : ℕ) → ℕ → List Entry → (low above : ℕ) → Option ℕ
find_between zero id es low above = none
find_between (suc fuel) id es low above =
    let mid = low + (above - 1 - low) / 2 in
    let right = find_between fuel id es (mid + 1) above in
    let left = find_between fuel id es low mid in
    if ltb low above
    then elim (get_elem? es mid) [
      | none ↦ none
      | some e ↦ if e.id == id then some e.dev_ptr else if ltb e.id id then right else left
    ]
    else none

unfoldable pub device_find : ℕ → Registry → Option ℕ
unfolding find_between
device_find id r = find_between (length r.entries) id r.entries 0 (length r.entries)

unfoldable pub find_type : DeviceType → List Entry → Option ℕ
unfolding code_of
find_type type [] = none
find_type type (e ∷ es) =
    if code_of e.type == code_of type then some e.dev_ptr else find_type type es

unfoldable pub device_find_first : DeviceType → Registry → Option ℕ
unfolding find_type
device_find_first type r = find_type type r.entries

-- Whether the loop of `device_register` shifts all of the entries.
unfoldable pub all_above : ℕ → List Entry → Bool
all_above id [] = true
all_above id (e ∷ es) = ltb id e.id && all_above id es

unfoldable pub insert_entry : Entry → List Entry → List Entry
unfolding all_above
insert_entry new [] = new ∷ []
insert_entry new (e ∷ es) =
    let rest = insert_entry new es in if all_above new.id (e ∷ es) then new ∷ e ∷ es else e ∷ rest

unfoldable pub device_register : DeviceType → ℕ → Registry → Run (Registry × ℕ)
unfolding insert_entry
device_register type dev_ptr r = do
  panic_if (leb registry_size (length r.entries))
  let id = r.next_device_id in
      ok (
        record {
          entries = insert_entry (record { id = id; type = type; dev_ptr = dev_ptr }) r.entries;
          next_device_id = u32 (r.next_device_id + 1);
        },
        id,
      )
