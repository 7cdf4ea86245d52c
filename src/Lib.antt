-- ===== src/Lib.antt =====
-- A model of the core of CuoreOS, a hobby x86-64 kernel in C, with the theorems that make it
-- correct. Paths below are from the repository's root.
--
-- Parts and files. A file states the C file that it models in its first line.
-- * Base and its children: tests on numbers, lists, machine words with their wrap, bit masks as
--   arithmetic, calls that may panic, and sorted lists as the abstract view of a search tree.
-- * Avl (src/datatype/avl.c): the intrusive tree as a data type whose payload is the structure
--   around the node. `update_node`, the rotations, `rebalance`, `unlink_leftmost`, `insert`,
--   `delete`, `find`, `get_min` and `get_max` are the functions of the file. The caller's callbacks
--   are a record; Avl/Keys has the two laws that a caller owes. Avl/Shape lists what `rebalance` can
--   return, Avl/Balance has the heights, Avl/Refine the sorted list, Avl/Updated the augmentation.
-- * Vmm (src/mem/vmm.c): virtual pages over that tree. `vmm_node_update` and `vmm_node_cmp` are the
--   callbacks, `find_gap`, `alloc_aligned` and `free_pages` the operations; the state record is the
--   file's static variables. Vmm/Regions and Vmm/Summary say what the augmented fields mean,
--   Vmm/Gap treats the search, Vmm/Alloc and Vmm/Free the operations on the state.
-- * Heap (src/mem/heap.c): the list of block headers is a list in the order of the links. Heap holds
--   the state and `malloc`, Heap/Free `free`, Heap/Realloc `realloc` and `heap_init`. Heap/Layout says
--   how blocks lie in memory, Heap/Used what is kept, Heap/Search and Heap/Malloc treat allocation,
--   Heap/Merge the merging of free neighbours. `malloc_block` runs with two tries: the pages that a growth adds
--   hold the request. `free` and `realloc` have no result for a pointer behind no listed header.
-- * Cmm (src/mem/cmm.c): the map of physical memory as a list of regions. Cmm/Insert treats
--   `cmm_insert_region`.
-- * Logbuf (src/logbuf.c) and Uart (src/drivers/UART16550.c): two rings of characters, with arrays as
--   functions; the lemmas on rings stand in Base/Ring. Logbuf/Queue and Uart/Queue have the queues
--   that they stand for. `logbuf_flush` runs on fuel as large as the ring, which every part of it fits.
-- * Registry (src/devices/registry.c): the table of devices as a list. Registry/Find has the binary
--   search, on fuel, for which the number of entries is enough; Registry/Register has registration.
-- * Clock (src/time.c): the seconds of a date; Clock/Calendar compares its days with the calendar.
-- * Rtc (src/drivers/RTC.c): the decoding of the registers of the clock.
-- * Stdio (src/stdio.c): formatting over an output of any kind (Stdio/Format has the values, Stdio/Spec
--   the directives, Stdio/Print the conversions and the loop), of which the bounded buffer of the
--   source and an unbounded text are two; Stdio/Homomorphism and Stdio/Refine compare them,
--   and Stdio/Numerals and Stdio/Fields compare the numbers with numerals in a field. A format that ends
--   inside a directive, which the source reads beyond, and a width that overflows have no result. Stdio/Parse
--   has strtoull, ptrthex and readline. The loop runs on as much fuel as the format has bytes, which
--   Stdio/Fuel shows to be enough; 64 turns are enough for the digits of a number of 64 bits.
-- * Pma (src/mem/pma.c): the allocator of physical pages (Pma/Lists has the free lists and the bitmap,
--   Pma/Alloc, Pma/Release and Pma/Init the operations). Pma/Sound says when lists and bitmap fit
--   together; Pma/Change, Pma/Place and Pma/Allocates follow an allocation.
-- * Memory (src/mem/mem.h): the routines on memory and strings, with memory as a function.
-- * Cmdline (src/cmdline.c, src/math/fnv1a.c): the command line and its lookup by hash; the parser runs
--   on as much fuel as there are characters, which Cmdline/Parse shows to be enough.
-- * Scheduler (src/scheduler.c): the tasks as a function from their addresses. Scheduler/Ring says when
--   they form a ring; Scheduler/Tick, Scheduler/Enroll and Scheduler/Lookup treat the operations.
-- * Dmalloc (src/mem/dmalloc.c): the registry of memory for devices, over Pma.
-- * Disk (src/disk/partition.c, mbr.c and gpt.c): the partitions, with buffers as arrays of bytes, the
--   driver as a function that reads and a list of what is written, and the CRC as a parameter. An entry
--   keeps what `malloc` left in the fields that the source does not set; where the list of partitions then
--   does not end in NULL, the operations have no result.
-- * Archive (src/fs/ramfs.c), Symtable (src/symtable.c), Bitmap (src/datatype/bitmap.c) and Random
--   (src/rand/swrand.c): lookups in tables of the build, a bitmap, and random numbers, whose rejection
--   loop runs on fuel that the caller gives.
-- * Paging (src/mem/paging.c), over the allocator of Pma, and Keyboard (src/drivers/PS2.c): the walks over
--   the tables of pages, and the decoding of scan codes.
-- * Acpi (src/firmware/acpi/acpi.c, src/firmware/acpi/madt.c,
--   src/firmware/acpi/mcfg.c) and Disk.Ata (src/disk/ata.c): the checksum of a table, the records of the
--   MADT, the addresses of configuration spaces, and the identification of a disk. The walk over the MADT has as
--   much fuel as the table has bytes, and each turn moves by a byte at least.
--
-- Bounds. Addresses and counts are natural numbers with the wrap at 2^64 written out at each sum and
-- product; the theorems on the allocator assume that the end of the pool, the alignment and the span
-- of the pages together stay within 2^64. The pool end of `vmm_init` for four paging levels leaves
-- room for that; the one for five levels lies 2 MiB below 2^64, so only smaller requests fall under it.
-- The theorems on the heap assume that blocks end 64 bytes below 2^64 at least.
-- Recursion on trees and lists is structural, so no fuel is used there.
--
-- Not modelled: the memory in which the nodes lie (a node is never shared between trees),
-- interrupts and the assembly files, the drivers other than those named, and the parts of the kernel named
-- nowhere above, such as the terminal, the ELF loader, the other firmware tables and the PCI
-- bus.
mod Base
pub mod Acpi
pub mod Archive
pub mod Avl
pub mod Bitmap
pub mod Clock
pub mod Cmm
pub mod Cmdline
pub mod Disk
pub mod Dmalloc
pub mod Heap
pub mod Keyboard
pub mod Logbuf
pub mod Random
pub mod Registry
pub mod Rtc
pub mod Memory
pub mod Paging
pub mod Pma
pub mod Scheduler
pub mod Stdio
pub mod Symtable
pub mod Uart
pub mod Vmm
