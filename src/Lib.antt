-- ===== src/Lib.antt =====
-- guavaOS: the core of a 32-bit x86 kernel in C.
--
-- The kernel starts with its terminal, its segment table and a heap of 4096-byte blocks at a fixed
-- address. It mounts the one disk, a FAT16 volume that is read a sector at a time, behind a table of
-- filesystems and file descriptors; it fills the interrupt table, maps pages, loads a program from
-- the volume and runs it. System calls and the keyboard's interrupt come back into the kernel.
--
-- Files of the development, and the code that each is about:
--   Prelude    numbers, lists, options, tests on numbers and bit operations that the parts share
--   Status     src/status.h: the codes, as the negative integers that functions return
--   Memory     src/memory/memory.c: memset, memcmp, memcpy; Memory/Flat has memory by address
--   Heap       src/memory/heap/heap.c: heap_create, heap_malloc, heap_free and their helpers
--   Kheap      src/memory/heap/kheap.c: kheap_init, kmalloc, kzalloc, kfree; Kheap/Pages has the heap
--              as the allocator of pages that Paging/Allocator asks for
--   CString    src/string/string.c: every function of it
--   PathParser src/fs/pparser.c: pathparser_parse, pathparser_free
--   Paging     src/memory/paging/paging.c: paging_set, paging_get, paging_map, paging_map_range,
--              paging_map_to, paging_align_address; paging_new_4gb, paging_free_4gb and
--              paging_switch in Paging/Creation
--   Disk       disk_read_sector of src/disk/disk.c over the ports of a controller
--   Streamer   src/disk/streamer.c and the block read of src/disk/disk.c
--   Fat16      src/fs/fat/fat16.c: counting and clusters in Fat16, directory items and paths in
--              Fat16/Items, fat16_resolve, _open, _close, _stat, _read and _seek in Fat16/Driver
--   File       src/fs/file.c: fopen, fread, fseek, fstat, fclose and the two tables, over any
--              filesystem with the operations of `struct filesystem`; Fat16 gives such a filesystem
--   Keyboard   src/keyboard/keyboard.c, its list of keyboards in Keyboard/Drivers, and
--              src/keyboard/ps2.c in Keyboard/Scancode and Keyboard/Drivers
--   Terminal   the terminal of src/kernel.c
--   Gdt        src/gdt/gdt.c
--   Task       src/task/task.c: task_get_next, task_list_remove, task_init, task_new; the rest, which
--              works on page tables and memory, in Task/Machine; the two commands of
--              src/isr80h/misc.c and src/isr80h/io.c in Task/Machine and Task/Commands
--   Process    src/task/process.c: the slots, and loading a program
--   Idt        src/idt/idt.c: idt_init, callbacks, commands and the two handlers
--   Boot       kernel_main of src/kernel.c: the order in which the parts are started
-- A definition has the name of its C function without the prefix that names the part, where the
-- module does that; a loop or a stretch of a function that has a definition of its own is named
-- for what it does, and so are the child modules that hold the proofs.
--
-- How C is modelled. Numbers are natural numbers, with the wrap-around written out where the code
-- can reach it; an `int` that can be negative is a signed integer or its 32-bit pattern. An array
-- is a list, and a read or write outside of it, or through a null pointer where that is not tested,
-- gives `none`, as does a panic. The overflow of a position on the disk or of an index of the
-- keyboard buffer, and a read of the disk at a negative position, give `none` too. State is passed
-- and returned. Pointers to objects that nothing else shares are the objects. The parser, the files
-- and the FAT driver see the heap as the number of blocks that are left, so that running out of
-- memory and leaks show; the heap itself is modelled block by block in Heap.
--
-- Fuel. The parser runs on one round more than the path is long. Reads of the disk and of a file
-- run on one round more than there are bytes, and each round takes at least one of them. Counting a
-- directory has 2 ^ 26 rounds, the number of items below the largest position of a stream. The wait
-- for the disk has a fuel that is a parameter: any that is above the number of polls the controller
-- takes is enough.
--
-- Memory. Page tables are words, by their addresses, which the kernel's own directory maps to
-- themselves; other memory is bytes, which are accessed through the directory that is loaded. The two
-- are kept apart. Loading a program works on both, on the heap and on the files.
--
-- Not modelled: assembly (booting, entry, port instructions, page and segment registers, the task
-- state segment), where what C code hands over is a result or a field of the state; and what the
-- devices answer, which is a parameter with hypotheses on it.
pub mod Prelude
pub mod Process
pub mod Boot
pub mod Status
pub mod Memory
pub mod Heap
pub mod Kheap
pub mod CString
pub mod PathParser
pub mod Paging
pub mod Disk
pub mod Streamer
pub mod Fat16
pub mod Keyboard
pub mod File
pub mod Gdt
pub mod Terminal
pub mod Idt
pub mod Task
