-- ===== src/Lib.antt =====
-- HrafnOS: a model of the kernel's core and of its shell, with the theorems that make them correct.
--
-- The kernel (kernel/) manages memory, tasks, files and the screen; a user program enters it by
-- interrupt. The physical frame allocator hands out 4 KiB frames; the page tables map them into the
-- address spaces of the kernel and of each program, whose image the ELF loader puts there; the heap, an
-- arena of its own, gives memory to the scheduler's tasks; the scheduler turns a ring of tasks; the
-- file system munin keeps inodes and blocks in RAM and a copy on disk; file descriptors of the current
-- task lead to munin's inodes; the keyboard feeds a ring that programs read; their output goes to a terminal grid in a
-- window. The shell huginn.cpp resolves paths, keeps a history and splits command lines.
--
-- Which file models what, with the theorems in the modules below it:
--   Bitmap        the bit arrays of kernel/pmm.cpp and kernel/munin.cpp
--   Pmm           kernel/pmm.cpp: mark_used, mark_free, pmm_init, pmm_alloc_frame, pmm_free_frame
--   Memory        loads and stores of bytes and words, for the components that work on raw memory
--   Vmm           kernel/vmm.cpp; Vmm/Tree has the shape of the tables, Vmm/Walk the processor's view
--   Elf           kernel/elf.cpp
--   Heap          kernel/heap.cpp: kmalloc, coalesce, kfree; Heap/Blocks is the abstract list of blocks
--   Sched         kernel/sched.cpp but exec_current; Sched/Types has kernel/sched.hpp
--   Kbd           kernel/kbd.cpp; Kbd/Keys looks keys up by their characters
--   Munin/Store   kernel/munin.cpp: the allocators, block_for, free_inode_blocks
--   Munin/File    munin_write, munin_read, munin_write_inode, munin_read_inode, munin_truncate
--   Munin/Dir     dir_lookup, add_dirent, munin_init, munin_create, munin_dirent
--   Munin/Path    resolve_n, munin_create_path, munin_unlink
--   Munin/Disk    munin_flush and munin_mount over the interface Device of vblk_read and vblk_write
--   Vfs           kernel/vfs.cpp
--   Ramdisk       kernel/ramdisk.cpp
--   Console       kernel/console.cpp, with the drawing calls that it makes
--   Gfx           kernel/gfx.cpp; Gfx/Art has the arrow, text and the back buffer, Gfx/Width the
--                 bounds of the ints in gfx_line
--   Fb            kernel/fb.cpp
--   Term, Window, Mouse   kernel/term.cpp, kernel/window.cpp, kernel/mouse.cpp without the drawing
--   Huginn        huginn.cpp: resolve_path, hist_push, the split into words; Huginn/Names has
--                 paths as stacks of names, Huginn/Edit has read_line
--   Prelude, Words   shared names, list lemmas and machine words
--   Tests         runs at concrete inputs
--
-- Static variables are the fields of a component's record, and a function takes the record and returns
-- the new one. Machine integers are natural numbers with their wrap-around written out where a sum or
-- difference can leave the type. In Gfx, Window and Sched a C++ int is an integer whose sums,
-- differences, products and casts Prelude/Int cuts to 32 bits by wrap; a theorem that holds only
-- without overflow asks for it. The mouse adds a byte to a position on the screen, and Console counts
-- cells, far from the bounds. Where the source writes or reads beside an array without a test, the
-- model gives none or takes what lies there as an argument (resolve_path, the scancode tables).
-- Pointers are numbers, 0 is null, and a result of -1 is none, false or, as an int, itself. Calls of
-- one function that the model leaves to another part, such as freeing memory in the scheduler, are a
-- list of effects.
--
-- Fuel: a loop over a list in memory takes a number of rounds. For the heap and the scheduler one round
-- more than there are blocks or other tasks is enough; for the boot tags one more than there are tags,
-- for the memory map one for each byte of the tag, for paths one for each character and one more. The
-- chunk loops of Munin/File move at least a byte each round, and have one round more than they can use.
-- A drawn line takes one round more than there are columns and rows between its ends, and
-- `read_line` one for each byte or empty read before the newline, and one more.
--
-- Not modelled: exec_current, system call dispatch, the built-in commands of the shell, the glyphs of
-- kernel/font.cpp, devices and boot code.

pub mod Prelude
pub mod Words
pub mod Bitmap
pub mod Pmm
pub mod Kbd
pub mod Vmm
pub mod Elf
pub mod Heap
pub mod Sched
pub mod Munin
pub mod Vfs
pub mod Ramdisk
pub mod Term
pub mod Console
pub mod Fb
pub mod Gfx
pub mod Window
pub mod Memory
pub mod Mouse
pub mod Huginn
pub mod Tests
