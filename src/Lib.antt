-- ===== src/Lib.antt =====
-- The NaviOS kernel (kernel/src): the frame allocator, the page tables, the heap, the scheduler, the
-- keyboard with the characters of its keys, the virtual file system with its RAM file system, and the
-- terminal: the language of its escape sequences, its screen, and its shell; and the tables of the
-- firmware, with the registers and descriptors of the hardware.
--
-- The parts and their files:
-- - Base: lists, bytes and bits over the native numbers, and the outcome of code that may panic. Its
--   child Masks is about the masks of page table entries.
-- - Memory/Address: the address arithmetic of kernel/src/memory/mod.rs, with the wrap-around of 64
--   bits. Memory/Frames: `RegionAllocator` of kernel/src/memory/frame_allocator.rs; its bitmap is a
--   list of bytes, an index out of range is a panic, and the loops over rows and columns are
--   structural. Its children prove the laws of the bitmap, of marking, of the search and of
--   allocation. Setup is its `new`, over a memory map, and Region and Fresh prove which frames are
--   free behind it.
-- - Memory/Heap: `LinkedListAllocator` of kernel/src/memory/allocator.rs. A free node is its address
--   and its size, the linked list is a list. `find_free_node` runs on rounds, each of which extends
--   the heap once: one is enough where a node can hold the block. Blocks, Search and Alloc prove the
--   laws of allocation, Extend is about the extension.
-- - Memory/Paging: kernel/src/memory/paging.rs. A table is the physical address of its frame, and the
--   memory is a function from an address and an index to an entry, so that tables may share a frame
--   and a store to one is seen in all; the current root table is an argument. Tree says what a tree of
--   tables is and where its entries lead, Processor is the translation of the processor, with huge
--   pages, from the layout of an entry. Entries, Address, Leaf, Grow and NewTable hold the laws of
--   one level, MapTo, Mapped and Free those of the operations.
-- - Memory/Startup: the identity maps, `init_heap` and `init` of kernel/src/memory/mod.rs. The loop
--   over the pages runs on fuel, one unit for each page and one more for the end. Pages, NewPage,
--   Range and HeapStart prove that this is enough and what it maps.
-- - Threading: `Process` and `Scheduler` of kernel/src/threading/mod.rs and the saved registers of
--   kernel/src/arch/x86_64/threading/mod.rs. The linked list is a list, the raw pointer to the
--   current process is an index. The loop of `switch` runs on fuel, one unit for each round, and
--   `none` is a loop that has not ended; as many rounds as there are processes are enough whenever
--   some process can run. Threading/Loop and Threading/Switch prove this, Threading/Kill is about
--   pids, `pkill` and `pkillall`.
-- - Vfs: errors, inodes and descriptors of kernel/src/drivers/vfs/mod.rs. Vfs/Inode and Vfs/RamFs:
--   kernel/src/drivers/vfs/ramfs.rs with the `reslove_path` of the trait `FS`. Vfs/Mounts: `VFS`.
--   An inode's address is the list of the names that lead to it. `ok`, `err` and `panic` are the
--   three ways a call ends. Vfs/Resolve, Vfs/Content, Vfs/Files, Vfs/Entries, Vfs/Drives,
--   Vfs/Open and Vfs/Slash hold the proofs.
-- - Drivers/Keyboard: kernel/src/drivers/keyboard.rs. The statics are the state, the key that is
--   reported to the terminal is returned. Codes and Set1 hold the key codes and the scan codes, Scan
--   and Reach the proofs on bytes, Held and Repeat those on the pressed keys. The vector of
--   `heapless` and the `try_from` of `int_enum` are a parameter with their documented laws, and
--   Table has functions that obey them.
-- - Drivers/Keymapper: kernel/src/drivers/keymapper.rs. Defaults has the lines of `DEFAULT_MAPPING`,
--   Lookup compares the table that they make with the list of them.
-- - Terminal/Navitts: the lexer and the parser of kernel/src/terminal/navitts.rs. Both run on fuel,
--   whose end is the outcome `running`. Fuel has the bound for the lexer, one more than the number
--   of characters; Text is about slices. Escapes is `parse_str` with the colours of an escape, and
--   its fuel is one unit for each character and one more.
-- - Terminal/Framebuffer: kernel/src/terminal/framebuffer.rs. The buffer and the viewport are lists of
--   bytes, a slice out of range and a subtraction below 0 are panics, and the rasters of the font are
--   a parameter. Keys has what is called with characters and keys. Screen, Draw, Scroll, Put, Clear and
--   Pages hold the proofs, for terminals whose bytes are whole lines of text.
-- - Terminal/Shell: the commands of kernel/src/terminal/mod.rs. What a command prints, clears or
--   restarts is a list of events, what it reads is an argument, and the conversions of the standard
--   library's strings are a parameter. Files has the commands on files, Dispatch has
--   `process_command`. Words is about the words of a line, Moves and its children about the current
--   directory.
-- - Arch: kernel/src/arch/x86_64. Arch/Acpi is acpi.rs over a memory of bytes; the search in the MADT
--   runs on fuel, two units more than there are records before the one that is found, and Records
--   proves what it finds. Arch/Apic is interrupts/apic.rs, where what is written to the hardware is a
--   list, and Arch/Gdt is gdt.rs.
--
-- How they interact: a process takes its stack and page table from the allocators, as arguments of
-- `create`, and `free` gives them back with the operations of Memory/Heap and Memory/Paging. `VFS` hands each
-- call to the file system of the path's drive.
--
-- The heap asks a `PageMapper` for pages, which stands for the frame allocator and the page tables.
-- The page tables take their frames from the frame allocator, and the start of the kernel maps the
-- first pages of the heap with both. The shell calls the scheduler and `VFS`. The screen parses what
-- it writes with the language of the escape sequences, and maps its keys with the keymapper. The
-- interrupt controllers are found in the tables of the firmware, whose pages are identity mapped.
--
-- Not modelled: the ELF loader; ports, and `enable_acpi`, the serial line and the power commands,
-- which use them; the interrupt table, its handlers and the assembly, with the read of cr3 and the
-- flush of the translation cache; the requests to the bootloader; the loops of `readln` and `shell`,
-- which wait for an interrupt; the text of `help`.
-- A size is a natural number where the code only compares and adds lengths of buffers.
pub mod Arch
pub mod Base
pub mod Drivers
pub mod Memory
pub mod Terminal
pub mod Threading
pub mod Vfs
