-- ===== src/Lib.antt =====
-- A model of oxidized, an operating system kernel in Rust, in parts that can be checked one by one.
--
-- The parts, and how they interact:
-- * Memory.Frames (kernel/src/memory/allocator.rs, BootInfoFrameAllocator): which physical frames
--   are in use, by a bit for each page, over the boot loader's memory map.
-- * Memory.Manager (kernel/src/memory/mod.rs, MemoryManager): searches a run of free virtual pages
--   and maps it to frames that it takes from Memory.Frames.
-- * Memory.Heap (kernel/src/memory/allocator.rs, KernelAllocator): the kernel heap, which grows by
--   pages that it takes from Memory.Manager. Memory.Startup is the order in which the three are set
--   up, Memory.Kmalloc the heap as the frame buffer and the processors see
--   it, and Memory.Startup.Clients that view of the kernel's heap.
-- * Syscall (kernel/src/arch/arch_x86_64/syscall/mod.rs, kernel/src/errors/mod.rs): system calls by
--   number, in one table for each personality.
-- * Process (kernel/src/thread/process.rs): the process table, sorted by id.
-- * Devices (devices/src/lib.rs, devices/src/well_known.rs, and the devices of kernel/src/main.rs
--   and kernel/src/framebuffer/mod.rs): the device tree.
-- * Shared.Memcpy (kernel_shared/src/memory.rs): copying by words and then by bytes.
-- * Framebuffer (kernel/src/framebuffer/mod.rs): drawing on a surface by Shared.Memcpy, and the
--   copy of the surface to the screen; Framebuffer.Setup takes over the boot loader's buffer.
-- * Console (kernel/src/console/mod.rs): the font file, and text by the glyphs that it draws with
--   Framebuffer.
-- * Apic (kernel/src/arch/arch_x86_64/apic/mod.rs): the local APIC's registers and its commands to
--   other processors; Apic.Setup is how the boot processor makes its own reachable, with a page from Memory.Manager.
-- * Processors (kernel/src/arch/arch_x86_64/cpu/mod.rs and kernel_cpu_main, set_kernel_ready and
--   kernel_ready of kernel/src/main.rs): what the boot processor writes behind the start-up code for
--   each other processor (Processors.Trampoline), the commands that start it by Apic
--   (Processors.Signals), and the boot as a step relation in which all
--   processors interleave (Processors.Boot).
-- * Segments (kernel/src/arch/arch_x86_64/gdt/mod.rs, and PlatformContextState of
--   idt/contextswitch.rs beside it): the descriptor table of each processor, and the stacks that
--   interrupts run on.
-- * Context (kernel/src/arch/arch_x86_64/idt/contextswitch.rs): the assembler of the context switch,
--   as a list of instructions, with an interpreter (Context.Run).
-- * Boot (kernel/src/main.rs): early_init, which sets up the memory and takes over the frame buffer on
--   the heap that it has made; Devices.Enumerate lists the devices as kernel_main does.
-- * Acpi (kernel/src/arch/arch_x86_64/acpi/mod.rs): the ACPI tables, loaded once.
-- * Interrupts (kernel/src/arch/arch_x86_64/idt/mod.rs): exceptions, the table of software handlers
--   (Interrupts.Handlers), the timer, which acknowledges to Apic, and the system call interrupt,
--   which looks into Syscall.
-- * Locks (the statics of kernel/src): the spin locks that all of these take, as the processors
--   take them together. Locks.Code has what every processor calls (kernel/src/serial/mod.rs,
--   logging/mod.rs, console/mod.rs and memory/allocator.rs beside it), Locks.Startup and
--   Locks.Main the way from kernel_boot and ap_entry to kernel_cpu_main. A function is the list
--   of the locks that it takes and gives back, and what a run depends on is its argument;
--   Locks.Order, Locks.Sound, Locks.Nesting and Locks.Work are about the system of all.
-- * Build (kernel/build.rs): Build.Assembly puts the assembler files' output where cpu/mod.rs of
--   Processors includes the start-up code from; Build.Constants writes what kernel/src/main.rs includes.
-- Common holds names, lists and maps that these share. Definitions stand in the file of a part, and
-- have the names that the source has; lemmas and theorems stand in the modules below it, named for
-- what they are about, and runs on concrete input in the module Tests below it.
--
-- State and errors: a component's state is a record that its operations take and return. Outcome
-- (Common.Monad) tells a value from a panic and from a loop that has used up its fuel. `None` and
-- `Err` are values. Apic and Interrupts thread the machine's state through a small monad
-- (Apic.Run). Memory in Shared.Memcpy and Framebuffer is one function of addresses, so that
-- buffers may alias, and the theorems say which must not.
--
-- Crates (Crates.antt) that the kernel calls are parameters, with the documented behaviour that the
-- theorems use as fields: bitvec's bit array, x86_64's rounding to a page, its page tables and its
-- descriptor tables (Crates.Descriptors), and linked_list_allocator's heap, with an instance of each
-- in Crates.Concrete; the acpi crate, without laws, in Acpi; and the file system and nasm in
-- Build.Assembly.Host. The hardware under Apic is a
-- parameter without laws (Apic.Run.Bus). BTreeMap is a sorted association list (Common.TreeMap), and
-- binary_search_by_key on a sorted vector is a scan (Process.search).
--
-- Numbers: addresses and sizes are natural numbers, without an upper bound; where the source wraps
-- (process ids at 2^64, device ids at 2^128, the command register, the products that size the heap, and
-- the columns and rows of a rectangle at 2^64, the page table at the 32 bits that the start-up code
-- loads) the model wraps, a page plus a number goes through VirtAddr::new, and
-- where it may overflow with a panic on a small count (ticks, the screen's width and height) the
-- model panics. The greyscale byte of a colour, which the source computes in f32, is a parameter.
--
-- Loops on fuel: allocate_frame runs on two rounds and never uses more
-- (Memory.Frames.Allocate.allocate_frame_total); the search for pages takes one round for each page
-- up to where all is free and one for each page asked for; a device's id takes one round more than
-- there are devices; a device's path one more than it has ancestors; creating a process takes one,
-- or never ends; waiting for a delivery takes one more than the hardware polls pending.
--
-- The boot of the processors is a set of runs: a processor's step may be taken at any time, what is in
-- memory when it takes its step is what it reads, and a panic is the end of its steps. The start-up
-- code itself (cpu/trampoline.nasm) is its loads of the three values. The interpreter of Context has
-- 64-bit words on the stack and no other memory.
--
-- Not modelled: dump_assembly of cpu/mod.rs, which nothing calls, the formatting of log lines,
-- the stubs of the threads, the servers, and the disk image and the emulator (build.rs,
-- src/main.rs): they call crates or hardware and keep no state of their own. Of the locks, those
-- that are only taken alone after the start (the process table's) are left out, and so is the
-- wait for a lazy_static that another processor sets up: the boot processor comes to each of
-- them first. A lock for reading is one that a processor has alone. The loops in which a processor waits
-- for another's bit, or for the kernel's signal, are in Locks as many rounds as they are given;
-- Processors.Boot has them as steps that wait for the bit or the signal.
pub mod Common
pub mod Crates
pub mod Memory
pub mod Syscall
pub mod Process
pub mod Devices
pub mod Shared
pub mod Framebuffer
pub mod Apic
pub mod Interrupts
pub mod Console
pub mod Processors
pub mod Segments
pub mod Context
pub mod Boot
pub mod Acpi
pub mod Locks
pub mod Build
