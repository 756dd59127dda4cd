-- ===== src/Lib.antt =====
-- smor is a small x86-64 kernel in C. This library models its core, file by file, and proves
-- what the parts promise. Paths are from the repository's root.
--
-- Memory: `src/vm_page.c` keeps a database of physical pages, with a free list threaded through
-- the page descriptors (PageDb: FreeList, Trace, Reserve, Address and Runs are the operations,
-- Init and Setup the start, Contents the words of the pages). `src/vm_cache.c` finds the pages
-- of an object by offset, in hash chains (VmCache), and keeps the pages of an object in an
-- intrusive list; `src/slab.c` keeps its slabs in lists of the same kind (Dlist), and cuts each
-- slab into equal chunks (Slab). `src/kernel.c` hands out the memory behind the kernel image
-- until the page database exists (Kernel). `src/slab.c` and `src/kmalloc.c` keep lists of
-- slabs, each with an owner that supplies its slabs (SlabList: Valid says what well-formed
-- lists are, Alloc and Free what one operation does, Kmalloc the start, Held and Trace which
-- chunks are held along any run of the kernel's allocator). Threads: `src/thread.c`,
-- `src/thread.h`, `src/list.h`, `src/cpu.h` and `src/spinlock.h` keep the threads, the run
-- queue of each processor and its lock (Thread); `src/sched.c` chooses the thread that runs
-- next (Sched); `src/semaphore.c` and `src/cond.c` let threads wait for one another (Sync).
-- `src/kbd_8042.c` passes scan codes from an interrupt to a reader (Kbd), `src/vsprintf.c`
-- formats text (Printf), and `src/console.c` queues messages (Console, with the order of the
-- messages in Queue). `src/string.c` compares and copies strings (Strings), and `src/kterm.c`
-- edits a line of text and runs the command that it names (Kterm). `src/console.c` passes
-- characters under a lock (Screen) to the screen of pixels of `src/fb_cons.c` (FbCons);
-- `src/vga_cons.c` is a text screen (Vga). Machine: `src/vm_boot.c` fills the boot page tables
-- (VmBoot: Walk is the lookup that the processor does, Grow, Leaf and Enter what one entry
-- changes, Map, Range, Cover and Unmap the operations), `src/multiboot.c` reads what the boot
-- loader tells (Multiboot), `src/imps.c` and `src/acpi.c` read the firmware's tables (Imps,
-- Acpi, with the words of memory in Bytes), which name the interrupt controllers of
-- `src/local_apic.c` (LocalApic) and `src/io_apic.c` (IoApic); `src/interrupt.c` keeps the
-- handlers of interrupts and enables them in IoApic (Interrupt). `src/cpu.c` fills the tables
-- of gates and segments (Idt), and starts the processors with all of these (Smp: Mask is the
-- loops over the processors, Ipi the commands they send, Start the whole). `src/pic.c` and
-- `src/pit.c` are the older interrupt controllers and timer (Pic), `src/pci.c` searches the bus
-- for devices (Pci) and `src/ata.c` identifies a disk (Ata).
--
-- Hardware behind ports is a parameter: Pci and Ata take a record of port operations on a state
-- of any type, and their theorems state what they rely on (`Configured` of Pci/Scan is the
-- configuration mechanism: a read of a register that identifies a function gives it, once its
-- address, a sum of bit fields in Pci/Address, was written; base addresses may hold what is
-- written to them). Pic records what is written. What the interrupts and the other processors
-- do while `cpu_wait` of `src/cpu.c` waits is a parameter of Smp, and `Waits` of Smp/Start is
-- what is relied on: all processors are counted in the end only if an INIT and then a STARTUP
-- was written for each of them to the controller, which LocalApic records in `written`.
--
-- Functions keep the names of the source. A function that changes an object through a pointer
-- takes the object's record and returns the new one; an array is a function from indices;
-- objects that point at one another are cells of functions from addresses, with the address 0
-- for NULL. A w-bit unsigned integer is a natural number whose wrap-around is written out (u8,
-- u16, u32, u64 in Prelude/Check). `Outcome` (Prelude/Check) tells how code ends: `done` with a
-- result, `panic` for `kernel_panic`, `hang` for a spinlock that is already held and for a loop
-- that has used up its fuel, `undefined` for behaviour that C does not define. Calls of
-- `printf` and `trace` are left out.
--
-- Loops are structural recursion on the number of rounds left. The loops over linked chains
-- take fuel, and their theorems show that as many rounds as the chain has elements, and one
-- more, are enough.
--
-- The loops over strings, tags and tables take fuel too; a theorem on one says how much is
-- enough: one round more than there are bytes, tags or entries, or the size of the region that
-- is searched.
--
-- Not modelled: assembly, which only shows in what its C wrappers return, among it the boot
-- code of the other processors; the calls of `src/main.c`; exception handlers; and the text
-- that is printed. The loops that wait for a controller are left out. Kernel records its calls
-- of `vm_boot_map_range`, which VmBoot models, in place of making them. An interrupt or another
-- processor shows as another operation on the same state, between the operations.
pub mod Prelude
pub mod Acpi
pub mod Ata
pub mod Bytes
pub mod Console
pub mod Dlist
pub mod FbCons
pub mod Idt
pub mod Imps
pub mod Interrupt
pub mod IoApic
pub mod Kbd
pub mod Kernel
pub mod Kterm
pub mod LocalApic
pub mod Multiboot
pub mod PageDb
pub mod Pci
pub mod Pic
pub mod Printf
pub mod Sched
pub mod Screen
pub mod Slab
pub mod SlabList
pub mod Smp
pub mod Strings
pub mod Sync
pub mod Thread
pub mod Vga
pub mod VmBoot
pub mod VmCache
