-- ===== src/Lib.antt =====
-- The core of the bincows kernel: its allocators, its pipes, its shared memory objects, the queues
-- of its NVMe driver, its block cache, its FAT32 file system, its scheduler, its printing of
-- formats, and three of its string functions. Paths below are from the repository's root.
--
-- The parts and how they interact. `kernel/memory/pmm.c` hands out physical pages; the heap of
-- `kernel/memory/heap.c` grows by pages and hands out blocks, among them the buffers of the pipes
-- of `kernel/fs/pipefs/pipefs.c` and the instances of `kernel/sched/shm.c`. The NVMe driver, in
-- `kernel/drivers/nvme`, puts commands in a queue that the controller empties and learns of their
-- completion by an interrupt. Between the file systems and the driver stands the block cache of
-- `kernel/drivers/block_cache.c`, which asks the driver for the sectors of whole pages and waits
-- for them with `sync`; the FAT32 file system of `kernel/fs/fat32` reads and writes a partition. The kernel is built with assertions, so each of them is a branch of
-- the model, and a run ends in a value of `Base.Outcomes.Outcome`: `ok`, a failed assertion
-- (`panic`), an access to memory that the model knows nothing of (`wild`), a wait without end
-- (`hang`), or a loop that the model cut (`no_fuel`). Integers of the C code are natural numbers,
-- with the remainder written out where the type can wrap around.
--
-- Base.antt: the tests of C conditions, arrays as lists, outcomes, and memory as a function from
--   addresses to bytes with the copy loop.
-- Heap.antt, Heap/Api.antt: `kernel/memory/heap.c`. The list that begins at `current_segment` is a
--   list of headers, each with its address. Heap.antt has the loops on it (expand_heap,
--   defragment, split_segment, the search of malloc), Heap/Api.antt the interface (heap_init,
--   malloc, free, realloc, is_in_heap). alloc_pages is a counter of pages. The interrupts are off
--   in each operation. Proofs: Tiling (the invariant), Fit, Malloc, Merge, Free, Blocks (the
--   blocks in use, which is the client's view), Realloc, Apart.
-- Pipe/Files.antt, Copying.antt, Ops.antt, Ends.antt: `kernel/fs/pipefs/pipefs.c`. The state is
--   the table of pipes with its locks, the interrupt flag and the threads that were woken.
--   Copying.antt has one round of each copy loop, Ops.antt the loops and what stands around them,
--   where a list of events says what ends each wait, and Ends.antt the life of a pipe. Proofs:
--   Contents (the client's view, a list of bytes), Turns, Adding, Reading.
-- Pmm.antt: `kernel/memory/pmm.c`. A bitmap is a function from bits to Booleans, a list of ranges
--   a list of indices. Ranges.antt has the search for the range of a page and physfree. Proofs:
--   Counting, Levels, Pages (the invariant), Regions (the lists), Freeing.
-- Nvme.antt: `queue.h`, `queue.c`, `commands.c` and the handler of `nvme.c` in
--   `kernel/drivers/nvme`. What the controller writes stands in the memory of the queue. Writes to
--   doorbells and copies of asynchronous reads are logs. Proofs: Pending (how many elements a
--   queue holds), Completions, Commands, Draining, Handling.
-- BlockCache.antt: `kernel/drivers/block_cache.c`. A record stands for one cache and its device:
--   the pages that are mapped, the fetches that it waits for, and the requests that the device has
--   not completed. Memory is counted in sectors. Proofs: Coherent (the invariant: what is mapped
--   is what the device holds), Fetching, Requests, Blocking, Reading, Opening, Writing, Flushing.
--   Devices.antt is the table of the caches with their ranges of addresses.
-- Fat32.antt: `kernel/fs/fat32/fat32.c`. Fat32.antt has the cache of the file allocation table and
--   the operations on its entries (readFAT is read_fat, allocFAT alloc_fat, linkFAT link_fat),
--   Fat32/Files.antt reading and writing the sectors of a file, Fat32/Resizing.antt extending and
--   truncating it, Fat32/Booting.antt the mount. A Volume holds what stays as it was mounted, a State the rest; a sector is a
--   function from the numbers of its 32-bit words. Proofs: View (the table that the cache and the
--   device hold together), Entries, Linking, Allocating, Flushing, Chains (the clusters of a file as
--   a list), Growing, Places (where the sectors of a file stand), Apart, Merging, Reading,
--   FileReads, Writing, Rounds, Appending, Prefix, Finishing, FileWrites, FirstCluster, Extending,
--   GapWrites, RoundTrip, Truncating, Mounting. The theorems on a
--   Small volume are about a table below the sector 2048, the number of slots of the cache.
-- Shm.antt: `kernel/sched/shm.c`. A process is the table of its 512 shared slots; the page
--   directory that shm_alloc returns is an argument, and the calls of free_r1_region are a log.
--   Proofs: Slots, Counting, Opening, Removing.
-- Strings.antt: memmove, strlen and strstr of `kernel/lib/string.c` on one memory. Proofs: Moving,
--   Searching.
-- Sprintf.antt: `kernel/lib/sprintf.c`. The output is the list of the characters before `str`, and
--   an argument is a number or a string. Proofs: Digits (numbers and their values), Formats
--   (formats as lists of pieces).
-- Sched.antt: `kernel/sched/sched.c`. Queue.antt is the buffer of ready threads, Threads.antt the
--   table of threads with what an interrupt does: sched_save, the choice of schedule with its lazy
--   kill, and sched_unblock. The lazy kill of a process tells the parent by
--   process_trigger_signal of `kernel/sched/process.c`, which cancels its sleep in
--   `kernel/lib/time.c`. Proofs: Fifo (the queue is a list), Growing, Lookup, Turns (round
--   robin), Waking, Blocking, Killing, Telling,
--   Exiting.
--
-- Fuel. malloc calls itself again after it has expanded the heap, so two rounds are enough. A loop
-- of pipefs needs two rounds between two waits, so it gets a number of rounds linear in the number
-- of events. update_queues and the handler of completions run once for each slot of the queue at
-- most. The choice of schedule takes a thread off the queue in each round, so a round for each
-- slot is enough. A number of 64 bits has at most 20 decimal and 16 hexadecimal digits. strlen and
-- strstr run once for each character, and the fuel is an argument. The search of get_memory_range
-- halves its interval and gets a round for each range. The loops of the block cache take a sector
-- in each round at least, and so run on the number of sectors; the loop of fetch_page waits once,
-- after which its buffer is empty, so two rounds are enough. The search of
-- allocFAT visits each sector of the table once; the loops that read and write a file take a
-- sector in each round at least. All other loops are structural.
--
-- Not modelled: processes, paging, the virtual file system, the memory and device file systems,
-- the terminal, the drivers' start-up, the firmware's tables, the C library and the user programs.
-- In the modelled files: heap_print and malloc_test, which print; try_merge and find_pred, which
-- nothing calls; the mounting of pipefs; physalloc; the
-- directories of FAT32; block_cache_reclaim_pages and
-- block_cache_free; the registers and address spaces of threads, the handling of a signal that is pending, and how
-- processes start and are killed by others; the identification of NVMe devices and the requests made of them; printf, which
-- hands its string to the output. Each is independent of what is modelled here or a client of it.

pub mod Base
pub mod BlockCache
pub mod Fat32
pub mod Heap
pub mod Nvme
pub mod Pipe
pub mod Pmm
pub mod Sched
pub mod Shm
pub mod Sprintf
pub mod Strings
