-- ===== src/Lib.antt =====
-- ngnfs-progs: the userspace programs and the shared code of the ngnfs file system.
--
-- The parts. A file system's metadata are btree items in blocks of 4096 bytes (shared/btree.c,
-- shared/format-block.h). Blocks are cached, dirtied in sets and written back by the block cache
-- (shared/block.c), which hands them to a block transport. One transport sends them as messages
-- (shared/btr-msg.c) to the device daemon (devd), whose handlers use a cache of their own over the
-- device (devd/btr-aio.c). Messages, peers and handlers are shared/msg.c, over a
-- socket transport (shared/mtr-socket.c). The program debugfs mounts a file system and runs commands
-- on it.
--
-- What is modelled, and where.
--   Prelude: notation, signed counters (Int), errno and results (Errno), code that may fail an
--     assertion or run out of fuel (Run), 16-bit arithmetic (Words), the bytes of a block (Memory).
--   Btree: a block is a record of the header's counts and a function from addresses to bytes.
--     Layout has the accessors of items and offsets, Keys cmp_keys, Search btree_search, with what
--     it finds in its child modules, Items insert_item and remove_item, Ops the functions of
--     shared/btree.h. Valid says when a block is well formed and what map from keys to values it
--     stands for; Slots, Insert and Remove are about the changes of the payload; Map has the
--     results on the operations. Compact has compaction and verification, Move move_items, Balance
--     the splitting and refilling and the parent's items; their child modules are the results.
--     sort_r of shared/lk/sort.c calls the C library's qsort_r, which is a function of the memory
--     and the comparison. The loop of the compaction has a round of fuel for each u16,
--     swap_words_16, which sort_r ignores, one for each byte.
--   Msg: Wire has the header and the error codes of messages, Handlers the table of receive
--     functions, Peers the table of peers with their references, References the results on these,
--     Setup ngnfs_msg_setup and ngnfs_msg_destroy with what they hold.
--   Cache: State has the structures of shared/block.c, Waiters the counter of sync waiters, Queues
--     the references, lists and works, Get the get of a block up to its wait and after it, Submit the
--     submit work, EndIo the completion of IO, WritebackWork the writeback work, Sync sync, Sets the
--     operations on the sets of blocks, Dirty ngnfs_block_dirty_begin and ngnfs_block_dirty_end.
--     Setup has ngnfs_block_setup and ngnfs_block_destroy, with the result on what they hold.
--     SubmitOrder, Completion and Writeback are the results on Submit and EndIo. Sound says when the
--     sets are sound; Clear, Walk, Merge, Join and Gather lead to the result on the walk over the
--     caller's blocks that brings them into one set.
--   Txn: shared/txn.c over a record of the cache's functions (State), with Execute for its functions,
--     Counts and Release for the references that a transaction holds, and Single for transactions
--     over one block. The fuel of an execution is a bound on the number of its blocks.
--   Pfs: shared/pfs.c. Inode has the inode's layout and the functions on its block, Block what they do
--     to the block, Ops mkfs and read_inode as transactions, RoundTrip the two after one another.
--   Protocol: the messages between shared/btr-msg.c (Client) and devd/recv.c (Server). Desc has the
--     descriptor of a message and the bytes of its control structures, Exchange and WriteExchange the
--     results on a request, its handling and the handling of the answer.
--   Socket: shared/mtr-socket.c. Iovec has whole_iovec, Whole what it transfers, Threads the flags of
--     threads (shared/thread.c) and the peers, Peer the framing and the send and receive threads,
--     Connect the starting of peers. Reads, Message, Receive, Stream and Send lead to the results on
--     streams of messages, Descriptors has those on file descriptors. The fuel of whole_iovec is the
--     number of bytes of its vector, of the loops the number of their rounds.
--   Aio: devd/btr-aio.c. Bitmap has the bitmaps of iocbs, Transport the submission, the threads' rounds,
--     setup and destruction, InFlight and Setup the results. A search of a bitmap has 65 rounds of fuel,
--     one more than an unsigned long has bits.
--   Manifest: shared/manifest.c.
--   Options: Parse has shared/parse.c and shared/nerr.h, Getopt getopt_long_more of shared/options.c,
--     with what getopt_long returns call by call as a list, Mount shared/mount.c. Loop and Mounted are
--     the results.
--   Trace: shared/trace.c. Buffers has the buffers and the queue, Store the functions, one step each,
--     Setup the file and the write thread. Sound says when the buffers are sound; Storing and Steps
--     lead to the result on any order of the functions, Overlap is about events that follow one another.
--   Debugfs: cli/debugfs.c, whose commands run over Pfs on a file system that Options mounts. Session is
--     about making and printing a file system. Its transactions have one block, so fuel of 1 is enough.
--   Workqueue: shared/lk/workqueue.c, a thread that runs the works of a queue; Drain is about its end.
--     A thread has a given number of rounds until it finds its stop bit set.
--   Tests: the results at concrete inputs, and runs.
--
-- Conventions. A BUG_ON or assert that fails is the value `bug` of Run. The fields of a block
-- header wrap at 16 bits; the atomic counters of the cache are integers that do not overflow. The
-- binary search takes the size of its key as a u16 and keeps its bounds as s16, an s16 x being the
-- number x + 2^15; it has 16 rounds of fuel, enough for every count that an s16 holds. A wait or a
-- join of a thread that nothing ends is the value `hang` of Run: whether a thread returns once its
-- stop bit is set is a parameter (Ends of Socket, AioEnds of Aio, the flags of trace_destroy). The
-- hash tables are functions. A function that other threads can interrupt is a function of what they
-- do in between, or one atomic step.
--
-- What is not modelled. In shared/block.c: waiting and waking, the contents of pages. In
-- cli/debugfs.c: the function that starts its thread. The calls of the system, the allocator and
-- the C library are parameters, and log messages are left out. In shared/msg.c the transport's
-- functions return: what the joins of shared/mtr-socket.c do is in Socket. The other source files
-- are not modelled: the remaining programs parse, print, and set the parts up and down, and
-- shared/lk has copies of interfaces of the Linux kernel.
pub mod Prelude
pub mod Btree
pub mod Msg
pub mod Cache
pub mod Txn
pub mod Pfs
pub mod Protocol
pub mod Socket
pub mod Aio
pub mod Manifest
pub mod Options
pub mod Trace
pub mod Workqueue
pub mod Debugfs
mod Tests
