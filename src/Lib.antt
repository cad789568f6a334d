-- ===== src/Lib.antt =====
-- zephyrlog: a model of the asynchronous C++ logger of this repository, and its correctness.
--
-- A log macro (include/zephyrlog/zephyrlog.h) compares its level with that of a logger, encodes its
-- arguments into a `LogLine`, and adds the line to the logger's `AsyncLogger`, which pushes it into
-- a buffer: a `RingBuffer` of fixed size, or a `QueueBuffer` without bound. A worker thread takes
-- the lines out in turn, formats them, and writes them with a `FileWriter`.
--
-- Parts:
--   LogLine      src/logline.cpp, include/zephyrlog/logline.h. The record is `LogLine`, its arrays
--                are lists of bytes, and an access outside an array is `none`. LogLine/Encode has
--                the `encode` functions and `operator<<`, LogLine/Stringify the decoding loop of
--                `stringify`, LogLine/Level the levels, LogLine/Moved the moves. LogLine/Validity,
--                Encoded and Values are about the encoder; Decoded, Loop and RoundTrip about both
--                halves together, and Allocation about when a line is on the heap.
--   BufferBase   include/zephyrlog/bufferbase.h. The interface as a record, the laws of a queue
--                (`IsFifo`), and runs of calls; BufferBase/Queue compares a run with one on a list.
--   RingBuffer   src/ringbuffer.cpp, include/zephyrlog/ringbuffer.h. RingBuffer/Lap is the ring
--                with no index arithmetic, to which Refine, Runs, Fifo and Overrun relate it.
--                RingBuffer/Threads has the calls of several threads, one access to the shared
--                memory at a time; Exclusion is about the lock of an item, Atomic about the effect
--                of the accesses together.
--   QueueBuffer  src/queuebuffer.cpp, include/zephyrlog/queuebuffer.h, with its blocks in a heap, in
--                which an access to a freed block is seen. Blocks and Chain describe the blocks of a
--                queue, Calls and Fifo the calls, and Race a consumer in the middle of a `push`.
--                QueueBuffer/Threads has the calls of several threads, one access to the shared
--                memory at a time; Counted, Opening and Steps are about the count of a block, Rooms
--                and Blank about the items still to be written, Reader, Consumer and Reading about
--                `tryPop`, Sound, Alive, Kept and Living about the blocks in the heap, Lock
--                about the lock, and Moves, Invariant and Safety about all of them. Threads/Order
--                is about the order of the lines: Offset, Phase, Content, Writes and Reads relate a
--                place in the blocks to a line, Ordered, Producing, Consuming and Moves are the
--                invariant, Fifo has what it gives, and Callers relates the claims to the calls of
--                each thread.
--   FileWriter   include/zephyrlog/filewriter.h. FileWriter/Paths is about the files' paths, Rolling
--                about their contents, Whole about when none has been erased, and Dropped about a
--                file that cannot be opened.
--   AsyncLogger  src/asynclogger.cpp, include/zephyrlog/asynclogger.h: a step relation of the
--                producers, the constructor, the destructor and the worker, over any buffer of the
--                interface. AsyncLogger/Drain is about what has been written at the end.
--                AsyncLogger/Threads has the producers and the worker on a queue buffer, one access
--                to the shared memory at a time; Calls and Working are about the lines between the
--                accesses, Worker about `tryPop`, Drain about what has been written.
--   Registry     src/zephyrlog.cpp, src/logger.cpp, include/zephyrlog/logger.h and the macros:
--                levels, the default logger and the named ones. Registry/Valid and Remove
--                are about the pointers, Levels about the levels, Race about a `removeLogger` in
--                the middle of a `setDefaultLogger`.
--   SpinLock     include/zephyrlog/spinlock.h: the flag of a lock, set and cleared.
--   Pipeline     the parts together: from the log macros to the files.
--   Prelude      shared names, tests, lists, bytes, integers, decimals and outcomes.
--
-- Bounds: `size_t` and pointers have 64 bits, indices 32, and wrap around; the platform is
-- little-endian. The size of a block of the queue buffer, 32768 in the source, is a parameter below
-- 2^32, and the size of the ring one that divides 2^32. In QueueBuffer/Threads the write index does
-- not wrap around, which would take about 2^32 calls between one block and the next.
--
-- Fuel: the loop of `stringify` takes the bytes in use as fuel, since each round takes one byte at
-- least. `QueueBuffer::push` takes fuel for its calls of itself; with no other thread between its
-- steps one round is enough. The worker's loops are steps of the relation, or a number of rounds.
--
-- Parameters: the clock, the thread id, `strftime` and the formatting of a double and a thread id
-- (`Format`); the strings behind addresses (`Memory`); whether a file can be opened.
--
-- Not modelled: the worker's loop over the single accesses of a ring buffer, whose calls are one
-- step in AsyncLogger; memory orders weaker than sequential consistency; the lifetime of loggers;
-- allocations that fail (`make_unique`, and `malloc`, whose result the source does not check);
-- sleeping and flushing; failing writes to an open file; files of an earlier run of the program; the
-- copy of the headers in sdk; the examples and the build.
--
-- Undefined behaviour is a value: `none` in a function without loops and `fault` in an `Outcome`.
pub mod Prelude
pub mod LogLine
pub mod BufferBase
pub mod RingBuffer
pub mod QueueBuffer
pub mod FileWriter
pub mod AsyncLogger
pub mod Registry
pub mod SpinLock
pub mod Pipeline
