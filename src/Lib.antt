-- ===== src/Lib.antt =====
-- CppCores: a verification library for the C++ utilities of the repository. Each part of the
-- program that is modelled is translated into functions and step relations, and its theorems are
-- listed at the end.
--
-- The parts, and the files they are modelled in:
-- - Encoding/Hex: hexstring_from_data and data_from_hexstring (src/utils/hash.cc).
-- - Encoding/Base64: base64encode and base64decode (src/utils/hash.cc).
-- - Encoding/Base64Arrays: Base64Encoding, Base64Decoding (src/utils/encoding.cc), is_base64 and
--   base64_chars (src/utils/encoding.h).
-- - Encoding/Fixed: EncodeFixed32, EncodeFixed64, DecodeFixed32, DecodeFixed64
--   (src/utils/encoding.h).
-- - Uint128: uint_t<128> with its arithmetic and its comparisons (src/utils/uint128_t.h).
-- - Queue/Spsc: SpscLockFreeQueue (src/concurrent/lockfree_queue.h and lockfree_queue_impl.h).
-- - Queue/Stealing: WorkStealingQueue (src/concurrent/work_stealing_queue.h), and
--   Queue/Stealing/Fence: what the fence of its pop leaves open.
-- - Queue/Mpmc: MpmcLockFreeQueue, in the files of SpscLockFreeQueue, for calls that run alone.
-- - Lock/Futex: FastPthreadMutex (src/concurrent/mutex.h and mutex.cc). Lock/Spin: SimpleSpinLock
--   and AtomicSpinLock (src/concurrent/spinlock.h). Lock/Posix: try_lock of MutexBase,
--   PosixSpinLock and PosixRWLock (src/concurrent/rwlock.h), over pthread calls that are
--   parameters. Lock/Exclusive holds what they share: moves of a thread and who owns a lock.
-- - Container/RingBuffer: RingBuffer (src/ds/ring_buffer.h), whose contents are those of the ring
--   of Queue/Spsc.
-- - Container/ByteArray: ByteArray (src/utils/bytearray.h and bytearray.cc), as far as it is
--   defined: its constructor, write, read and clear with addCapacity, over the linked nodes.
-- - Memory/Pool: MemoryPoolLiteImpl (src/utils/memory_pool_lite.h), and Memory/Slots:
--   MemoryPoolLiteAllocator (memory_pool_lite.h and memory_pool_lite.cc), with the writes of
--   those who hold its slots; the blocks that new returns are parameters. Memory/Regions is what
--   both share: regions of addresses that lie in each other or do not overlap.
-- - Fiber/Timer: FiberTimer and FiberTimerManager (src/fiber/fiber_timer.h and fiber_timer.cc); the
--   clock, the addresses that new returns and the callbacks are parameters.
-- - Fiber/Switch: Fiber (src/fiber/fibers.h and fibers.cc), on one thread, in a build where a
--   failed assertion ends the process.
-- - Coroutine/Schedule: schedule_t and its uthreads (src/coroutine/uthread.h).
-- - Atomic: the functions of src/concurrent/posix_atomic.h on a word, and Atomic/Compare: the
--   overload of AtomicCompareExchange that makes two accesses.
-- - Thread/Base: BaseThread (src/concurrent/base_thread.h and base_thread.cc), with the thread
--   of the system that it starts.
-- - Thread/Simple: SimpleThreadPool, and Thread/Toft: ToftThreadPool
--   (src/concurrent/thread_pool.h and thread_pool.cc).
-- - Text/Ascii: Ascii and its table (src/utils/ascii.h and ascii.cc).
-- - Text/Json: NeedEscape and Escape, and Text/JsonGet: GetString and the accessors of integers
--   (src/utils/json_util.cc), over the values of jsoncpp, which are a parameter. Text/Split: split,
--   and Text/Affix: StartWithPrefix, EndWithSuffix, RemovePrefix and RemoveSuffix
--   (src/utils/str_utils.cc).
--   Text/Replace: replace, toLower and toUpper, of the same file.
-- - Hash/Quick: quick_hash, Hash/Murmur: murmur3_hash and murmur3_hash64, and Hash/Block: Hash
--   (src/utils/hash.cc and hash.h). Hash/Tuple: the two hashes of a tuple
--   (src/meta/simple_tuple.h).
-- - File/Guard: fd_guard, with the descriptors that are open, and File/Flags: make_non_blocking and
--   make_blocking (src/utils/fd_utils.h), over calls of fcntl that are parameters. File/Stream:
--   EncodeToStream and DecodeFromStream (src/utils/simple_ostream.h). File/Stat: GetThreadStat,
--   GetThreadJiffies and GetProcessStat, and File/Memory: GetTotalMemory
--   (src/utils/process_util.cc), where the files are parameters.
-- - Retry: ExponentialRetryPolicy (src/utils/retry_policy.h).
-- Base holds the names and the lemmas on lists, tests and bits that all of them share. The parts do
-- not call each other in the source, except that `Hash` reads its words by DecodeFixed32, and that
-- hash.cc and encoding.cc implement base64 twice; Encoding/Base64Arrays/Agree relates the two.
--
-- State and operations: a struct or a class is a record with the source's fields, an operation is
-- a function that returns the new state beside its result, and an out-parameter is part of the
-- result. A concurrent operation is also written one shared access at a time, as a step of a
-- transition system that records what the operations have stored and returned so far; the runs
-- are all interleavings of these steps. The element type of a queue is modelled by numbers, since
-- elements are only moved. A `throw` is a case of a result type, and so is an access through a
-- null pointer where the source can make one. A pointer to a shared object is a number, and the
-- store is a function from these numbers.
--
-- Bounds and fuel: numbers are natural numbers, and the wrap of a 32-bit, 64-bit or 128-bit word
-- is written out. The base64 loops run on a bound, the number of characters or bytes that are
-- left, which each round lowers. The loops of `replace` run on a number of rounds, and the length
-- of the string is enough when the text to find is not empty. The two loops of the multi-producer
-- queue have no bound in the source; they are run for any number of rounds. The deque is followed
-- as long as its indices stay below 2^64.
--
-- Not modelled: weak memory. An access takes effect at once and all threads see the accesses in
-- one order, except that the load behind the fence of pop may overtake the store in front of it.
-- A futex call acts on a thread as the steps of Lock/Futex say. Nor the parts that call the
-- operating system or a third-party library and do nothing else (pthreads, OpenSSL, YAML, zlib,
-- files), the type-level utilities but the hashes of a tuple, the tests, and the string views of
-- src/ds, which are a copy of another project's. A uthread and a fiber are modelled by what they
-- work and where they switch; they make no other call of their schedule or of another fiber. A
-- sum of sizes of memory that there is is taken not to wrap.

pub mod Atomic
pub mod Base
pub mod Container
pub mod Coroutine
pub mod Encoding
pub mod Fiber
pub mod File
pub mod Hash
pub mod Lock
pub mod Memory
pub mod Queue
pub mod Retry
pub mod Text
pub mod Thread
pub mod Uint128
