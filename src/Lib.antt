-- ===== src/Lib.antt =====
-- CLOUD-FLY-PRLATFORM: the buffers, the memory primitives, the vector kernels and the blockchain
-- operations of its C drivers, and of its C++ part the storage, network, compute, memory and container
-- managers, the load balancer, the work of the cores of its blockchain, the run state of `CoreEngine`,
-- the adaptive cache, the hierarchical lock, and the lock-free stack, queue and map.
--
-- The C drivers (src/core/drivers, include/core/drivers) are a bottom layer: `core_buffer_*` copies with
-- `core_memcpy_aligned`, and the blockchain operations hash, sign and verify through OpenSSL. The C++
-- managers (src/core, src/container) keep their state behind mutexes; the load balancer hands tasks to
-- the four engines, of which the storage and the network manager are two.
--
-- Where what is modelled:
--   Prelude: names shared by all files. Prelude/Results has the outcome of a call (`Outcome`: a value, or
--     a fault, a deadlock, a loop without end or an exception), Prelude/Locks code under mutexes that are
--     not recursive, Prelude/Maps `std::unordered_map`, Prelude/Slices parts of byte lists, Prelude/Bits
--     the bitwise and, Prelude/Int the integers over the native numbers.
--   Drivers/MemoryOps: src/core/drivers/memory_ops.c: `core_memcpy_aligned` in its scalar (`memcpy`) and its
--     AVX2 build (`memcpy_avx2`), one of which a `Build` chooses with the addresses of the two blocks,
--     `core_align_ptr`, `core_get_alignment_offset`. Memory is a list of
--     bytes per block; an access outside it is a fault.
--   Drivers/Buffer: src/core/drivers/buffer_ops.c: `core_buffer_t` is the record `Buffer`, whose `bytes` are
--     the block it points to; `core_malloc` is a parameter. A model function has the C function's name
--     without its prefix.
--   Drivers/Blockchain: src/core/drivers/blockchain_ops.c and include/core/drivers/blockchain_ops.h:
--     hashes, signatures, transactions, blocks, Merkle proofs and chains. OpenSSL is the record `OpenSsl`
--     of parameters; a hash or a key is a list of bytes. Drivers/Blockchain/Blocks has the blocks and chains.
--   Core/StorageManager: src/core/StorageManager.cpp and include/core/StorageManager.h. `File`,
--     `StorageCore` and `Task` are declared and not defined in the repository: they are the parameters
--     `Parts`. Every member function is a function of its name; the twelve calls on one core that differ
--     in the function called only are `on_core`.
--   Core/NetworkManager: src/core/NetworkManager.cpp and include/core/NetworkManager.h, in the same way:
--     `Connection`, `NetworkCore` and `Task` are only declared, and the sockets are parameters.
--   Core/LoadBalancer: src/core/LoadBalancer.cpp and include/core/LoadBalancer.h. `double` is the record
--     `Doubles`; the engines are seen by the calls made on them, in `calls`.
--   Core/MultiCoreBlockchain: src/core/blockchain/MultiCoreBlockchain.cpp and
--     include/core/blockchain/MultiCoreBlockchain.h: the queues of the cores. `TransactionQueue` and
--     `BlockQueue` are not in the repository: the interface `Queue` says what is relied on.
--   Core/Engine: src/core/engine.cpp and include/core/engine.h. The components that the engine calls are the
--     parameter `World`, which says what each call answers and whether it throws; the state keeps the calls.
--   Sync/LockFreeStack: `LockFreeStack` of src/sync/lockfree_structures.cpp and
--     include/sync/lockfree_structures.h, with one step for each atomic access, of any threads in any order.
--   Sync/LockFreeQueue: `LockFreeQueue` of the same files and of src/sync/advanced_synchronization.cpp, in
--     the same way, with the nodes of LockFreeStack; the first node, which no code makes, is there at the
--     start. Sync/LockFreeHashMap: the map of buckets over such queues, one thread at a time.
--   Sync/HierarchicalLock: the lock of src/sync/advanced_synchronization.cpp and
--     include/sync/advanced_synchronization.h, with the threads' steps on any number of locks.
--   Cache: `AdaptiveCache` of include/cache/adaptive_cache.h, one thread at a time over a queue as a list, and
--     in Cache/Backend `NVMBackend` of src/cache/adaptive_cache.cpp. `reconfigure` runs on one round more
--     than the queue has nodes, which is enough.
--   Container: src/container/container_manager.cpp and include/container/container_manager.h: containers
--     by id. Core/LoadBalancer and Container take `double` and what it is converted to as parameters.
--   Storage: src/storage/storage_manager.cpp and include/storage/storage_manager.h, the key-value store;
--     another class than that of Core/StorageManager, though it has the same name. Its abstract view, a
--     map from names to maps from keys to bytes, is in Storage/View; Storage/Services has what is around
--     the entries (backups, snapshots, codecs, statistics).
--   Memory: src/memory/memory_manager.cpp and include/memory/memory_manager.h: pools over the system's
--     allocator, which is the parameter `System`; Memory/Calls has the member functions. A pointer is the
--     address of a block's first byte.
--   Compute: loops over arrays. Compute/Lanes has loads, stores and operations on registers,
--     Compute/Blocks the loop with a remainder, Compute/Manager the kernels of
--     src/compute/compute_manager.cpp, and Compute/Vectors those of src/core/drivers/compute_ops.c. An
--     array is the list of its elements up to the end of its block, and an access past it is a fault.
--
-- Bounds: `size_t`, `uintptr_t` and `uint64_t` have 64 bits and wrap where the source computes with them;
-- the counts of maps, which memory bounds, do not. Fuel: doubling a capacity, `grow_fuel` = 65, after
-- which the capacity has wrapped to 0; `leading_zeros`, 8, the bits of a byte; `copy_blocks`, one more
-- than the bytes to copy; `mark_core_unhealthy`, two calls deep;
-- the vector loops, one more than the number of elements, where an index plus a register's width does not
-- wrap, as for any array that memory holds. Mining has 2^64 - 1 rounds, the nonces
-- of the source's loop.
--
-- Not modelled: the order of threads but in Sync (elsewhere a call runs to its end, and only the mutexes
-- that it holds itself are seen), memory orders weaker than sequential consistency, what a thread does after
-- it read a deleted node (it has no step), the iteration order of maps (any list is allowed), logging and
-- times, `core_memset_aligned`
-- and the cache and barrier instructions, the Merkle tree's construction behind its first write (through a
-- byte as a pointer, a fault), the NEON
-- copies, the failure handling of `MultiCoreBlockchain` and so the loops that call it,
-- creation and destruction of blocks and transactions (allocation only), and the other managers and
-- drivers of the repository.
pub mod Prelude
pub mod Cache
pub mod Compute
pub mod Container
pub mod Core
pub mod Drivers
pub mod Memory
pub mod Storage
pub mod Sync
