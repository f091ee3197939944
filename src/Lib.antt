-- ===== src/Lib.antt =====
-- agilefs: a file system that stores blocks of 4096 bytes under their hashes.
--
-- The client (src/client/agilefs-fuse.c) keeps a metafile for each file, with the size and the hash of
-- every block. It reads and writes blocks through the block store (src/server/chunks-io.c), which puts
-- them into chunk files, takes free blocks from the list of each file (src/server/chunks.c) and keeps
-- where a block is in the hash databases (src/server/db_ops.c). On the server a producer thread hands
-- blocks to a consumer thread through a ring (src/io/thread-mgr.c). src/io/net/sockio.c wraps sockets,
-- and src/io/net/tcp.c sets them up. src/server/expat-xml.c opens the chunk files that the configuration
-- names when the server starts, and saves their lists when it ends.
--
-- Prelude: shared names, tests on numbers, lists, C integers. A value of `Option` is a computation
--   that may fault: an access out of bounds, a null pointer, a failed assertion, signed overflow.
-- Chunks: struct free_chunk_list and the functions of chunks.c. A segment is a list of 1024 words or
--   NULL; what malloc gives, and what each read and write moves, are arguments. Segments reads the segments as one array, Stack and Push
--   are get_first_free_chunk and add_free_chunk, Saved and Restart the list's file.
-- Arrays: writes at an index. Config: the handlers, the parser loop, init_chunk_file and
--   release_chunk_file of expat-xml.c, where the host's calls are parameters and Expat is the calls of the handlers for each piece of the
--   file; Saving and Restart are about a list that is written and read back, Overflow about a wrong total.
-- ChunkFiles: struct chunk_file_info and get_proper_chunk_file of chunks-io.c.
-- Platform: what the store calls and the repository does not implement (pread, pwrite, fsync, Berkeley
--   DB, write_hash_db), as a record of operations on one world, with the laws the code relies on.
-- HashDb: db_put, db_get and db_del of db_ops.c; Setup has DB_init and DB_clean. A hash whose first
--   four bytes are not 0 indexes the array of databases out of bounds, which is a fault.
-- ChunkIo: block_write, block_read, put_new_chunk, del_chunk and sync_chunk_data of chunks-io.c. Sound
--   says when a store is sound; Allocate, Enter, Put, Reference, ReadPart, Sync, Delete and Loss
--   are about the operations, Refine about the store as a map, Foreign about
--   the store beside a metafile.
-- Disk: a platform that runs, which has the laws, and a sound store on it.
-- Md5: src/common/misc/md5.c. The 64-bit count of bytes is its two 32-bit words. Blocks,
--   Update and Reference are about its blocks; Compress is the compression of RFC 1321 on 32-bit words,
--   and Functions, LowDigits, Rotations, Rounds and Rfc are about the 64-bit one of the code.
-- Fuse: the handlers of agilefs-fuse.c. Os is the interface to the system calls on paths; Meta has the
--   handlers that open, size and close a metafile, Calls those that hand over to a system call, Table
--   the table of these, Header is about the size in the metafile, Read, Aligned and Returns
--   about fuse_read, RoundTrip about fuse_write and fuse_read.
--   The loops of fuse_read and fuse_write run on fuel: the number of bytes of the request, which is
--   enough since each round handles at least one; the sum of fuse_read is an int. The loops of fuse_truncate and fuse_ftruncate have
--   the file's size as fuel, with 4096 bytes a round.
-- Threads: the ring of blocks and the loops of producer_thread_fun and consumer_thread_fun as steps
--   that interleave; Ring, Running, Producer and Consumer have the invariant, Fifo and Progress what
--   follows, Start and Starting the functions that set the threads up. Each memcpy is one step. The
--   operation get_one_chunk is a parameter, with its arguments in the order of the call in
--   producer_thread_fun, which is not the order of test_get_one_chunk.
-- Sockio: the loops of sockio.c around calls that are interrupted. The results of the successive
--   system calls are a list.
-- Tcp: src/io/net/tcp.c and src/io/net/socket-collection.c, with the calls that open, bind, connect,
--   poll and close descriptors as a list; Server and Client are about the two sides.
-- BlockFiles: src/client/fuse_io_util.c: Paths and Spelled are about md5_to_path in both configurations,
--   Counts and Short about write_block_file and ulink_block_file. The loop of md5_to_path runs on fuel,
--   one more than its rounds.
-- Cache: src/client/fuse_cache.c under WITH_CACHE; Ways has the loops over the ways of a line.
-- Server: test_get_one_chunk of src/server/agilefs-server.c; Loss is about its hashes and put_new_chunk.
-- DirectIo: the loops of src/io/storage/direct-ios.c, over the results of the calls.
--
-- Not modelled: SHA-1 (a copy of Steve Reid's code, compiled out), the epoll collection of PVFS (a copy
-- that is not built), the locks on metafiles (macros that only call fcntl), fuse_read and fuse_write with
-- the cache between, src/io/storage/space-immu.c (which does not compile), thread_io_context_init (which
-- has no caller), the empty functions, and the main programs.
pub mod Prelude
pub mod Chunks
pub mod Platform
pub mod ChunkFiles
pub mod HashDb
pub mod ChunkIo
pub mod Md5
pub mod Fuse
pub mod Disk
pub mod Threads
pub mod Sockio
pub mod DirectIo
pub mod Config
pub mod Arrays
pub mod BlockFiles
pub mod Cache
pub mod Tcp
pub mod Server
