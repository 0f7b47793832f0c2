-- ===== src/Lib.antt =====
-- KingDB: a persistent key-value store. Orders are collected in a write buffer, written into HSTables
-- (files of entries that end in an array of offsets and a footer), found again through an index in
-- memory, and compacted.
--
-- The parts of the program and the files that model them:
--
--   Prelude       names of the libraries, tests, lists, bits and integers that the others share.
--   Coding        algorithm/coding.cc and algorithm/coding.h: EncodeFixed32 to GetVarint64; and
--                 algorithm/endian.cc: getEndianness.
--   Status        util/status.h and util/status.cc.
--   Options       util/options.h: the options that the other parts read.
--   Reader        the walk of a pointer and an `int` count over a buffer, which the DecodeFrom
--                 functions of storage/format.h share.
--   Format        storage/format.h: EntryHeader, DatabaseOptionEncoder, HSTableHeader,
--                 HSTableFooter and OffsetArrayRow.
--   ResourceManager   storage/resource_manager.h: FileResourceManager, its mutexes as atomic steps and
--                 the clock as an argument.
--   HsTable       storage/hstable_manager.h: WriteOffsetArray, LoadFile, RecoverFile and, in
--                 HsTable/Writer, WriteOrdersAndFlushFile with all that it calls. A file is the
--                 list of its bytes and the calls of the system succeed; the multimap of the index is
--                 the list of its insertions. The loop of RecoverFile runs on fuel, one round for each
--                 entry of the file and one more.
--                 The buffers of the writer are lists of bytes, and a copy behind their end is the
--                 result none; what a local EntryHeader or buffer holds before it is set is an
--                 argument, as is the clock.
--   FilePool      util/filepool.h: GetFile and ReleaseFile of FileManager, with what open() and mmap()
--                 return as arguments.
--   Order         util/order.h: a part of an entry.
--   WriteBuffer   cache/write_buffer.h and cache/write_buffer.cc: the two buffers, Get, WritePart and
--                 ProcessingLoop. What runs under one lock is one step; WriteBuffer/Queue relates the
--                 steps of the threads.
--   StorageEngine storage/storage_engine.h: GetWithIndex and GetEntry. The index is the list of its
--                 pairs in the order of the iterators, and a file is mapped up to its recorded size.
--   ByteArray     util/byte_array.h: the window of a byte array on its resource.
--   Database      interface/database.cc: PutPart, with PutPartValidSize as an argument. Its loop runs on
--                 fuel, one round for each byte of the chunk and one more, which is enough since
--                 the maximum size of a part is positive.
--                 Database/ValidSize is PutPartValidSize, up to the call of the write buffer.
--   Compressor    algorithm/compressor.cc and algorithm/compressor.h: Compress, Uncompress and
--                 UncompressByteArray, for one thread. The functions of LZ4 and the extension of a CRC
--                 are arguments. The loop of UncompressByteArray runs on fuel, one round for each
--                 frame of the value and one more.
--   RateLimiter   cache/rate_limiter.h: StoreWritingRate and GetWritingRate.
--   Samples       hosts and a checksum for the runs.
--
-- Bytes are numbers below 256 and a buffer is the list of its bytes. Numbers are naturals with the
-- wrap-around of their C type written out; an `int` is an integer of Prelude.Int. What a function
-- writes through a pointer is the list that it returns. A load behind the end of a buffer is the
-- result `out_of_bounds`, so that a theorem can say that it does not happen. The host's byte order
-- and the sign of its `char` are the record Platform, whatever they are; kLittleEndian is a definition
-- of its own, since getEndianness says of every host that it is little-endian.
--
-- The checksums of algorithm/crc32c.cc are the parameters of the record Checksums, of which only
-- the ranges of the results are used.
--
-- Loops: EncodeVarint64 and VarintLength recur on the accessibility of `<`, so they are total; the
-- loops of GetVarint32 and GetVarint64 run on fuel 5 and 10, the number of shifts up to 28 and 63,
-- which their own bound gives.
--
-- Not modelled: the compression algorithm and the hashes, which are copied from other projects,
-- logging, threads, sockets and the command lines, and what RateLimiter::Tick computes with numbers of
-- type double.
pub mod ByteArray
pub mod Coding
pub mod Compressor
pub mod Database
pub mod FilePool
pub mod Format
pub mod HsTable
pub mod Options
pub mod Order
pub mod Prelude
pub mod RateLimiter
pub mod Reader
pub mod ResourceManager
pub mod Samples
pub mod Status
pub mod StorageEngine
pub mod WriteBuffer
