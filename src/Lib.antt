-- ===== src/Lib.antt =====
-- A verification library for a networked file system: a disk server that keeps a disk as an array
-- of sectors, a file system server that keeps inodes, directories and files in its blocks, and the
-- messages between them.
--
-- The parts and their files. A client sends a command to the file system server (fs/src/server.c),
-- which tests it against the session's user and runs a handler (fs/src/handle.c). The handlers run
-- the commands (fs/src/fs.c, fs/src/user.c), these the directories (fs/src/dirop.c) and the inodes
-- (fs/src/inode.c), these the blocks (fs/src/block.c), and these the block cache (fs/src/cache.c).
-- The cache sends requests as framed messages (lib/tcp_buffer.c) to the disk server
-- (disk/src/server.c), which reads and writes the sectors (disk/src/disk.c). Both servers run on
-- the loop and the threads of lib/tcp_utils.c, which calls them back for each message of a
-- connection.
--   Base: numbers, bytes, lists, the text functions of the C library.
--   TcpBuffer: lib/tcp_buffer.c, one function each; TcpBuffer.Frames, TcpBuffer.Sending and
--     TcpBuffer.Receiving read the buffer as a queue.
--   TcpServer: the server of lib/tcp_utils.c over callbacks. TcpServer.Slots is the whole server as
--     steps of its main thread and of its jobs, in any order, and TcpServer.Slots.Invariant what
--     these keep; TcpServer.Serving is on its loop over the slots; TcpServer.Messages and
--     TcpServer.Runs are on the run of a job; TcpServer.Programs has the callbacks of the two
--     programs.
--   TcpClient: the client of lib/tcp_utils.c, and the loop of disk/src/client.c and
--     fs/src/client.c; TcpClient.Delivery, TcpClient.Calls and TcpClient.DiskClient are on messages
--     in pieces, on calls, and on calls of the disk server.
--   Disk: disk/src/disk.c on an image of bytes; Disk.Sectors is on its sectors.
--   DiskServer: disk/src/server.c from the bytes of a message to the reply; DiskServer.Requests and
--     DiskServer.Replies are on the requests that the file system prints.
--   DiskConsole: disk/src/main.c, the same commands on a terminal; DiskConsole.Agreement sets its
--     writes beside those of the server.
--   Cache: fs/src/cache.c over a backend that fetches and pushes blocks; Cache.Links is its linked
--     list, Cache.Wire its messages. Cache.Contents states what the cache needs of the server
--     behind it, as the record IsBlockServer, and what each block holds; Cache.WriteBack,
--     Cache.Alloc, Cache.Load, Cache.Access and Cache.Views lead to reads and writes; Cache.OnDisk
--     is about the disk server over the wire as such a server.
--   Fs: the state of the file system server and its monad, in which `none` is a crash. Fs.Block is
--     fs/src/block.c, and Fs.DiskInfo its question to the disk server; Fs.Layout, Fs.Inodes,
--     Fs.Bmap, Fs.FileIo and Fs.Remove are fs/src/inode.c; Fs.Dir is fs/src/dirop.c; Fs.Commands,
--     Fs.Edits, Fs.Directories and Fs.Paths are fs/src/fs.c; Fs.User is fs/src/user.c; Fs.Handle,
--     Fs.Accounts, Fs.Listing and Fs.Messages are fs/src/handle.c; Fs.Dispatch is fs/src/server.c
--     and fs/src/session.c. The proofs are in Fs.OnCache (blocks over the cache), Fs.Bitmap,
--     Fs.References, Fs.Removal, Fs.Encodings, Fs.PathSyntax, Fs.Permissions, Fs.Geometry,
--     Fs.Login, Fs.Fuel (the loops over bytes), Fs.Storage (the cache as the block layer needs it,
--     an interface), Fs.Mapping (the blocks of a file), Fs.FileBytes, Fs.FileBlocks, Fs.FileReads,
--     Fs.FileWrites and Fs.FileUpdates (the bytes of a file), Fs.Allocation (allocate_block),
--     Fs.StoredInodes (an inode to the disk and back) and Fs.Admission (the tests before a command,
--     and the handler that runs it).
--   Tests: the theorems at concrete inputs.
--
-- Numbers are natural numbers. An unsigned word keeps its wrap-around at 2 ^ 32; a counter of links
-- keeps that of 16 bits. An `int` that may be negative is an integer. Pointers to inodes and cache
-- entries are indices, and `NULL` is `none`. A session is part of the state while it is served.
-- `atoi` is that of the GNU C library, the low 32 bits of what `strtol` delivers.
--
-- Loops are structural, on a list or on a number that the source counts to, or on fuel. `read_loop`
-- and `write_loop` have one round for each byte of the request, and each round handles at least one
-- byte; the loops over a directory have one round for each entry.
--
-- `receive_info` and `client_recv` run over the events that the socket delivers, and
-- `handle_messages` on fuel 4097, more rounds than a buffer has bytes. `select`, `accept`, `recv`
-- and `send` are events, given to the model; a step of the server's main thread, or of a job, is
-- taken as a whole, so that the main thread never sees a connection half closed, and a failing
-- `select` is left out.
--
-- Not modelled: the set-up of sockets; lib/thpool.c, a copy of a library of others, of which a
-- job's step says what the server uses: a job that was added runs once; the mutexes of the sessions
-- and of the inode cache, since both programs run one thread for their jobs; the `mmap` of the
-- disk's file and its delays; what stands in memory behind a message or a line, so that a write
-- which copies more bytes than these have is a crash of the model; the log; `localtime_r` and `strftime`, whose text is a parameter;
-- `malloc`, which succeeds; fs/src/main.c, which calls the commands with signatures that they no
-- longer have; the code that is commented out; and the tests. Arrays on the stack are zeros before
-- their first write.
pub mod Base
pub mod TcpBuffer
pub mod TcpServer
pub mod TcpClient
pub mod Disk
pub mod DiskServer
pub mod DiskConsole
pub mod Cache
pub mod Fs
pub mod Tests
