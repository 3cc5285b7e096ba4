-- ===== src/Lib.antt =====
-- The network file system: a naming server that knows which storage server holds which path, storage
-- servers that hold the files, and clients. This library models all three programs. The naming server
-- rests on two data structures, a tree from paths to servers and a cache of recent lookups; the storage
-- server on a table of file locks and on the operations on files. A client asks the naming server, which
-- answers or directs it to a storage server.
--
-- The parts, and the files that model them:
--
--   Common        common.h: the message, its enumerations, the error codes and the limits.
--   Sockets       utils.c: the wrappers of the socket calls, and the sequences of calls that all three
--                 programs make: a round trip (`exchange`, and `exchange_open` with the descriptors), a
--                 listening port (`open_port`).
--   Connections   what the loops of the two servers' main have in common: a round that accepts a
--                 connection and makes a thread, and how a handler begins and ends. `Connections.Ledger`
--                 accounts for descriptors and memory. A program is a `Program`, which
--                 `NamingServer.Loop` and `StorageServer.Loop` give.
--   Hash          the string hash of lru_cache.c, which ss_file_operations.c repeats.
--   Trie          trie.c and trie.h. `Trie.Lookup` is about search after insert and delete,
--                 `Trie.AllPaths` and `Trie.Collect` about the list of paths, `Trie.Free` about
--                 free_trie. `Trie.Threads` has insert, search and delete in several threads, on nodes
--                 in memory.
--   ServerInfo    StorageServerInfo of trie.h and the updates of its paths in naming_server.c;
--                 `ServerInfo.Erase` relates them to lists.
--   LruCache      lru_cache.c and lru_cache.h. `LruCache.State` has the nodes, the heap and the
--                 statements, `LruCache` the functions; `Shape`, `Relink`, `Memory`, `Steps`, `Move`
--                 and `Walk` are about linked lists in that heap; `Spec`, `Get`, `Put`, `Evict`,
--                 `Remove` and `Destroy` say what each function does to a list of cells and a table;
--                 `Invariant`, `Session`, `Answers`, `Dangling` and `Pointer` follow sequences of calls.
--   FileLocks     the table of locks of ss_file_operations.c; `FileLocks.Map` reads it as a map from
--                 paths to locks, `FileLocks.Holders` says what the operations do to that map,
--                 `FileLocks.Settled` what an acquisition and its release leave, `FileLocks.Threads`
--                 interleaves threads that acquire and release.
--   FileOperations
--                 the operations on files of ss_file_operations.c; `FileOperations.Effects` says what
--                 they leave of the files.
--   StorageServer storage_server.c: the two handlers, one function for each case of their switches.
--                 `Locking` is about the locks, `Service` and `Sequence` about requests one after
--                 another, `Contents` and `Copied` about what is read after a write and after a copy,
--                 `Interleaved` is about requests in several threads. `Startup` is the start of main,
--                 `Startup.Registration` relates it to the naming server, `Loop` is its loop around
--                 select.
--   NamingServer  naming_server.c. `NamingServer.State` has the globals and what a connection gets
--                 from outside, `NamingServer` has `handle_connection`, one function for each case of
--                 its switch; `Shape`, `Endings` and `Reachable` are about the invariant of the
--                 registry, `Turns` about the round robin, `Requests`, `Creation`, `Deletion`,
--                 `Copying`, `Location`, `EndToEnd`, `UseAfterFree` and `Reregistered` about requests,
--                 `Threads` about the start of main and requests in threads, `Loop` about the loop of
--                 main.
--   Client        client.c: `main`. `Client.Commands` is about the command line; `Client.EndToEnd`,
--                 `Client.Changes` and `Client.Everywhere` are about a command that runs through all
--                 three programs.
--   Base          names and lemmas that all of them use.
--
-- Functions and fields keep their names; lru_cache.c's hash_path is `hash_path`, and the helper
-- _trie_collect_paths_recursive is `collect_paths_recursive`. A field `data` of a message is `content`,
-- since `data` is a keyword. The `main` of storage_server.c is `start_up`, that of client.c `run`.
--
-- How the program is modelled:
--
--   A buffer that holds a C string is the list of its bytes before the terminator, and the content of a
--   message the bytes of `data` from its start, behind which there are zeros. Strings end within their
--   buffers.
--   Where a program copies an argument of its command line into an array, the code tests no length; a copy
--   past the end is undefined, and a result of its own in the model (`overrun`). `char` is signed, as on
--   x86; the hash is computed modulo 2 ^ 32. The `int` fields are natural numbers, and the operation of a
--   message is one of the eleven that common.h names. `data_size` is the number that fwrite takes it for,
--   so a negative one is a large one. A negative num_accessible_paths is left out: the statements about
--   REGISTER_SS are for counts from 0 on. What atoi reads is an argument.
--
--   The tree owns its nodes, so it is a value; in `Trie.Threads` its nodes are in memory, at addresses that
--   malloc gives, and a step is what a thread does under the lock of one node, or the read of a child
--   that the code makes between two locks. Its allocations succeed. The field ss_info of a node,
--   a pointer into the array registered_ss, is an index of that array.
--
--   The nodes of the cache live in a heap that gives each address a node or nothing. To read or write at
--   NULL or where no node lives is `fault`, also after free. What malloc returns is an argument. `lru_get`
--   is the C function with the read that its caller makes through the pointer, which `lru_get_pointer`
--   returns; the handlers, in `NamingServer.Threads` too, do both at once. The
--   loops along `next` get one round of fuel more than the cache counts entries. In a well-linked list
--   no walk meets more nodes than that, and the statements about the functions give a result, which is
--   never `out_of_fuel`.
--
--   The socket calls are the argument `System`: what each of them gives, and what comes back on a
--   connection. A reply may be any message. The naming server gets it, with the result of malloc, as
--   `Outside`. A handler of the naming server ends with a response, without one, with a fault
--   (`crashed`), or not (`hangs`). An access past an array of known size is a fault.
--
--   The handlers of the naming server run a request to its end in one step, and the statements about
--   them speak of one request after another. `NamingServer.Threads` has the same requests in threads
--   that are interleaved: a step is one critical section or a call between two. An operation of the tree
--   is one step there, which the statement about `Trie.Threads` answers for, but for the list of all paths.
--   REGISTER_SS has no thread there: searches in other threads can find its paths before its server counts.
--
--   In `Connections` an open descriptor stands in a list, and so does a block of memory, with its address
--   and the descriptor in it. What malloc, accept and pthread_create give in each round is an argument.
--   The code of pthread_create is an integer: 0 says that there is a thread, a negative one ends the round,
--   and with a positive one the code calls pthread_detach on a thread_id that is not set, which is
--   undefined and has no next round in the model. The connections are those that were accepted; the
--   sockets that a handler opens for a round trip are those of `exchange_open`.
--
--   The read-write locks of pthreads are the argument `RwLocks`, and a call that has to wait is a
--   result, `blocked`. A handler of the storage server that has to wait ends there (`waits`), as does one
--   that reads past the array of a message (`faults`); otherwise it runs from its lock to its release in
--   one step, and the statements about it speak of one request after another. `FileLocks.Threads` has the acquisitions and
--   releases of any number of threads in any order, and `StorageServer.Interleaved` the steps of their
--   reads, writes, creations and removals of files between them, where a write has two steps and may be
--   cut short. The bytes of a write are those that fwrite takes. Directories and GET_FILE_INFO have no
--   steps there, and its requests are for paths of which no two name one file.
--
--   The file system under a storage server is the argument `FileSystem`. A call that fails leaves the
--   files as they were, except fwrite, which may write a part.
--
--   Where a statement joins two programs, it says that what one of them answers is what comes back on
--   the other's connection.
--
-- Not modelled: what stands behind the endless loops of the servers, where main would call free_trie
-- and lru_destroy; log_message and the texts that the client prints around paths and bytes, which change
-- nothing that the programs keep; what select and accept wait for.
mod Base
pub mod Common
pub mod Hash
pub mod Sockets
pub mod Connections
pub mod Trie
pub mod ServerInfo
pub mod LruCache
pub mod NamingServer
pub mod FileLocks
pub mod FileOperations
pub mod StorageServer
pub mod Client
