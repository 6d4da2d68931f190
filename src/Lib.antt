-- ===== src/Lib.antt =====
-- The programs of a course on systems programming in C: an allocator (lecture/test2), a map-
-- reduce framework (lecture/test3), a group chat (lecture/test4), a shell (lecture/test) and
-- small programs of lab. They are separate programs that share no code; what they share here is
-- Prelude, and Text for strings.
--
-- * Prelude passes on the native numbers, lists and options, with the machine's arithmetic (add64
--   and sub64 wrap around) and Run, the result of code that may fault or run out of fuel. Text is
--   a C string as the list of its characters before the final 0, and Text/Tokens is `strtok`, which
--   both shells use.
-- * Memory is a heap of the headers of lecture/test2/alloc.h: the free list as a chain of blocks
--   (Memory/Seg) and the bytes that a list of blocks covers (Memory/Cover).
-- * Alloc is lecture/test2/alloc.c, with sbrk as an interface (Alloc/Sbrk). Alloc/FreeList has
--   the loops over the free list: the policies (Fit), the merge of two blocks (Merge) and the
--   search for blocks to merge (Coalesce). Release is about dealloc, Place and Reuse about alloc
--   after a dealloc, Bump about alloc before it, Statistics about allocinfo.
-- * Alloc2 is lecture/test2/alloc2.c, an allocator with the same header and the same policies:
--   its alloc next to that of alloc.c (Same), and its dealloc on blocks that adjoin (Pass).
-- * MapReduce is lecture/test3/src/interface.c: the split of the input (Chunks), one emission
--   (Emit) and the emissions of all threads (Threads) of the map phase; Final is the reduce phase
--   with its emissions (Final/Emit) and the output (Final/Output).
-- * Chat is lecture/test4/servertest.c: the messages of a client (Frame), the loop over its
--   buffer (Drain), the two-phase commit (Commit), the table of clients and the broadcast worker
--   (Clients), and all its threads with the clean-up of main (Threads): what a turn keeps (Turns,
--   Bounds), the order of the two phases of the commit (Phases), how the threads and the server
--   come to their ends (Ends, Exit), and when they cannot (Stuck); Chat/Client is
--   lecture/test4/client.c, its receiver (Receive) with reads that cut the stream anywhere (Part,
--   Stream), and the way of a message from a sender through
--   the server to a receiver (Trip).
-- * Select is lecture/test4/server.c, the server of the chat with one thread for all clients: its
--   messages next to those of servertest.c (Message), a round of the loop of main (Loop), which
--   buffer belongs to which client (Buffers), and main with its clean-up next to the broadcast
--   worker (Threads), up to the exit (Threads/Exit).
-- * Shell is lecture/test/test.c: the history (History), against the list of the last ten
--   commands (Refine) and against what `history` prints (Recall); the words of a line (Words);
--   and rounds of the loop of main, with what the system does as the environment of a round
--   (Rounds, Repeat, Directory).
-- * Shell2 is lecture/test/test2.c, a second shell with the same commands: its history next to that
--   of test.c (History/Recall), its array of arguments (Args), sessions with it (Session) and what
--   `cd` makes of an argument that the line has not set (Stale).
-- * SortedList is the second program of lab/lab6.c: its insertion (Insert) and its search
--   (Index).
-- * Grouping is lab/lab7.c up to its reduce phase: the grouping (Group) behind the mapping
--   (Double).
-- * Collect is lab/server.c, from its server on: the list of messages (Chain), the turns of the
--   threads in any order (Turns), and how they come to an end (Ends).
-- * Tally is lab/lab9.c/server.c: its two counters, over the threads of its clients in any order of
--   their turns (Counts).
-- * WordCount is lab/lab8.c: what one thread counts (Occurs), and three threads with their lock
--   (Stuck); its hash table is an interface, too.
-- * Placement is lab/lab5.c, its three policies; InputHistory is lab/lab3.c.
--
-- A loop over the free list is given a fuel, the number of nodes that it may visit; the theorems
-- ask for more than the length of the list. The loop over a client's buffer is given more than
-- the bytes in the buffer, and the loop of server.c over its clients more than their number. The
-- threads of map-reduce and of the chat take a mutex for each change of what they share; a run is
-- a sequence of such steps in any order.
--
-- Not modelled: most of what is printed, user data in the heap, that the headers of blocks less than 16
-- bytes apart would overlap, a malloc that fails in the queues of the two chat servers (server.c drops
-- the message then, servertest.c exits), the hash table of uthash.h, which
-- is an interface with its documented behaviour, the set-up and the closing of sockets, signals and
-- the process that a shell forks, the other programs of lab/ and the other programs of lecture/,
-- most of which are sequences of system calls.
pub mod Prelude
pub mod Memory
pub mod Alloc
pub mod Alloc2
pub mod Text
pub mod WordCount
pub mod MapReduce
pub mod Chat
pub mod Collect
pub mod Tally
pub mod SortedList
pub mod Grouping
pub mod InputHistory
pub mod Placement
pub mod Shell
pub mod Shell2
pub mod Select
