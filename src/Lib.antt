-- ===== src/Lib.antt =====
-- ed2kd, an eDonkey 2000 server: a verification library of its core.
--
-- The server reads packets from clients, checks whether a client can be reached from outside,
-- keeps the files that clients share in an SQLite database, and answers searches. The parts and
-- the files that model them (paths are those of the repository):
--
-- - Base, Wire: the shared helpers; src/packet.h, the packet buffer and its PB_ macros, as
--   handlers that pass on an address and a state, or leave by `malformed`. Memory is total:
--   a macro loads before it checks, and what lies behind the end of a packet is arbitrary.
--   Wire/Locality, Wire/Keeping and Wire/Advance hold the rules by which the handlers are proved.
-- - Proto: the constants of src/ed2k_proto.h and the limits of the other headers.
-- - Util: src/util.c and src/util.h (hex, file types, extensions, the token bucket).
-- - State: the world of a handler: g_srv and its configuration (src/server.h), the client
--   (src/client.h), the database, and what was sent. A use of memory that is not there is a fault.
-- - Db: src/db_sqlite.c over its prepared statements, whose answers are the parameter `Sqlite`.
--   Db/Tables has the tables, the triggers and the index of names of db_create, as an instance of
--   that parameter; Search/Query/Select has the meaning of the query of a search on them. Db/Moves
--   is what the server can do to the database; Db/Handles has the connection and the prepared
--   statements of a worker, from db_open to db_close.
-- - Packet: src/packet.c, the packets that are sent, byte for byte.
-- - Client: src/client.c, the life of a client: creation, deletion, low ids, sharing.
-- - Login, Offer: process_login_request and process_offer_files of src/server.c.
-- - Search: process_search_request of src/server.c, whose loop follows parent pointers; the
--   ancestors of the current node are a list of frames. Search/Query is db_search_files with
--   client_search_files.
-- - Dispatch: process_packet, server_read and server_event of src/server.c.
-- - Portcheck: src/portcheck.c.
-- - Listener: src/listener.c, which lets clients in.
-- - Job: src/job.c and the switch of server_job_worker of src/server.c, from a job to its handler.
--   Job/Steady, Job/Alive, Job/Handlers, Job/Packets and Job/Switch follow what handlers leave
--   alone.
-- - Pool: the workers of src/server.c over the queue of jobs, with the callbacks, as steps of threads
--   in any order. Pool/References, Pool/Locks, Pool/Users, Pool/Progress and Pool/Race are about the
--   reference counters, the lock of a client, the counter of users, the end of the work, and
--   client_decref; Pool/Files about the counter of files, Pool/Stored about the database. Pool/Sleep
--   has the condition variable of the queue and the scan under its lock, and Pool/Wake is about them.
--   Base/Family has the families that they use.
-- - Config: src/config.c, with what libconfig says of a file as the parameter `Settings`.
-- - Main: src/main.c, but for what the threads do. Log: src/log.c.
-- - Eb: eb/src/main.c, the benchmark client; Eb/Main is its main, and Eb/Login is about the packets
--   between it and the server.
-- - Examples: concrete runs.
--
-- How the parts interact: server_read of Dispatch cuts the input into packets and calls
-- process_packet, which calls the handlers of Login, Offer and Search; these read with Wire, call
-- Client, and through it Db and Packet. Login starts the port check, whose answers come to
-- Portcheck, which ends it with client_portcheck_finish of Client. All of them are called by the
-- workers of Pool, for the jobs that the callbacks of Job bring; Listener brings the clients.
--
-- Integers are natural numbers with the wrap-around of C written out (`u32`, `u64`). The token
-- bucket's double holds whole numbers only, and is an integer here. Fuel: the loop of a search
-- has one round more than there are bytes, the walk of db_search_files one pass for a leaf, three
-- for a logical node and one at the end, and the loop of server_read one round more than there are
-- bytes of input, as has that of read_cb of eb; what is proved of their ends is in the list below.
--
-- Outside the repository, and so parameters: SQLite (the record `Sqlite` of Db), the clock,
-- libevent's connections, zlib and the memory behind buffers (the record `System` of State).
-- What test of names fts4 makes of an expression, or that it refuses it, is a parameter of
-- Search/Query/Select. In Db/Tables no statement fails: that SQLite may answer SQLITE_LOCKED to a
-- thread is in the parameter `Sqlite`, not in the tables.
-- Not modelled: src/queue.h, a copy of another project's header, and src/atomic.h. In Pool a
-- handler is one step of its worker, and so is accept_cb, although handlers of different clients
-- overlap. So nothing is proved of the points within a handler, of the listener, whose switching is
-- not atomic with the counter of users, or of the tables under several workers. A scan of the queue
-- is seen with locks that are given back while it goes on. The counter of low ids is also seen with
-- other threads.
pub mod Base
pub mod Wire
pub mod Proto
pub mod Util
pub mod State
pub mod Db
pub mod Packet
pub mod Client
pub mod Login
pub mod Offer
pub mod Search
pub mod Dispatch
pub mod Listener
pub mod Job
pub mod Pool
pub mod Eb
pub mod Config
pub mod Main
pub mod Log
pub mod Portcheck
pub mod Examples
