-- ===== src/Lib.antt =====
-- A model of the uubang_iot server, a C program that connects users and IoT devices. Paths are
-- from the repository's root.
--
-- The server accepts connections (src/AcceptClient.c) and puts each on a list that is pinged
-- (src/FreeOutConnMem.c). What arrives becomes a request, a copy of the connection's `CLN`, which
-- a worker thread (src/ServerWorkThread.c) queues for `talk` (src/Talk.c). `talk` hashes the first
-- three characters of the code, switches on the hash, and calls the functions for sign-in,
-- messages and scenes, which read the user lists and lease a connection from the MySQL pool.
-- Requests of devices go to `IoTtalk` (src/IoT_Talk.c). A connection that no longer answers a ping
-- goes through the thread pool to the list of those that wait to be freed.
--
--   Base        helpers: lists, integers, Boolean tests, positions in a ring
--   Text        src/hash.c, src/StrSplit.c, src/String.c, src/kaisaEncrypt.c, src/GenerateRandStr.c
--   Rsa         src/RSAUtils.c: `modpow`, `gcd`, `inverse`, `InitRSA`, `encodeMessage`,
--               `decodeMessage`
--   Registry    the user lists of head/SERVER.h: Find (FindOnlineUserOrIot, FindRegisterUserOrIotNode),
--               Check (Check_Id_Pwd), Online (newOnlineUserOrIotDev, AddtoLocal, delete_out_user),
--               SignIn (SIGNIN)
--   SqlPool     src/sqlpool.c and src/MySqlConnInit.c: `sql_pool_create` to `changeNodeNum`
--   ThreadPool  src/libThreadPool.c: workers, administrator and users as steps on one pool
--   Connections src/AcceptClient.c and src/FreeOutConnMem.c, which calls Registry's delete_out_user
--   Receive     src/ServerWorkThread.c: a completed read, up to the queue of requests
--   Packets     src/CopyCln2Sendbag.c and src/CopyIotData.c: what is received, copied into a request
--   Talk        src/Talk.c: the cases of the switch as lists of actions, on Text's hash and split
--   Sql         the SQL commands, one file of src/ each: the statements they build (Statements,
--               Selects), those that write (Writes) and those that send the rows they read (Reads), on SqlPool
--   Registration  src/Register.c, src/UserRegister.c, src/IotDevRegister.c, src/UserRePwd.c and
--               src/UpdateRegiterIotAndUser.c, on Sql and Registry
--   Iot         src/IoT_Talk.c: the requests of devices, on Registration, Sql, Rsa and Text
--   TopServer   src/Send2OnlineUserViaAllServer.c: messages from other servers
--   Daily       src/CreateDailyMsgdb.c: the tries to create the table of a day
--   Timer       src/CheckUserSceneCmd.c: what each round of the timer's thread does
--   Tests       runs on concrete inputs
--
-- State is a record that each function returns anew. A definition has the name of its C function
-- in snake case; the helpers of one function stand before it. The thread pool is a step function
-- on critical sections, and `Reachable` takes them in any order; the other modules run a call at
-- once, also where the code reads and writes lists and counters without a mutex. What MySQL, sockets,
-- `malloc` and `rand` answer comes as an argument: a failed query, a result that is not there, no
-- memory, a packet that does not go out. Some answers are not modelled: in `str_split` and for the task
-- of `accept_client` `malloc` succeeds, in `admin_grow` `pthread_create` does, and no column of a
-- row is NULL. Memory keeps its content when it is freed; a freed node that is still linked is
-- what `IsSafe` excludes. `atoi` reads no '-' sign, and the numbers of a device's name and password are
-- read as not negative.
--
-- From Sql on, the code is written in a state monad. A `Session` holds the pool, the user lists,
-- the sequence number of the connection and a log of what was done, the last event first; a
-- `World` holds what is outside, whose answers may depend on the log. A run ends with a result or
-- with `crashes`, where the code reads through NULL. A function whose C code changes a request
-- returns the changed one.
--
-- Loops over lists are structural. `get_loop`, `create_loop` and `shrink_loop` run on the number
-- of rounds of their `for`. `destroy_loop` has one round more than there are nodes, and each round
-- lowers their number. `malloc_loop` has the 100 rounds of its test. `modpow` has b rounds, since
-- b is halved, and `gcd` and `inverse` have b + 1, since b falls. Loops over the rows of a result
-- are structural. `create_tries` has the 100 rounds of its test. `decimal` writes ten digits at
-- most, enough for an `int`.
--
-- Numbers are natural where the C code keeps them at zero or above; each subtraction stands behind
-- a test or under an invariant that keeps it so. `DJBHash` and the cipher keep the wrap-around of
-- their types. `int` overflow in `rand_exponent_loop` and in key generation is not modelled.
--
-- Not modelled: the drawing of primes for RSA keys, the sizes of the buffers that statements and
-- packets are written to, start-up, logging and the libraries. They are parameters where the
-- modelled code calls them.
pub mod Base
pub mod Text
pub mod Registry
pub mod Sql
pub mod Registration
pub mod Iot
pub mod TopServer
pub mod Daily
pub mod Timer
pub mod SqlPool
pub mod ThreadPool
pub mod Connections
pub mod Rsa
pub mod Receive
pub mod Packets
pub mod Talk
pub mod Tests
