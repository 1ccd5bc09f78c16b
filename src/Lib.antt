-- ===== src/Lib.antt =====
-- InstanceMessage: a chat server for Windows (IMServer) and its Qt client (IMClient).
--
-- The program. A client (IMClient/ckernel.cpp, with the windows that it drives) packs what the user
-- does into a struct of config.h and sends it, behind its length, over TCP (IMClient/Net/TcpClient.cpp).
-- The server takes the bytes off its I/O completion port (IMServer/IOCPTcpServer), hands each packet
-- as a task to a pool of threads in which a leader waits for tasks and the others follow
-- (IMServer/LFThreadPool), and the thread that takes the task calls the kernel (IMServer/CKernel.cpp),
-- which finds the handler by the type of the packet, asks the MySQL database (IMServer/MySQL), and
-- sends answers, or the packet itself, to the client that asked or to a friend's client.
--
-- The files.
--   Base        tests on numbers, byte strings, association lists, 32-bit words
--   Text        C strings, strcpy_s, sprintf_s; Text/Decimal: %d and std::stoi
--   Protocol    the constants of IMServer/config.h; Protocol/Messages: the structs, their
--               constructors, and their bytes; Protocol/Layout: where the receivers find the fields
--   Pool        IMServer/LFThreadPool/LFThreadPool.cpp. Loops: one run of a thread between taking and
--               giving up the mutex, one function for each of threadLoop, leaderLoop, followerLoop and
--               submit. System: the threads, the callers of submit and the destructor as a step
--               relation with any interleaving, notify_one with any choice of sleeper, and spurious
--               wake-ups. Runs, Invariant, Safety, Ending: the proofs
--   Iocp        IMServer/IOCPTcpServer/IOCPTCPServer.cpp. Completion: run for one client, one round
--               of workerThread, postRecvHeader, closeClient; Framing: its loop; Safety, Life: the proofs
--   Server      World: the members of Ckernel, the clients of IOCPTcpServer with sendData, and the
--               monad of the handlers; MySql: IMServer/MySQL/CMySql.cpp and SqlManager.cpp, the
--               connection in Connection; Sql: the statements; Kernel: IMServer/CKernel.cpp, a
--               function for each of its functions, the handlers as Info, Account, Chat, Friends, and Dispatch for dealData and initFunArrry;
--               Rules: the handlers as built from the operations of the monad, for any property
--               of these; Frame, Framed, Online: properties of that kind; Serving: packets,
--               connections and completions one after the other, and Lost, what a closed
--               connection leaves behind; Accounts: the table
--               of users as an interface, with registration and login on a plain list of accounts,
--               and a small database; Registration, Sessions, Membership: dealRegisterRq and
--               dealLoginRq against that list; Login, Dispatching, Chatting, Leaving, Friendship,
--               Short, Tables: further proofs
--   Client      TcpClient: IMClient/Net/TcpClient.cpp, sendData and recvData; State: the members of
--               CKernel and the windows; Received: the handlers of received packets of
--               IMClient/ckernel.cpp with friendform.cpp and chatdialog.cpp; Slots: its slots, with
--               the forms of logindialog.cpp, chatdialog.cpp and friendlist.cpp; Windows: the
--               constructor, the line edits, the menu, and the loop of events of main.cpp;
--               Reassembly, Keeps, Sync, Order, Session, Silence, Dispatching, Forms: the proofs
--   Network     how the networks of IMClient/Net are opened and closed, with what they take from the
--               system. Lifecycle: initNet and unInitNet of TcpClient.cpp; TcpServer: TcpServer.cpp;
--               Udp: Udp.cpp; Mediators: the three classes of IMClient/Mediator over the interface
--               of INet.h, and the end of slot_closeProcess; Closing, Twice, Echo: the proofs
--   Instance    the lazily made instances, Ckernel::instance of IMServer/CKernel.cpp and
--               SQLManager::getInstance of IMServer/MySQL/SqlManager.cpp, as a step relation
--   Upload      the bytes of the client's sendData as tasks of the server's pool
--   Delivery    the bytes of the server's sendData as packets at the client
--   Profile     the data of a user from the database to the list of friends of another user
--   Announcing  a login from the request to the lists of friends of the other users
--   Befriending  a request for friendship from one client over the server to the other, and back
--   Audio       IMClient/opus. Encoder: opusencoder.cpp; Decoder: opusdecoder.cpp; Frames, Played:
--               the proofs
--   Conversation  a chat message from the sender's client over the server to the friend's client
-- A module Examples holds the theorems of its part at concrete inputs.
--
-- Choices. An int is its 32-bit pattern, a natural number below 2 ^ 32, and is printed and
-- compared with its sign. Reads outside a buffer, calls of the invalid-parameter handler, uncaught
-- exceptions and exit(0) are outcomes of the server's monad (`Stop`), and `none` at the client. A
-- handler of the server runs by itself: the races of several pool threads on the map of online
-- users and on the one MySQL connection are not modelled. The pool is modelled with all its
-- interleavings, with the task abstract. `recv_data` has fuel for the rounds of its loop, one more
-- than there are packets, and `serve_stream` for the completions, two for each packet; `capture`
-- has fuel for the frames that are ready, one round more than there are bytes; `%d` has ten
-- digits at most, enough below 2 ^ 32; every other loop is structural.
--
-- Parameters. The MySQL client library is the records MySqlClient, for the connection, and
-- MySqlDriver: `mysql_query` and `mysql_store_result` on an abstract database. Qt's text codec is
-- the record Codec. What the sockets deliver, whether a call of them fails, and what the user answers are arguments. The
-- table of users is the record UserTable: what a connected database answers to the statements that
-- the handlers send, where the texts have no quote and fit their columns. The winsock calls of
-- IMClient/Net are arguments too: Answers, and for `recv` and `recvfrom` what they deliver. The
-- opus library is the records Opus and OpusPlayer, with Documented for what opus_decode writes;
-- what the microphone delivers is an argument. The database with the data of users and
-- their friends is the record Directory; what the two insertions of a friendship make of it is the
-- record Befriends.
--
-- Not modelled: the painting of windows, icons and the time beside a chat line; the log output;
-- the Sleep(2) before the data of a login; the threads of IMClient/Net, beyond the calls that
-- start and end them; the forwarding of sendData and transmitData by the mediators; the main
-- function of the server, which makes the objects and calls startServer; the opus library, of
-- which IMClient/opus has a copy of the headers; what becomes of a `WSASend` that fails, after which
-- sendData frees its copy and tells nobody. Where the texts of a request are taken to hold no quote
-- and no backslash, other texts change the statements that the handlers send.
pub mod Base
pub mod Text
pub mod Protocol
pub mod Server
pub mod Pool
pub mod Iocp
pub mod Network
pub mod Instance
pub mod Client
pub mod Conversation
pub mod Audio
pub mod Profile
pub mod Announcing
pub mod Befriending
pub mod Upload
pub mod Delivery
