-- ===== src/Lib.antt =====
-- The verification library of the chat server.
--
-- The program is a chat server in C++. Sessions over WebSocket (src/WebSocketSession.cpp) and over
-- TCP (src/ChatSession.cpp) turn what a client writes into calls of `ChatServer`
-- (src/ChatServer.cpp). The server keeps the sessions, the nicknames and the rooms
-- (src/ChatRoom.cpp), posts messages to the sessions, and logs them in a `MessageHistory`
-- (src/MessageHistory.cpp). Beside it an HTTP server (src/HttpServer.cpp) answers requests, some of
-- them by a places API.
--
-- The files and the code that they are about:
--   Prelude: tests, lists, byte strings, ordered maps and sets, which stand for `std::map` and
--     `std::set`.
--   History/Paths, Writing, Reading, Store: src/MessageHistory.cpp, from the file names to the
--     class. The children of each hold what is proved of it.
--   Chat/State: the records for `ChatServer`, `ChatRoom` and the part of a session that the server
--     sees (include/SessionInterface.hpp).
--   Chat/Room: src/ChatRoom.cpp.
--   Chat/Broadcast, Nicknames, Rooms, Server: src/ChatServer.cpp.
--   Chat/Server/Requests: the calls as data, and histories of them.
--   Chat/Server/Strand: the calls with the tasks that they post to the strand, and the handlers of
--     private messages in the pool of threads.
--   Chat/Accounts: `UserAccount`, `FileTransferInfo` and `hash_password` of include/ChatServer.hpp
--     and src/ChatServer.cpp.
--   Sessions/Words: the words of a line, as `std::istringstream` reads them.
--   Sessions/WebSocket, Sessions/WebSocket/Calls: src/WebSocketSession.cpp.
--   Sessions/Tcp, Sessions/Tcp/Calls: src/ChatSession.cpp.
--   Sessions/Posted: the tasks posted to one session, and the messages that they queue.
--   Sessions/WebSocket/System, Sessions/Tcp/System: the server with its sessions, driven by the
--     events of their streams or sockets and the tasks on their strands.
--   Http: the session of src/HttpServer.cpp.
--   Places: src/handlers/PlacesApiHandler.cpp. Places/Json is what it uses of Boost.JSON,
--     Connection the loop that connects, Transforming the places of a reply, Api the exchange with
--     the API, Handlers the searches and the details, and Photo the photo with its
--     redirect. Serving puts the handlers behind the HTTP session of src/HttpServer.cpp.
--   Config: src/main.cpp, the environment; Config holds the numbers of threads of
--     src/HttpServer.cpp too.
--   Listening: src/ChatListener.cpp, src/WebSocketListener.cpp, and `HttpListener` and `HttpServer`
--     of src/HttpServer.cpp.
--   Startup: `main` of src/main.cpp, which makes the servers of Listening and Chat/Server, starts
--     them, and stops them at a signal.
--   Tests: the theorems at concrete inputs.
--
-- State and steps. Sessions are numbers; `Hub` maps each number to what the server reads of the
-- session, and lists the tasks posted to the strands of sessions, oldest first: that of `deliver`,
-- which queues a message, and that of `broadcast_impl`, which calls `deliver`. A set of sessions is
-- ascending; its order in the program is that of the addresses. In Chat/Server/Requests a task that
-- the code posts to a strand is one step at the time when it runs, with the guards of the call and
-- of the task together, as in `leave_room_async`; the mutexes make each access to a map one step.
-- Chat/Server/Strand separates them: the guards at the call, and the queue of the posted tasks with
-- what each has captured, and the handlers that may run in any order. It relates the two. In
-- Sessions/WebSocket/System and Sessions/Tcp/System each session runs the tasks posted to it one
-- after another, at any time later; a task that calls `deliver` puts another one behind all those
-- that wait. The `stop_session` that a failed write of a TCP session posts may come at any time
-- too. A command and its callback are one step there. `alive` says whether a `weak_ptr` to a session
-- can be locked.
-- Undefined behaviour (the dereference of `end()`, `pop` on an empty queue) is `none`.
--
-- The environment. One call gets an `Io`: the text of the clock, whether `open`, `fsync` and `close`
-- succeed, and what the calls of `write` answer, one after another. A count above what was asked,
-- which POSIX rules out, reads as all of it. A list that ends before the loop is an append that has
-- not returned (`blocked`). Exceptions for lack of memory are not modelled.
--
-- The places API. JSON values are a data type; an object keeps its fields in the order of
-- insertion. The parser, the serializer, the arithmetic of `double` and the texts of exceptions are
-- the record `Library` of Places/Json, an argument of every definition that uses them. An exception
-- is `throw` of a `Result`. What the network answers is an argument too: what each round of the
-- connect loop meets, and the reply. Positions in a string are 64-bit numbers, and `npos + 3` wraps
-- around.
--
-- Loops are recursion on the data that they consume. `to_string` has fuel for twenty digits, which
-- is enough for every 64-bit number. The connect loop is recursion on the number of tries that
-- remain, which are three at the start.
--
-- src/main.cpp starts the HTTP server and the listener for WebSocket sessions; it makes no
-- `ChatListener`, so TCP sessions are a part of the repository that no program of it starts.
--
-- `shared_from_this()` stands for the session itself, as its comment says; in
-- include/ChatSession.hpp it calls itself instead, so the model of src/ChatSession.cpp is about
-- the code with that function corrected.
--
-- Not modelled: sockets, handshakes, TLS and signals, which are calls of Boost; the threads
-- themselves; the console settings of src/main.cpp for Windows; the Windows branch of
-- `append_history_line`; `FileTransferInfo::progress`, a quotient of type `double`; the
-- placeholders for configuration and users, which only log.
pub mod Prelude
pub mod History
pub mod Chat
pub mod Sessions
pub mod Http
pub mod Places
pub mod Config
pub mod Listening
pub mod Startup
pub mod Tests
