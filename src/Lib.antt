-- ===== src/Lib.antt =====
-- CarfLib: a reactor network library in C++ and the web server built on it.
--
-- The program's parts and how they interact. An EventLoop waits on epoll and calls the handlers of
-- ready channels (net/). A TcpConnection reads from its socket into a Buffer and hands the Buffer to
-- the message callback. HttpServer installs that callback (http/): HttpContext parses the bytes in the
-- Buffer into an HttpRequest, HttpServer chooses a page, an HttpResponse is written to another Buffer,
-- and its bytes are sent on the connection. LogFile and BlockQueue (base/) take the log lines of all
-- threads to one writing thread.
--
-- Which file models which part:
--   Shared          Boolean tests, lists over the native numbers, byte strings
--   Shared.StdMap   std::map as an association list in key order, with its laws
--   Shared.Stoi     std::stoi;  Shared.Decimal  the %d of printf
--   Net.Buffer      net/Buffer.h, net/Buffer.cc: append, resize, retrieveLen, findCRLF, in View (the
--                   content), Grow (append), Resize (the fault of resize) and Search (findCRLF)
--   Http.HttpRequest    http/HttpRequest.h: setMethod, methodString, addHeader, getHeader
--   Http.HttpContext    http/HttpContext.h, http/HttpContext.cc: processRequestLine and parseRequest.
--                   Text is the parser over plain bytes, Refines relates the two, Terminates shows
--                   that the fuel is enough, Chunks and Prefix are about input in pieces, Lines about
--                   single lines, RoundTrip and Body about whole requests, Headers about the
--                   order of header lines
--   Http.HttpResponse   http/HttpResponse.h, http/HttpResponse.cc: appendToBuffer
--   Http.HttpServer     http/HttpServer.h, http/HttpServer.cc: onMessage, onRequest and
--                   defaultHttpCallback; Database is its use of the pool; Accounts, Replies, Messages
--                   and Pooled hold the theorems
--   Http.SqlConnectionPool  http/sql_connection_pool.h, http/sql_connection_pool.cc; Threads and
--                   Threads.Steps interleave the threads that take and release, Threads.Enough
--                   is about few threads, Raii about connectionRAII
--   Net.TcpConnection   net/TcpConnection.h, net/TcpConnection.cc: Sending, Receiving, Expiry,
--                   Events, and Watching (the connection, its channel and the kernel's interest)
--   Net.TimerQueue  net/TimerQueue.h, net/TimerQueue.cc: Due and Idle (timers that run), Wait (the timer
--                   descriptor)
--   Net.Epoll       net/Epoll.cc, net/Channel.h, net/Channel.cc: the changes of a channel and
--                   updateChannel; Interest relates them to the descriptors that the kernel watches;
--                   Wait is about epollWait and handleEvent
--   Net.EventLoop   net/EventLoop.h, net/EventLoop.cc: the loop and the threads that queue tasks
--   Net.EventLoopThreadPool  net/EventLoopThreadPool.h, net/EventLoopThreadPool.cc: Turns (getNextLoop)
--                   and Start (start with its threads: Stores, Steps, Ends, Progress)
--   Net.TcpServer   net/TcpServer.h, net/TcpServer.cc: Numbers, Steps and Started (the map of
--                   connections), Turns (their loops), Removal, Lost (timers that expire
--                   together), Address (what is bound, and names), and Timed (a timer's life through server,
--                   queue and connection)
--   Http.Serving    a TcpConnection with the callback of HttpServer, from the bytes read to those written:
--                   Answers (the event that completes a request) and Pieces (all its events)
--   Main            main.cc: what the program sets up and starts before its loop
--   Base.Thread     base/Thread.h, base/Thread.cc: Lifecycle (the assertions) and Wakeup (start's wait)
--   Base.Timestamp  base/Timestamp.h, base/Timestamp.cc
--   Base.Logger     base/Logger.h, base/Logger.cc; Shared.Format is the padded decimals of printf
--   Base.BlockQueue base/BlockQueue.h; Threads interleaves the threads at its conditions
--   Base.LogFile    base/LogFile.h, base/LogFile.cc: append_file, asyWrite and rollFile; Rolling, Names, and
--                   Asynchronous (the queue, the writing thread and setOver)
--   Tests           concrete inputs, and each theorem applied at one of them
--
-- How state and operations correspond. An object is a record of its fields, a method a function that
-- returns the new record; `none` stands for undefined behaviour, an uncaught exception, or, where the
-- comment says so, a thread that waits. Bytes are numbers, strings and pointer ranges are lists of
-- them. What the process gets from outside (files, the working directory, the database, clocks, the
-- results of system calls) is an argument.
--
-- Bounds and fuel. Sizes and indices are natural numbers; int does not overflow while a buffer is below
-- 2^30 bytes. `grow` has as much fuel as bytes that the vector must hold, and each doubling adds at
-- least one. `parse_request` has two more units of fuel than the buffer has bytes, and every pass
-- but the last takes a byte or completes the request. `decimal` has more fuel than the value.
--
-- Not modelled: the system calls themselves, sockets' options (net/socketops.cc), and logging calls;
-- threads and mutexes beyond the atomicity of critical sections; a wait on a condition that ends without
-- a signal; the callbacks that an application may set beside those of HttpServer; and the benchmark
-- under test_presure/ (a third-party program).
pub mod Shared
pub mod Base
pub mod Net
pub mod Http
pub mod Main
mod Tests
