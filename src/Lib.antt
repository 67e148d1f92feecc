-- ===== src/Lib.antt =====
-- Verification of trantor, a non-blocking TCP network library in C++.
--
-- Paths are those of the repository. Every file of this library opens with the code it is about.
--   Prelude             numbers, lists, `size_t` words and the `Option` monad of code that can fault
--   Memory              memcpy, std::copy, vector resize; what a window shows after a write
--   Bytes               integers in memory and network byte order (trantor/utils/Funcs.h)
--   MsgBuffer           the byte buffer (trantor/utils/MsgBuffer.h, MsgBuffer.cc)
--   BufferNode          what a connection has still to send (trantor/net/inner/BufferNode.h and its
--                       four classes)
--   TcpConnection       the writing half of a connection (trantor/net/inner/TcpConnectionImpl.cc);
--                       TcpConnection.Life its events and its end
--   TcpServer           the set of connections (trantor/net/TcpServer.cc)
--   MpscQueue           the lock-free queue of functions (trantor/utils/LockFreeQueue.h)
--   EventLoop           how threads queue functions and the loop runs them
--                       (trantor/net/EventLoop.cc)
--   TimerQueue          the timers of a loop (trantor/net/inner/TimerQueue.cc, Timer.cc)
--   Utf8                UTF-8 and wide strings (trantor/utils/Utilities.cc)
--   SslName             the names of certificates (verifySslName of trantor/utils/Utilities.cc)
--   Channel             the events of a descriptor and their callbacks (trantor/net/Channel.h,
--                       Channel.cc)
--   EpollPoller         the channels of a loop and epoll
--                       (trantor/net/inner/poller/EpollPoller.cc)
--   LogStream           the text of a log line (trantor/utils/LogStream.h, LogStream.cc)
--   AsyncFileLogger     the buffers of the log (trantor/utils/AsyncFileLogger.cc)
--   LoggerFile          the log file and its old files (the same file)
--   TimingWheel         entries that are let go after a time (trantor/utils/TimingWheel.cc)
--   ConcurrentTaskQueue a queue of tasks for several threads
--                       (trantor/utils/ConcurrentTaskQueue.cc)
--   PollPoller          the channels of a loop and poll
--                       (trantor/net/inner/poller/PollPoller.cc)
--   Connector           the attempts of a client (trantor/net/inner/Connector.cc)
--
-- A TcpConnection keeps its unsent bytes in BufferNodes, which keep them in MsgBuffers. The loop
-- dispatches the events of a connection's Channel to its callbacks. A TcpServer owns its
-- connections until they call it back. A Connector sets a timer of the loop for its next attempt,
-- and hands the socket to a client, which makes a TcpConnection of it. An AsyncFileLogger takes the
-- lines of a LogStream and hands its buffers to a LoggerFile. The ticks of a TimingWheel are those of
-- a timer of the loop.
--
-- MsgBuffer. A buffer is the record of its four fields, the vector a list of bytes. A method
-- returns the new buffer, or `none` where the code would run into undefined behaviour or a failed
-- assertion. `ensureWritableBytes` and `append` call each other; the model bounds the depth by 2,
-- which is enough because the buffer made at depth 1 has the room already: the theorems say that
-- the calls return. Sizes are machine words; the theorems bound the storage by 2 ^ 62 bytes, or
-- 2 ^ 58 where several sizes are added, so that no new length wraps, and by 2 ^ 31 for `readFd`, which
-- casts the room to `int`. `Holds b xs` says that the
-- buffer is valid and that `xs` are its readable bytes. The invariant asks for an initial capacity
-- of 8 bytes or more; MsgBuffer.Small is about the buffers that have less.
--
-- TcpConnection. The state is the record `Conn`: status, interest in reading and writing, the list
-- of nodes, and as ghost fields the bytes that the kernel has taken, the number of its calls and
-- what was done besides. A kernel is a function from the number of the call and the bytes offered
-- to an answer; `Obeys` says what the manual of write(2) does: no more than was offered, and 0
-- only for nothing. `write` of Linux transfers at most 0x7ffff000 bytes, so the `int` of `writeRaw`
-- holds its answer. The loop over the chunks of a node takes fuel, 2 for a memory node, and the
-- loop of `writeCallback` one round more than twice the number of nodes. Calls from another thread
-- are the same functions, run when the loop reaches them. TLS is not modelled.
--
-- MpscQueue and EventLoop. The state has the queue, the program counter of every thread, where the
-- loop thread stands, and as ghost fields the functions that were queued and that ran. A step is one
-- access of shared memory by one thread: the exchange of `enqueue`, its store, the write to the
-- wakeup descriptor; any thread may make the next one. The memory is sequentially consistent.
-- `dequeue` is one step, since only the loop thread moves the tail and frees a node; a new node may
-- get any address that is free, so the addresses of deleted nodes come back. The wakeup descriptor
-- is a counter, and `poll` may return for other reasons than it. A function that is
-- destroyed behind the last `dequeue` of a round may queue others before the queue is tested again.
-- Exceptions, `funcsOnQuit_` and `moveToCurrentThread` are not modelled.
--
-- TcpConnection.Life. A state adds the read buffer to `Conn`; a step is a call that the loop thread
-- makes: `connectEstablished`, an event of the channel with all the callbacks that it dispatches,
-- `sendInLoop`, `shutdown`, `forceClose`, `connectDestroyed`. The callbacks of the user are entries of
-- the log; what they call is a step behind the one that calls them. The receiver of a message is a
-- function on the buffer. `plain` of the step relation says whether the poller is known to report
-- a hangup with nothing left to read only without another readable event (`PlainHangup`); otherwise
-- the channel may close and then read in one dispatch. `in_loop` is what the poller's assertions ask
-- of a channel. `sendFile` and `sendStream` do not look at the status and are left out of the steps;
-- TcpConnection.Life.Revived is about them.
--
-- TcpServer. Connections are numbered in the order of acceptance. Two lists hold the calls of
-- `handleCloseInLoop` and `connectDestroyed` that were made and did not run yet. Any of them may be the
-- next to run, so each loop has its own order, and a direct call may overtake a queued one; each
-- connection takes the steps of TcpConnection.Life between them.
--
-- TimerQueue. The heap is a list in the order of time, the set of ids a list. `handleRead` takes the
-- callbacks as a parameter; where they act on the queue, `Acts` says that they do so through
-- `addTimer` and `invalidateTimer` and that the id in question is not given to a new timer, which
-- holds since ids come from a counter. The times are numbers without a bound.
--
-- Connector. The descriptors, the errno of `connect` and the pending error of the socket are
-- arguments of the calls; `done` records what was opened, closed and handed on.
--
-- EpollPoller. The kernel's interest list is a parameter, with `epoll_ctl` as a function on it; `Epoll`
-- says what the manual does of the calls that the poller makes. `fillActiveChannels` is not modelled.
-- In EpollPoller and PollPoller a channel is its descriptor: the assertions that the map has this very
-- channel for the descriptor (`channels_[fd] == channel`) are not modelled.
--
-- LogStream. The array and the string are lists of bytes; a write outside of them, or outside of a
-- table, is `none`. An integer is a ℤ within the bounds of its type, `long` of 64 bits. The loops of
-- `convert` and `convertHex` have fuel for 64 digits, more than a number of 64 bits has. `snprintf` of
-- a floating point number is a parameter, with a text shorter than the room that the code keeps for it.
--
-- AsyncFileLogger and LoggerFile. What is done under the lock is one step, and so is the write of a
-- buffer; the steps of the threads that log, of the writing thread and of the destructor come in any
-- order. Ghost fields are the texts handed to the file and all bytes that were taken. The allocator is
-- a parameter that gives what is asked for. A log file has the file with the base name and the numbered
-- ones; the answers of `fopen` and `rename` are parameters. `Kept` says that the numbers of the files
-- have no gap and that the queue knows them. One log file is modelled, though all of them count with
-- one `fileSeq_`; the theorems ask for numbers below a million, where the names would begin again.
--
-- TimingWheel. The vector of wheels is a function of the index, a wheel a list of buckets, a bucket a
-- list of pointers. The pointer of a user is a number; a `CallbackEntry` is a tree with what its closure
-- has caught, and the end of its bucket runs it. Delays are given in ticks, since `ticksInterval_` is a
-- float. `Agenda` says at which tick an entry is let go, through all the wheels it passes. The loop of
-- the constructor has fuel 64, since the number of ticks doubles at least in each round.
--
-- ConcurrentTaskQueue. A task is a number; ghost fields are the tasks given, taken and finished. What a
-- thread does with the mutex is one step, except that it may be stopped between its tests and its
-- `wait`, since `stop` does not take the mutex. `notify_one` wakes any thread that waits, and a thread
-- may wake without a cause.
--
-- PollPoller. The array for poll(2) is a list; the descriptor of an entry and whether it is watched are
-- two fields, for the one number that is the descriptor or - fd - 1.
--
-- Not modelled: the poller for kqueue, clients, async streams and kickoff entries, the other utilities
-- and the front of the logger; TLS, the hash functions and wepoll are drivers or copies of other projects.
pub mod Prelude
pub mod Memory
pub mod Bytes
pub mod MsgBuffer
pub mod BufferNode
pub mod TcpConnection
pub mod TimerQueue
pub mod Connector
pub mod Utf8
pub mod Channel
pub mod MpscQueue
pub mod EventLoop
pub mod TcpServer
pub mod SslName
pub mod EpollPoller
pub mod LoggerFile
pub mod AsyncFileLogger
pub mod LogStream
pub mod TimingWheel
pub mod ConcurrentTaskQueue
pub mod PollPoller
