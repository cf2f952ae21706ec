-- ===== src/Lib.antt =====
-- Batonlib, a coroutine library in C++, modelled for verification: its data structures and the code
-- that works on them.
--
-- The library runs coroutines on one thread. A scheduler (Batonlib/scheduler.cpp) polls the
-- operating system, collects the coroutines whose descriptors are ready and those whose timeout has
-- passed, and resumes them in turn. Timeouts stand in a time wheel (Batonlib/time_wheel.cpp):
-- a ring of doubly linked lists with one list for each tick.
--
-- Memory.antt is the memory that these parts share: one map for each field of time_item, time_link
-- (Batonlib/time_wheel.h) and co_epoll_item (Batonlib/co_epoll.h). A command takes the memory to a
-- result and a new memory, to a fault (an access through NULL or to what is not allocated), or runs
-- out of fuel. Memory/Returns.antt states total correctness of a command.
-- Link.antt and the modules below it say what list of items a time_link stands for, and what happens
-- to it when an item is chained at its end, taken out, or another list is joined to it.
-- TimeWheel.antt has the operations of the class time_wheel under their names. TimeWheel/Ring.antt
-- says what a wheel holds, and Empty, Add, Remove, Splice, Take, Limits prove
-- the operations.
--
-- Scheduler.antt has one round of scheduler::event_loop: the reported events, the timeouts, and the
-- run of the active link. What epoll_wait reports and the clock are arguments, and a resumed coroutine
-- is a command of its own. Scheduler/Ready.antt proves the first part, Timeouts, Join and Round the
-- second, Whole puts them together, and Run is about the head of the active
-- link and the loop that runs it.
--
-- Registry.antt has the schedulers of the threads (scheduler::g_thr_to_sch) and the numbers by which they
-- are found (Batonlib/tool.cpp).
--
-- CoCondition.antt has wait, signal and broadcast of the class co_condition
-- (Batonlib/co_condition.cpp), on the same memory and active link. Waiting and Wait below it say who
-- waits, and prove the operations.
--
-- Channel.antt has put, get and close of the class template channel (Batonlib/channel.h). A call is
-- cut at its waits, and a condition is the list of those who wait for it, with the active coroutines
-- as another list. Channel/Calls.antt lets any calls follow each other.
--
-- Epoll.antt has co_epoll (Batonlib/co_epoll.cpp): its map of items, and the calls of epoll_ctl in
-- their order. Scheduler/Register.antt is scheduler::register_event, cut at its yield, with the clock
-- and the new objects' addresses as arguments.
--
-- SysCall.antt has the wrappers of Batonlib/co_sys_call.cpp and their table of sockets, over the system
-- calls of Linux.antt. There a wait for a descriptor is a parameter, since what the other coroutines
-- do meanwhile is not known; the fuel of a write loop is enough when there is more of it than bytes.
-- FdMap.antt is the map that this table and co_epoll are kept in.
--
-- Connection.antt is connection::run and the setters of the timeouts (Batonlib/net/connection.cpp). The
-- fuel of its loop is enough when some measure of what is left to be served is below it.
--
-- LogStream.antt has the log line's buffer and the printing to it (Batonlib/base/LogStream.h and
-- LogStream.cpp), over the arrays of Bytes.antt. AppendFile.antt and LogFile.antt are the files of
-- the log (Batonlib/base/AppendFile.cpp, LogFile.cpp, and the lock of Mutex.cpp); Stdio.antt says
-- what they rely on of the C library.
--
-- AsyncLogging.antt has append and the rounds of the writing thread (Batonlib/base/AsyncLogging.cpp),
-- each as one step, since the mutex is held; a round is a turn of its loop whose calls of the log file
-- return. AsyncLogging/Loop.antt has its start and stop, the places of its thread, and its turns on a
-- log file, which may block for ever. Logging.antt puts a statement's line together in a stream and hands it on
-- (Batonlib/base/Logging.cpp).
--
-- Coroutine.antt has the class coroutine (Batonlib/coroutine.cpp) with the call stack and the queue of
-- ended coroutines of its scheduler. Coroutine/Events.antt lets coroutines follow each other in any order
-- that callers may ask for. Context.antt has their stacks and first contexts (Batonlib/co_stack.cpp,
-- Batonlib/co_context.cpp), and Stackless.antt the switch that the macros of
-- Batonlib/coroutine_stackless.h make.
--
-- Mutex.antt has the class Mutex (Batonlib/base/Mutex.cpp) in steps of one call or one write each.
-- Monitor.antt has the class Condition (Batonlib/base/Condition.cpp) as those who wait for it and those
-- who have been woken; the assertion in its Wait, on the flag of the mutex, is left to Mutex.antt
-- (may_wait). What a thread does between taking the mutex and giving it back is one step.
-- On it stand ThreadPool.antt (Batonlib/base/ThreadPool.cpp), whose threads and callers
-- ThreadPool/Steps.antt runs in any order, CountDownLatch.antt (Batonlib/base/CountDownLatch.cpp), and on
-- that Thread.antt (Batonlib/base/Thread.cpp), a thread and the one that starts it.
--
-- Not modelled: the switch of stacks (Batonlib/context_swap.S), for which resume, yield and the waits of
-- the other modules stand as parameters; the coroutine pool; the server, which only makes coroutines
-- and connections; the macros of the coroutines' locals; the conversion of addresses in
-- tool.cpp; and the test programs.
--
-- Numbers are native; the size of a channel is one too, an int in the source, which is never above the
-- channel's capacity unless that is negative; unsigned 64-bit differences and sums keep their wrap-around, an int that is
-- read from an unsigned number keeps its 32 bits, and the overflow of count++ is a fault. Loops over
-- a linked list take fuel; the theorems ask for more fuel than a list has items and show that the
-- loop then ends. The log statements of the other parts are left out. Time, fresh addresses and what the
-- operating system answers are arguments.
pub mod Base
pub mod Memory
pub mod Link
pub mod Int
pub mod TimeWheel
pub mod Scheduler
pub mod Registry
pub mod CoCondition
pub mod Channel
pub mod Bytes
pub mod LogStream
pub mod Stdio
pub mod AppendFile
pub mod Mutex
pub mod LogFile
pub mod Epoll
pub mod Linux
pub mod AsyncLogging
pub mod Logging
pub mod CountDownLatch
pub mod Monitor
pub mod Thread
pub mod ThreadPool
pub mod Stackless
pub mod SysCall
pub mod Connection
pub mod Context
pub mod Coroutine
pub mod FdMap
