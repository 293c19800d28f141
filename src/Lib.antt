-- ===== src/Lib.antt =====
-- The C programs of these notes that have logic of their own: servers for many clients over TCP, a
-- line protocol on a stream socket, a thread pool, and processes and threads that share memory under
-- semaphores, mutexes and condition variables. Each program stands by itself; they have the style of
-- their code in common, not code. Paths below are from the repository's root.
--
-- Base: shared names, lists with native indices, the result of a call (`Run`: it returns, it ends
-- the process, or the fuel of the model is spent), sums over a family of processes.
-- Stream: network/socket/codes/readline/server.c. `Stream.Kernel` states what read, recv with
-- MSG_PEEK and write promise, as the parameters `Source` and `Sink`; `Stream.Counted` has readn and
-- writen, `Stream.Lines` recv_peek and readline, `Stream.Chat` recv_socket and recv_keyboard. Loops
-- run on fuel, a round each; enough is given by the bytes to come and the bound on interruptions.
-- ThreadPool: process/ipc/codes/threadpool. The task list is first, last and the next pointers; a
-- step of a thread is what it does from taking the lock to giving it back. Threads run in any order.
-- ShmFifo: fifo.c, fifo.h and sem.c in process/ipc/codes/produce-consume. A process stops before
-- each semaphore call, in the copy and before the index update; processes run in any order.
-- SEMVMX, failing calls and the removal of the semaphores are left out.
-- Warehouse: posix-produce-consume.c there; six threads in any order. The section under the mutex is
-- one step. Product ids are numbers without a bound, where the code has an int.
-- Dinner: process/ipc/codes/dinner/dinner.c; five processes in any order, one semop for two forks.
-- Stock: cond-produce-consume.c in process/ipc/codes/produce-consume; three threads in any order. A
-- wait gives the mutex back and takes it again; a signal wakes one waiter, and a waiter may wake up for no reason.
-- Packet: network/socket/codes/fixed-length/server.c, on the streams of Stream; a packet is its bytes,
-- the length in network byte order. Its readn and writen are those of Stream.Counted.
-- Pairs: process/ipc/codes/print/print.c; two processes in any order, their letters as numbers.
-- Reactor: network/socket/codes/epoll-reactor/epoll.c. The table g_events with the interest list of
-- epoll and the open descriptors; handlers take what their system calls return as arguments. epoll_ctl looks at what is registered, and
-- may have no memory or watches left for an addition. Memory
-- behind the buffer of an entry is its length, as the struct lays it out on a little-endian machine.
-- Multiplex: select_server.c, poll_server.c and epoll_server.c in network/socket/codes/echo. A round
-- of the loop takes what select, poll or epoll_wait, accept and the reads return. In the poll server
-- accept fails where the descriptor would reach the limit that setrlimit sets. The descriptors counted
-- as open are the sockets of the server; those of the terminal are left out. Descriptors at or
-- above FD_SETSIZE, for which FD_SET is undefined, are not told apart.
-- BpTree: data_structure/bptree.cpp. `BpTree.Node` has the node and the file, an offset in bytes being
-- a number; `Search`, `Insert` and `Remove` have the operations of Bp_tree, one function for each and one
-- for each part of split, insert_pos and remove_pos, and `Demo` the loop of main that inserts. A key is
-- counted from the least int, so that keys are numbers and their order is that of the source; a pointer
-- is an unsigned int. A call runs on fuel, a level of the tree each: one more than the height is enough
-- for query, two more for insert. Arrays have no end: no index at or above MAX_KEY is read before
-- it is written. Offsets have no bound, where the file has 2 ^ 31 bytes at most. fread past the end leaves the node as its
-- constructor made it. `Shape` says by labels, which are not in the file, what the nodes of a tree are;
-- `Filing`, `Split` and `Growth` keep it through the steps of an insertion, and `Refinement` reads the
-- file as a partial map. `Separators` and the modules under `Remove` from `Entry` on do so for the
-- removal of a key, but for the joining of nodes, the loans between inner nodes and case F. The link from leaf to leaf is written as in the source and read by nobody.
-- Not modelled: socket set-up and terminal output, whose results no other code reads; programs that
-- are a few system calls in sequence; the code in other languages, the notes and the configuration.
pub mod Base
pub mod Stream
pub mod Packet
pub mod ThreadPool
pub mod ShmFifo
pub mod Warehouse
pub mod Stock
pub mod Dinner
pub mod Pairs
pub mod Reactor
pub mod Multiplex
pub mod BpTree
