-- ===== src/Lib.antt =====
-- PxpRpc, the C and C++ implementation: a remote procedure call protocol over packets. A server
-- context (c/pxprpc/server.c) takes packets from an io, which is a stream (c/pxprpc_libuv) or a pipe
-- within the process (c/pxprpc_pipe), calls callables that stand in its reference pool, and sends
-- their results. Parameters and results are written with a serializer (c/pxprpc/serializer.c), and
-- C++ code uses classes over all of this (c/include/pxprpc_pp.hpp, c/include/pxprpc_ext.hpp). The
-- runtime bridge (runtime_bridge/) runs such a server on a thread of its own, with modules of
-- callables for memory, pipes, streams, processes and files.
--
-- The modules, with the functions of the code they have:
--   Base              shared names, lists, tests, bytes of memory; no code
--   Serializer        c/pxprpc/serializer.c: put_int .. get_bytes are pxprpc_ser_put_int ..; Write and
--                     Read have what each function writes and reads
--   CppSerializer     class Serializer of c/include/pxprpc_pp.hpp
--   TableSerializer   class TableSerializer of c/include/pxprpc_ext.hpp: build_ser is buildSer, Load
--                     has load, Rows has addRow, addValue, getRow and toMapArray
--   RefPool           the reference pool of c/pxprpc/server.c: alloc_ref is pxprpc_server_alloc_ref
--   Server            c/pxprpc/server.c: one function for each step of a request (run_poll3 is
--                     _pxprpc__stepPoll3); Loop has the receive loop and what happens to a context as
--                     a relation, Move
--   Pipe              c/pxprpc_pipe/pxprpc_pipe.c: connections as a machine with a stack, so that
--                     callbacks can call back; Servers has the list of servers
--   Callable          PxpRequestWrap and FunctionMap of c/include/pxprpc_pp.hpp, AsyncReturn and
--                     Parameter of c/include/pxprpc_ext.hpp; Dispatcher has EventDispatcher
--   Framing           the packets on a stream of c/pxprpc_libuv/pxprpc_libuv.c
--   Connections       the accepted connections of c/pxprpc_libuv/pxprpc_libuv.c: a doubly linked list
--                     in a store of connections (free_conn is __freeLibuvSockconn, delete_server is
--                     pxprpc_libuv_server_delete); Views has the abstract view, a plain list, and
--                     Refine what the steps do to it
--   Bridge            runtime_bridge/c-modules/pxprpc_rtbridge_base/init.hpp: Accept has the accepting
--                     calls of PxpPipeServer, Memory has MemoryChunk and its output stream, Variables
--                     has variable_set and variable_get; Async has the queue of
--                     pxprpc_rtbridge_async_exec in runtime_bridge/src/pxprpc_rtbridge.c, as
--                     interleaved steps of threads and of the loop, and Blocking the blocking calls
--                     (dispatch is _rtbioreqdispatch) and the life of the loop's thread
--   Uv                runtime_bridge/c-modules/pxprpc_libuv_rpc/init.hpp: Stream has UvStreamWrap
--                     (pull_data is pullData), Process has UvProcessWrap, Udp has UvUdpWrap, Files has
--                     the calls on files (fs_open is the callable pxprpc_libuv.fs_open) and
--                     System those on the environment and on properties of the system, each with what
--                     it asks of libuv and what it answers to each result
--
-- Conventions. Numbers are bit patterns on natural numbers, with the wrap-around of the code's types
-- written out. A block of memory is the list of its bytes; what malloc leaves in a block is a
-- parameter, junk. `none` is undefined behaviour of the code, such as an access outside a block, or an
-- exception that nothing catches. Objects, callables, functions and callbacks are numbers, for their
-- addresses. Allocation is taken to succeed. A packet of the serializer has at most 2^30 bytes, so
-- that growing by half stays within int; the reference pool has less than 2^16 - 64 entries before it
-- grows. Loops are structural, but for the one that closes all connections of a server, detach_all of
-- Connections: its fuel is the number of connections, of which each round detaches one.
--
-- How the parts interact. Server uses RefPool for its references and Base for the words of a packet;
-- a request that waits for its callable is a value that Move resumes with the callable's Reply, which
-- Callable makes. In Server an io and a callable call back after the function that called them has
-- returned; in Pipe they may call back at any time. Uv.Files reads its parameters with Callable and
-- answers tables with TableSerializer; Uv.Udp collects datagrams with CppSerializer. libuv is outside:
-- it hands at most as many bytes as were asked for to the reader of Framing, says when a connection
-- comes or a close ends in Connections, and gives the results of calls as values to Uv; that it runs
-- the callback of an async handle after each wake-up is a step of Bridge.Async. Bridge.Blocking has the
-- same queue with the requests that block their callers, in the orders that the steps allow. memfile.h
-- is outside of Bridge.Memory: what it maps is an argument.
--
-- Not modelled: the host of the runtime bridge, and of its modules the calls that only pass arguments to
-- libuv, on addresses, options and times, and the calls of foreign functions; memfile.h and the Java
-- binding, which are calls of the operating system and of the Java machine; tests; and the other
-- languages.
pub mod Base
pub mod Serializer
pub mod Bridge
pub mod Connections
pub mod CppSerializer
pub mod RefPool
pub mod Server
pub mod TableSerializer
pub mod Uv
pub mod Pipe
pub mod Callable
pub mod Framing
