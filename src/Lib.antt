-- ===== src/Lib.antt =====
-- The trading ecosystem: an exchange in C++. Clients send requests over TCP to the order server
-- (src/exchange/order_server), which numbers them per client, sorts them by the time of receipt and
-- writes them to a queue. The matching engine (src/exchange/matcher) reads the queue, and calls the
-- order book of the request's ticker. The books send responses and market updates back through the
-- engine into two more queues; the order server sends the responses to the clients. The queues and
-- the memory pools are those of src/low-latency-components.
--
-- Run: how code runs. A command takes a state to a result and a new state, or to a fault: a failed
-- ASSERT, a FATAL (src/low-latency-components/macros.h), a null pointer, an index out of range, or
-- a modelled loop out of rounds. Run/Ensures and Run/Fuel have the rules for what a run ensures,
-- what it keeps, and that it ends by itself.
--
-- Text: what is used of `std::to_string`, string streams and the widths of `sprintf`, with a text
-- as a list of character codes. Types/Text, Message/Text and OrderBook/Text have the conversions to
-- text; a value that an enumeration does not name, printed as UNKNOWN, does not occur. The three
-- loops of a book's `toString` have the rounds that they are given, and need one for each level and
-- one for each order of a level.
--
-- MemPool: src/low-latency-components/mem_pool.h. A pointer into the pool is the index of its
-- block. The loop of `updateNextFreeIndex` is bounded by the size of the pool, after which the
-- index is back where it began.
--
-- LfQueue: src/low-latency-components/lock_free_queue.h. LfQueue/Fifo is about one thread,
-- LfQueue/Threads has the interleavings of the atomic steps of a writer and a reader, and
-- LfQueue/Safety what is written and read along them.
--
-- Types, Message, Order: src/low-latency-components/types.h,
-- src/exchange/order_server/client_request.h and client_response.h,
-- src/exchange/market_data/market_update.h, src/exchange/matcher/me_order.h.
--
-- OrderBook: src/exchange/matcher/me_order_book.h and me_order_book.cpp. `Book E` is a book with
-- the engine of type `E` that it reports to. OrderBook/Level has the rings of price levels,
-- OrderBook/Resting the rings of orders, OrderBook/Ring and OrderBook/TimePriority the orders of a
-- level as a queue, OrderBook/Joining and OrderBook/Rested the order that joins one,
-- OrderBook/Leaving and OrderBook/Removing the one that leaves, with OrderBook/Untouched and
-- OrderBook/Aside for what it leaves alone, OrderBook/Rungs, OrderBook/BestLevel and
-- OrderBook/Emptying the best sell level and the ring that it leaves, OrderBook/Offers,
-- OrderBook/Taking and OrderBook/Consuming the orders of the best level that an incoming order
-- takes, OrderBook/AskSide the sell side as a list of levels with what a buy order is meant to take
-- from it, OrderBook/Sweeping, OrderBook/Deals and OrderBook/Priority that it does,
-- OrderBook/AtRung, OrderBook/CancelAsk, OrderBook/Joined, OrderBook/JoinedAsk and OrderBook/AddAsk
-- a change at any of its levels, OrderBook/Frame, OrderBook/Table and OrderBook/Indexed the table
-- of client orders, OrderBook/Messages what is sent, OrderBook/Matching `match`, `checkForMatch`,
-- `add` and `cancel` (with `find_client_order` and `cancel_found` for its parts). The loop of
-- `checkForMatch` is bounded by the size of the order pool and two more rounds, as a round that
-- goes on frees an order or uses up the quantity; that of `addOrdersAtPrice` by the size of the
-- level pool and two, as a ring has no more levels than the pool.
--
-- MatchingEngine: src/exchange/matcher/matching_engine.h and matching_engine.cpp. One round of
-- `run` is `run_round`, and MatchingEngine/Rounds has several, against an exchange that is handed a
-- list of requests.
--
-- FifoSequencer: src/exchange/order_server/fifo_sequencer.h. `std::sort` is a parameter.
--
-- SocketUtils: src/low-latency-components/socket_utils.h, over a record of the calls of the kernel
-- and of the resolver with what these keep as the state. What `CreateSocket` logs, and the memory
-- of `getaddrinfo`, are left out. `O_NONBLOCK` and the two values of `errno` are those of Linux.
--
-- TcpSocket, McastSocket, TcpServer: src/low-latency-components/tcp_socket.h, mcast_socket.h and
-- tcp_server.h. What the kernel answers is a parameter. The server's sockets stand in a store, to
-- which `poll` adds those that it makes; a socket of both of its lists is run twice, with an answer
-- of the kernel for each.
--
-- OrderServer: src/exchange/order_server/order_server.h and order_server.cpp. The loop of
-- `recvCallback` has as many rounds as there are bytes, of which a round takes 38; that over the
-- responses has the rounds that it is given, of which it needs one for each response and one more.
-- OrderServer/Wire has the packed structs as bytes on a little-endian machine; OrderServer/Pieces
-- is about bytes that come in pieces. OrderServer/Running has `run` with the TCP server that it
-- polls, for any number of rounds and any answers of the kernel, OrderServer/Ties and
-- OrderServer/Rounds what holds throughout.
--
-- Logger: src/low-latency-components/logging.h, `log` and `pushValue`, and in Logger/Flush a pass
-- of `flushQueue` over the queue, with the rounds that it is given, of which it needs one for each
-- element and one more; Logger/Line has the elements of a line. How a stream prints floating point
-- numbers is a parameter. What the other parts log is left out of their models.
--
-- Numbers are natural, with the wrap-around written out where the code can reach it; `Price` is an
-- integer. A read or write out of the range of a `std::array` or of a socket's buffer, which is
-- undefined in C++ where the code does not use `at`, is a fault. A byte that an enumeration does
-- not name is a value of it, as in C++.
--
-- Not modelled: the destructors other than that of the order server, the threads and the clock
-- (thread_utils.h, time_utils.h), the market data publisher, which has no code yet, and main.cpp,
-- which runs examples.
pub mod Prelude
pub mod Run
pub mod Text
pub mod MemPool
pub mod LfQueue
pub mod Types
pub mod Message
pub mod Order
pub mod OrderBook
pub mod MatchingEngine
pub mod FifoSequencer
pub mod SocketUtils
pub mod TcpSocket
pub mod McastSocket
pub mod TcpServer
pub mod OrderServer
pub mod Logger
