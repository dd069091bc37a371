-- ===== src/Lib.antt =====
-- Verification of fast_server: a reactor server with its buffers, codecs and timers (muduo), the
-- queues of a trading program (ihs) and an auction order book (obr).
--
-- The parts, and the files that model them:
--   * Prelude: lists over the native numbers, blocks of memory written at a position (`blit`,
--     `slice`), 64-bit `size_t` and `int64_t`, and the mask of a power of two. Models no code.
--   * Buffer: muduo/include/SimpleBuffer.hpp. `SimpleBuffer` is the block with its read and write
--     position; `write`, `advance`, `ensure_capacity`, `compact` and `grow` are the methods. Content
--     and Stream compare it with a queue of bytes.
--   * Codec: muduo/protocol.hpp. `encoder` and `decoder` work on the caller's blocks; a read or write
--     outside a block is `none`. Layout and RoundTrip hold the byte layout and the round trip,
--     Overread what the length check lets through.
--   * Cube: `Coder` and `CubeServer::onMessage` of muduo/example/main.cpp, on the buffer of Buffer
--     and the byte layout of Codec. `serve` is the loop, on fuel: one round more than the buffer has
--     bytes, which is enough, since an answered request takes a byte at least.
--   * Timers: the timers of muduo/src/SubReactor.cpp. `TimerState` holds the set, the next id and the
--     time for which the timerfd is armed; each reading of the clock is an argument. Bounds treats the
--     sums of times, which are modelled without a bound and checked against 2 ^ 63.
--   * Connection: muduo/src/Connection.cpp, on the buffer of Buffer. The kernel's answers to `write` are
--     a parameter, of which the theorems assume that it takes no more than it is given. The loop of
--     `sendBufferedData` is on fuel, the size of the buffer: each round that goes on takes a byte.
--     Stream treats one call and Talk any sequence of `send` and `sendBufferedData`.
--   * Reactor: the connections of muduo/src/SubReactor.cpp: the map, the queue of new connections, the
--     send queue (SendQueue) and the handlers of read, write and hang-up events (Events). The
--     program's callbacks are a parameter that may change the state.
--   * Acceptor: `handleAccept` of muduo/src/MainReactor.cpp and the loop of muduo/include/Reactor.hpp, by
--     rounds, each with what `accept` does; Turns tells which connection goes where, and Sublists
--     has lists with elements left out.
--   * Queue: the rings of ihs/include. Modulo is lock_queue.hpp, Masked is lq.hpp, Flagged is
--     q.hpp; of kk.hpp, Counter is `SPSCRingBuffer`, Cached the second `SPSCQueue`, Counted the first
--     `MPSCQueue` and the first `SPSCQueue`; Spec is the bounded queue that they implement, and Items the
--     elements of a ring. They are modelled as one caller uses them.
--   * Book: obr/src/full_order.cpp. The module Book has the maps and `insertOrder`, Auction the prefix
--     sums and the two scans for the price, Match the iterator and the matching loop, Flush
--     `flushStatus`. Levels, Optimum, Uncrossed, Prefixes, Scans (the bids), AskScans, Total and Insert
--     hold the proofs.
--     The matching loop runs on fuel, the number of orders in both maps, which is enough, since each
--     round uses up an order.
--   * Fix: `FixEncoder` of ihs/src/encoder.cpp: the header, the fields, `replaceFieldValue` and
--     `finalize`; an exception is `none`. Replace treats the replacement of a field's value, Finalize the
--     finished message. A number is printed with at most 20 digits, enough for 64 bits.
--   * Parser: ihs/src/parser.cpp. The module Parser is the second `FixParser`, which takes whole buffers,
--     with `stoi` (Stoi) and `FixMessage` (Message) in modules of their own. Total treats the loops'
--     fuel, Sound what is returned, and Fields, Flags, Places, Pieces and Past serve it; Digits, Print, Turns,
--     Printed, RoundTrip and OneMessage treat a message that is printed as by Fix. Stream is the first
--     `FixParser`, which takes a stream, and Spin its loop. Both loops of `parse` have one round more
--     than the buffer has characters.
--   * Producers: `MPSCRingBuffer` of ihs/include/kk.hpp, whose threads take their steps in any order: a
--     schedule is a list of actions. Slots treats the places of positions, Ring and Held the writes to
--     the ring and what a producer knows, Threads the invariant of all threads, Pushes and Pops their
--     steps, Order and Fifo whole schedules. The accesses of the threads are taken to happen in one order.
--   * Linked: the `MPSCQueue` of kk.hpp whose nodes carry the next one's index, in the same way; Lost
--     treats two producers at once.
--   * Packets: the memory pool, the receiving loop and the workers of ihs/src/what.cpp, in any order of
--     their steps, each access of a queue one step; Accesses, Weights, Valid, WorkerMoves, Moves and
--     Conserved follow the
--     buffers from place to place.
--   * Waiting: `ConcurrentQueue` of ihs/include/trade.hpp, with a thread in `pop`; Asleep treats `stop`.
--   * Session: `FIX42Protocol` of ihs/src/fix42.cpp. Wire has the messages as text, Codes the
--     enumerations, the module Session the calls that send, Receive what is received, the end of a
--     session and `run_session`, which takes the calls and the threads' steps as events in any order.
--     Silent treats the receiving loop, Logons what a session can reach, Fields, Framed and RoundTrip a message
--     that is written and read, Turns and Numbers the numbers of messages, Reconnect a lost
--     connection. The clock's and the socket's answers are given for the number of each message.
--   * Trader: `FixSession` and `TradingSession` of ihs/src/fix42_a.cpp. Wire has the text that is sent and the
--     parser, the module Trader the calls, the threads' steps and `run_trader`, on the maps of
--     Session.Wire. Framing treats the body length, Pieces and Unheard what is received.
--   * Pipeline: the first queue of ihs/src/system.cpp, `LockFreeQueue` between the receiver of market data
--     and the threads that parse it: a schedule is a list of steps of the receiver and of numbered
--     parsers. Window, Single and Fifo treat one parser, Race two. What a move leaves in a string is a
--     parameter.
--   In every part a module Tests runs the code on small inputs.
--
-- Bounds: `size_t` and counters wrap at 2 ^ 64, `uint32_t` at 2 ^ 32; an `int` or `int64_t` of the
-- code is its bit pattern. Where a theorem needs a bound, the bound is a hypothesis.
--
-- Not modelled: sockets, epoll, the pipe, the C library and spdlog, what only prints, the
-- stand-alone server of muduo/server.hpp, ihs/src/fix42_b.cpp, the
-- modules of the trading programs of ihs besides their queues, and the skeleton of a reconstructor
-- in obr. The memory orders are not modelled either, and interleavings of threads only in
-- Producers, Linked, Packets, Waiting and Pipeline, and of whole calls in Session and Trader.
pub mod Prelude
pub mod Buffer
pub mod Codec
pub mod Cube
pub mod Timers
pub mod Queue
pub mod Book
pub mod Connection
pub mod Reactor
pub mod Fix
pub mod Parser
pub mod Session
pub mod Trader
pub mod Pipeline
pub mod Producers
pub mod Linked
pub mod Packets
pub mod Waiting
pub mod Acceptor
