-- ===== src/Lib.antt =====
-- Verification library of backtester-lab, a backtester for L3 market data written in C++.
--
-- The program rebuilds order books from a feed of events, routes the feed to one book per
-- instrument, publishes numbered market data to subscribers, and gives trading engines a gateway to
-- which they send orders over lock-free queues. The engines see the historical books together with
-- their own simulated orders. The parts and the files that model them:
--
--   Domain        src/domain/Types.hpp, MarketDataEvent.{hpp,cpp}: sides, actions, events, their
--                 order, and the tests of validity that the books share.
--   Levels        `std::map<Price, Quantity>` as a list of levels in the map's order.
--   Sides         the pair bids_ and asks_ with addLevelVolume and removeLevelVolume, which
--                 LimitOrderBook, HistoricalLOB and SyntheticBook repeat.
--   Map           `std::unordered_map` as an association list.
--   Book          src/book/LimitOrderBook.{hpp,cpp} in Book/LimitOrderBook: apply and the six
--                 handlers, best prices, level lists. src/book/BookManager.{hpp,cpp} in
--                 Book/BookManager: apply, resolveInstrumentId, removePreviousInstrumentMapping,
--                 updateOrderMapping; BookSnapshot.hpp in Book/BookManager/Snapshots.
--   Queue         src/concurrency/NonBlockingQueue.hpp: push, flush, tryPop, size.
--   Gateway       src/gateway: OrderMessage.hpp in Messages, OrderChannel.hpp in Channel,
--                 OrderGatewayServer.{hpp,cpp} in Types, Server, Server/Fills and Server/Drain,
--                 OrderGatewayClient.{hpp,cpp} in Client.
--   Lob           src/lob: HistoricalLOB, HistoricalLobStore, EngineView, FillSimulator and
--                 SimulatedLOB, each in a file of its name; Historical is the book or the store that
--                 the last two read.
--   Messaging     src/messaging: MarketDataMessage.hpp in Message, MarketDataPublisher in
--                 Publisher, MarketDataGapDetector in GapDetector.
--   Backtest      src/backtest: MarketDataEventAdapter, IntegratedBacktestEngine and
--                 OrderExecutionBridge, each in a file of its name. The engine feeds events to the
--                 adapter, which applies them to the store and makes messages, and publishes these;
--                 the bridge submits the gateway's accepted requests to the simulator.
--   Runners       src/runners: mergeInputQueues of HardRunnerSupport.cpp in Merge, buildMergeTree
--                 of HierarchicalMergeRunner.cpp in Hierarchy, ProcessingSummary of RunResult.hpp
--                 and dispatchMergedQueue in Summary.
--   Processing    src/processing: the router of ShardedLobMarketDataEventProcessor in Router.
--
-- State is passed explicitly: an operation takes the state of its object and gives the new one, in
-- the order of the source's statements, and has the source's name in lower case with underscores.
-- What the source throws or leaves undefined is a result: `none` of an Option, or `out_of_range` of
-- a queue. Objects that the source shares by `std::shared_ptr` stand in a store: the channels by an
-- address, the queues of subscribers by the id of their subscription. Callbacks are parameters.
--
-- Numbers are natural numbers. Unsigned 64-bit sums keep their wrap-around (`u64`). Prices and
-- signed timestamps are integers; the code modelled here compares them only, and adds none.
--
-- The loops that take elements from a queue run on fuel, one unit for each call of tryPop: fuel
-- above the number of visible elements is enough. The loop of the fill simulator takes at least one
-- unit of the order's size in each pass, so fuel above the size is enough, and the loop of a merge
-- writes one event in each, so fuel above the number of events is. All other loops are structural,
-- but the levels of the merge tree, of which there are never more than inputs.
--
-- A call of an operation is one step. For the queue this is right as its two ends share only the
-- link that a flush publishes, and for the views and the store as they hold a lock; the blocking
-- pop, the order of memory accesses and threads are not modelled. A merge reads each queue up to its
-- end item and waits where it is empty, so there a queue is the stream of its events. Not modelled
-- either: the threads of the processors' workers and the writers of snapshots, the parser and the
-- readers of files (simdjson and Arrow are third-party), text output, the command line, and the
-- Python package.
pub mod Backtest
pub mod Base
pub mod Map
pub mod Levels
pub mod Domain
pub mod Sides
pub mod Book
pub mod Queue
pub mod Gateway
pub mod Lob
pub mod Messaging
pub mod Runners
pub mod Processing
