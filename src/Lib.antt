-- ===== src/Lib.antt =====
-- nqbook: an order book that replays feeds of market events and samples features of it.
--
-- shared/nqcppsdk/nq/abi.h (Abi) fixes the event, nq_mbo, that adapters produce and the book
-- consumes. src/Orderbook.cpp and include/Orderbook.h (Orderbook) keep the resting orders: two maps
-- from prices to levels, a doubly linked queue of orders at each level, an index from ids to orders,
-- and a pool that hands out the memory of orders and takes it back.
--
-- Orderbook. The memory of orders is an explicit heap from addresses to orders (Orderbook/Memory).
-- A level's address is its side and price (Orderbook/PriceLevels); std::map is a list of prices in
-- the order of the side. The pool (Orderbook/Pool) is OrderPool with its chunks and its free list
-- through `next`. Orderbook/Links has the writes of LinkOrder and UnlinkOrder in their order;
-- Orderbook/Book the queries and internals (find_level is FindLevel, link_order LinkOrder, fill
-- Fill, and so on); Orderbook/Feed the handlers OnOrder, OnCancel, OnModify, OnTrade and OnClear,
-- Apply and Consume. Every function takes the book and returns the new one, or `none` where the
-- source would read through a null or dangling pointer. The loop of FillLevel runs on fuel, one
-- round for each order of the level and one more; a round takes the order in front to its end or
-- stops, so the fuel is enough. Consume is driven by the list of the events that the queue holds.
-- nlib::map and nlib::memory_pool (Nlib), which the repository does not hold, are parameters with
-- their documented laws. int64_t quantities and prices are exact, since their overflow is
-- undefined; the counters wrap at 2 ^ 64, and so does the product of a duration (Prelude/Int,
-- int64).
--
-- The invariant (Orderbook/Invariant) says that the levels, the index and the pool agree with one
-- queue of addresses for each side and price. Orderbook/Segments, Relinking, Queues, Linking,
-- Unlinking and Reducing show the pointer code on these queues; Chains, Joins, Removal, Reduction,
-- Placement, Adding, Rejoining and Requeueing lift it to the book with its index and pool
-- (Allocation, PoolInvariant). The specification is a list of the resting orders, the oldest first
-- (Orderbook/Priority), with a table of the counters (Orderbook/Counters). Refinement, Appending,
-- Filling, Sweeping, Fronts, LevelFill, Reaction, Trading and Application show that the book
-- implements it; Reading shows what the queries read.
--
-- Feature. Plugins read features of the book, and samplers turn what they read into rows.
-- Feature/Sampler is include/Feature/Sampler.h with src/Feature/Sampler.cpp: Advance, Close,
-- OnEvent, Emit and ResetBaseline, generic in the source of the values, a step on a state that
-- stands for the cache of the engine. Feature/RowBuffer is the flat array of rows. Doubles
-- (Feature/Double) are a type with a zero and a difference, with no law. The loop that fills gaps
-- runs on fuel, a round for each whole interval of the gap and two more, which Bars shows to be
-- enough. Feature/Engine is src/Feature/FeatureEngine.cpp over plugin instances
-- (Feature/Instances), the functions of a loaded plugin, which are parameters; Feature/Pipeline is
-- include/Pipeline.h. Emission, Bars, Advancing, Counting and Returning prove the samplers,
-- ReadLayout, EngineInvariant, EngineEvents, NewEngine and PipelineRun the engine and the pipeline.
-- The invariant of the engine lays the values of the instances behind one another, and lets them be
-- marked as fresh only where they were read of the book as it is.
--
-- Feature/PipelineTable is src/PipelineTable.cpp: a pipeline for each instrument of a feed, opened at
-- its first event (Resolve), with the growth of the table and the statistics. A pointer to a
-- pipeline is the number of its entry, and `none` an access past the end of the entries.
-- `instrument + 1` wraps at 2 ^ 32 as in the source. TableRun, Resolving, TableApply and TableFeed prove
-- it over a specification with the orders of each instrument, of which an event changes one.
--
-- Feature/Catalog is src/Feature/FeatureCatalog.cpp: the plugins, the columns and the samplers of a
-- run, with LoadPlugin and AddSampler. CatalogInvariant, CatalogColumns and CatalogSteps prove it;
-- their invariant ties every column to the schema of its plugin, and is what the engines of the
-- table need of their templates.
--
-- Texts are lists of bytes (Prelude/Text); what throws returns a result (Prelude/Outcome). Config
-- is src/Config.cpp: ParseDuration, ParseSamplerSpec, LoadParamsFile and ScanPluginDir, over the
-- files of a machine (Config/Files), a parameter; std::sort is an insertion sort, and files of one
-- name may stand in any order in the source; Durations, DurationTexts, Samplers, Blanks, Lines and
-- Scanning prove it. Params is shared/nqcppsdk/nq/params.hpp, with strtoll at its limits (Builder,
-- Numbers). Host is shared/nqcppsdk/nq/feature_host.hpp and adapter_host.hpp: the constructors of
-- Plugin and AdapterPlugin over a linker, a parameter, with the handles that are open (Loading,
-- Hexadecimal), and the objects that own the states of a plugin (Ownership, OneOwner).
--
-- Adapter is src/Adapter/AdapterEngine.cpp and Writer is src/Writer/WriterEngine.cpp: threads over a
-- bounded queue (Nlib/SingleQueue, a parameter with its laws). A step of a thread reads or writes one
-- thing that the other thread sees, and Step and Reach (Adapter/Steps, Writer/Steps) are the runs of
-- all threads in any order, with the events or rows that have passed each point. Loops over steps
-- have no bound, so nothing is said of a run that never ends. Adapter/Discovery, Rounds and Order
-- prove the adapter; Writer/Delivery, Rounds, Finishing and Losing the writer.
--
-- Session is src/Session.cpp: the thread of Run over the table and the adapter, with its steps beside
-- the adapter's thread and a caller that asks for the stop (Session/Steps). InStep, Rounds, Complete
-- and Ending prove it; the rank of Ending, which falls with every step, is at most 20 for each event
-- in the queue and 12 more.
--
-- App is src/main.cpp: LoadCatalog, ParseAdapterParams, Check and Run with their exit codes. The
-- stages of Run that open files, load the adapter and run the session are parameters (App/Running).
-- Loading and ExitCodes prove it.
--
-- Csv is src/Writer/CsvWriter.cpp and Report src/Report.cpp, as far as they quote texts; Csv/Reading
-- and Report/Reading have readers of both formats.
--
-- Not modelled: src/Writer/ParquetWriter.cpp, which calls Arrow; the rest of src/Writer/CsvWriter.cpp,
-- src/Report.cpp and src/main.cpp, which writes to streams; the writer's part of src/Session.cpp;
-- include/Feature/OrderbookView.h; of shared/nqcppsdk what generates the C functions of a plugin, and
-- the plugins themselves. std::filesystem, dlopen, strtod, Arrow and the CLI library are parameters
-- where modelled code calls them.
pub mod Prelude
pub mod Abi
pub mod Nlib
pub mod Orderbook
pub mod Feature
pub mod Config
pub mod Host
pub mod Params
pub mod Adapter
pub mod Writer
pub mod Session
pub mod Csv
pub mod Report
pub mod App
pub mod Examples
