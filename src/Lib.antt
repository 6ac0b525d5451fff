-- ===== src/Lib.antt =====
-- A verification library of the crawler of DHT metadata. Its parts and how they interact:
--
-- The program (src/dht_crawler.cpp) receives infohashes from a DHT session of libtorrent, and asks
-- peers for the metadata of each. The headers that it includes carry its logic:
--
--   HashFormat       convert_hash_to_hex of src/enhanced_metadata_manager.hpp: the spellings of an
--                    infohash. Digits and Base32 decode independently, Format compares.
--   RequestQueue     MetadataRequestQueue of the same file: a vector of entries and a set of hashes.
--   RequestTracker   ActiveRequestTracker of the same file: the requests in progress.
--   Downloader       PersistentMetadataDownloader of the same file, which owns both: request_metadata,
--                    process_queue, handle_metadata_received, cleanup_timed_out_requests, the logs and
--                    the limits. Loop is about the end of process_queue, Apart about queue and tracker,
--                    Accounting about the counts, Limits about what each call does with a hash.
--   Libtorrent       what these parts call of libtorrent: records of operations, which the definitions
--                    take as a parameter.
--   RateLimiter      RateLimitedDHTManager of src/smart_dht_crawler.hpp.
--   PassiveObserver  PassiveObservationManager of the same file.
--   SmartCrawler     SmartDHTCrawler of the same file, which owns the two above; Queries has what it
--                    sends.
--   ConcurrentDht    ConcurrentDHTManager of src/concurrent_dht_manager.hpp: Interleaving has the runs of
--                    its threads, Weights and Queries what is counted in them.
--   Bep51Indexer     BEP51DHTIndexer of src/bep51_dht_indexer.hpp.
--   WorkerPool       MetadataWorkerPool of src/metadata_worker_pool.hpp, with its threads.
--
-- The program itself, src/dht_crawler.cpp:
--
--   Crawler          DHTTorrentCrawler, which owns the components above and lends each the one session:
--                    Handlers has the alerts that discover a torrent, Metadata the arrival of metadata,
--                    Discovery the loop that discovers, Sequential the one that it replaces, and
--                    MetadataOnly the loop for given hashes. Idle, Unused, Alerts and Runs are about
--                    who asks for metadata, Steady and Batches about the batches of the database,
--                    Effects and Successes about what is counted.
--   HashList         The hashes that an option or a file gives.
--   ContentType      determineContentType.
--   Arguments        The loop of main over its arguments, with Stoi for std::stoi.
--   MySqlConnection  MySQLConnection: Store has the statements that write, Select those that read, and
--                    Interface makes it the database that Crawler takes as a parameter.
--
-- Seven classes stand beside the program, in no target of the build, and are modelled as their .cpp
-- files have them:
--
--   TokenManager     src/dht_token_manager.cpp.
--   TimeoutManager   src/timeout_manager.cpp.
--   RequestCache     src/request_cache_manager.cpp.
--   MetadataProtocol src/ut_metadata_protocol.cpp.
--   PieceManager     src/metadata_piece_manager.cpp: Calls, Upkeep and Reads have its methods, History
--                    its histories, and Stability what every call keeps.
--   RoutingTable     src/routing_table_manager.cpp: Nodes and Upkeep have its methods, Distance is
--                    about ids, and Buckets, Starvation, Splits and Membership about what buckets hold.
--   MonitorThread    the background thread that the managers keep.
--
-- Base holds what the parts share: ordered association lists for std::map and std::unordered_map,
-- lists without duplicates for std::set, byte strings as lists of numbers, sweeps that move or drop
-- entries, integers over the native numbers, and the lemmas on them. Tests holds the runs at concrete
-- inputs.
--
-- State is a record per class, an operation a function from the state to the new one and what the
-- method returns, and a method under a mutex is one step. The clock is an argument of an operation, in
-- nanoseconds (RequestCache and MetadataProtocol: see there). The containers' sizes, the counters and
-- the sums of instants are taken not to overflow. Bytes are numbers, below 256 where a theorem needs
-- it. The one loop that is not structural is process_queue: a request that cannot be started goes back
-- into the queue with its priority lowered while that is above 1, so queue_rounds counts the rounds that
-- the queue can take, and its fuel is one more. to_string has the number itself for fuel.
--
-- Not modelled: the log and the texts of getHealthStatus and get_statistics, the random salt of
-- DHTTokenManager, the comparison of floating-point success rates (its outcomes are arguments),
-- monitorRoutingTable, whose merges erase the bucket that its loop stands at, of src/dht_crawler.cpp
-- the console, the start and the shutdown of the session and the creation of the tables, which are
-- input and output or fixed text, and the other classes of src/, which are in no target of the build.
mod Base
mod Tests
pub mod HashFormat
pub mod Libtorrent
pub mod RequestQueue
pub mod RequestTracker
pub mod Downloader
pub mod RateLimiter
pub mod PassiveObserver
pub mod SmartCrawler
pub mod WorkerPool
pub mod Bep51Indexer
pub mod ContentType
pub mod Crawler
pub mod HashList
pub mod Stoi
pub mod Arguments
pub mod MySqlConnection
pub mod ConcurrentDht
pub mod TokenManager
pub mod MetadataProtocol
pub mod MonitorThread
pub mod TimeoutManager
pub mod RequestCache
pub mod PieceManager
pub mod RoutingTable
