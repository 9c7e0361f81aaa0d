-- ===== src/Lib.antt =====
-- The core of the HERE OLP Edge SDK for C++: the containers, caches and queues that its clients are
-- built on, the retries of a call, the keys of its tiles and the names of its resources.
--
-- The parts, the files that model them, and the code:
--   Geo.TileKey              olp-cpp-sdk-core/include/olp/core/geo/tiling/TileKey.h and
--                            olp-cpp-sdk-core/src/geo/tiling/TileKey.cpp: a tile of the quad tree.
--     .Levels, .Neighbours, .Order   Parent(), GetChild(), ChangedLevelTo(), NextRow(), operator<.
--     .Morton                ToQuadKey64() and FromQuadKey64(), with the table.
--     .QuadKey               ToQuadKey() and FromQuadKey(), on lists of character codes.
--     .Subkey, .Joined       QuadKey64Helper, GetSubkey64() and AddedSubkey64().
--     .Appended              ToHereTile(), AddedSubkey() and AddedSubHereTile(), on texts.
--     .LevelSet              GetNearestAvailableTileKeyLevel() and the two functions that it calls.
--     .Relative              TileKeyUtils.cpp: a tile's place below an ancestor.
--   Geo.SubTiles             olp-cpp-sdk-core/include/olp/core/geo/tiling/SubTiles.h and
--                            src/geo/tiling/TileTreeTraverse.cpp: the tiles below a tile.
--   Cache.Lru                olp-cpp-sdk-core/include/olp/core/utils/LruCache.h: a map of buckets
--                            that are linked from the most to the least recently used one. Ideal is
--                            the list of entries that the class promises; Refine relates the two.
--   Cache.Memory             InMemoryCache of olp-cpp-sdk-core/src/cache: such a cache of items that
--                            may expire.
--   Cache.Disk               DiskCache of olp-cpp-sdk-core/src/cache: a cache in a LevelDB database.
--   Cache.Default            olp-cpp-sdk-core/src/cache/DefaultCache.cpp: a Cache.Memory before a
--                            Cache.Disk; Storing, Reading and Removing are its operations on items.
--   Client.Tokenizer, .Hrn   olp-cpp-sdk-core/src/client/Tokenizer.h and HRN.cpp: resource names.
--   Client.Cancellation      CancellationContext.inl and CancellationToken.cpp of the same library.
--   Client.Retry             CallApi() and GetRetryCallback() of src/client/OlpClient.cpp, on
--                            Client.Cancellation: the retries of a call, as steps in any order.
--   Client.Request           CreateRequest() of the same file.
--   Utils.Url                olp-cpp-sdk-core/src/utils/Url.cpp: percent encoding.
--   Authentication.Crypto    olp-cpp-sdk-authentication/src/Crypto.cpp: SHA-256 and HMAC.
--   Network.PriorityQueue    NetworkRequestPriorityQueue of olp-cpp-sdk-core/src/network: a queue for
--                            each priority. Arrival relates it to the order of arrival.
--   Network.Quota            NetworkRequestPriorityQueueDecorator of the same directory: groups of
--                            requests, each with such a queue and a quota of pending requests.
--                            Worker is the thread that sends; Moves is what a step does to a group.
--   Read.MultiRequest        olp-cpp-sdk-dataservice-read/src/MultiRequestContext.h: requests with
--                            the same key share one execution.
--   Write.ThreadSafeQueue    olp-cpp-sdk-dataservice-write/src/ThreadSafeQueue.cpp.
--   Prelude                  numbers, words, bits, lists and texts for all of them.
--
-- State is passed on explicitly. A method is the function of the same name, spelt in lower case:
-- set_next for setNext(). What runs under a mutex is one step; threads are sequences of steps in any
-- order. Code that is not in the repository stands as arguments: the network protocol's answers, the
-- provider's responses, the cost function, the comparison of keys, LevelDB with the laws that it
-- documents, the directory functions and the clock. An iterator of a cache is a key, `none` being
-- end(); an operation that would follow end(), fail an assertion, read out of bounds or throw gives
-- `none`. The constructor of HRN takes whether the build defines NDEBUG, since its assertion tells
-- something of its input. A text is the list of the codes of its characters.
--
-- Words keep their wrap-around: std::uint32_t modulo 2 ^ 32, std::uint64_t and std::size_t modulo
-- 2 ^ 64. A shift by the width of a word or more, which C++ leaves undefined, shifts all digits out;
-- the theorems on tiles are about valid ones, for which the code makes no such shift.
--
-- Loops are recursions on the data, or on the rounds that a counter leaves, but for six, on fuel.
-- Url::Decode() has a round for each character and one for the end. The loop over SubTiles has as many
-- rounds as Size(). FromQuadKey64() has 32 rounds, which are enough for 64 bits. The eviction of
-- LruCache and RemoveKeysWithPrefix() have one round more than there are buckets, since each round
-- takes a bucket away or leaves one behind. AddedSubkey() takes the number of rounds as an argument,
-- and gives `none` where they are used up.
--
-- Not modelled: moves of caches, projections and other floating-point code, Base64, which is made of
-- boost iterators, logging, the network back ends, which call curl and the systems' libraries, and the
-- clients of the services and of authentication, which are chains of calls of generated code and of
-- JSON parsers. Of DiskCache, opening for reading only and the clearing of other databases. Of a call's
-- network, an answer inside the very call that sends the request; an answer inside the call that
-- cancels it is modelled.
pub mod Authentication
pub mod Cache
pub mod Client
pub mod Geo
pub mod Network
pub mod Prelude
pub mod Read
pub mod Utils
pub mod Write
