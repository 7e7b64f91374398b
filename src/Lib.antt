-- ===== src/Lib.antt =====
-- Spongix, a proxy that acts as a binary cache for Nix and as a small Docker registry. A client
-- uploads narinfos (the description of an archive) and archives; the proxy checks and signs
-- narinfos, cuts the data into chunks that it keeps in a local store, with an index that lists the
-- chunks of each file, and serves them back by putting the chunks together. The registry keeps its
-- blobs in the same store. What is not in the local store is asked of substituters, and what they
-- answer is fetched into the store later on. A garbage collector keeps the newest chunks within a
-- limit of bytes.
--
-- Files and code. A function of the code has its name in snake case.
-- - Base, Strings, Decimal, Regex, Assoc, Http: shared notions. Base has the Boolean tests, lists
--   over the native numbers and readers (Input). Strings, Decimal and Regex are what the code uses
--   of the Go packages strings, path/filepath, strconv and regexp: a pattern is a value of a small
--   type and its matcher decides its language. Assoc is a Go map with string keys. Http is what a
--   handler sees of http.ResponseWriter: the first status that is written fixes the headers that are
--   sent.
-- - Narinfo: narinfo.go. Unmarshal and Marshal are the text form, Validate the patterns, Sanitize is
--   SanitizeNar, Signatures and Storage are the signatures and PrepareForStorage.
-- - Cache: cache.go and the plain answers of router.go. Names has urlToMime and urlToIndexName,
--   Handlers the methods of cacheHandler, with the handler behind it as an argument. Remote is
--   remoteHandler, Upstream is cacheUrl and startCache.
-- - Router: the chain of handlers that router.go makes for archives and narinfos, with
--   withCacheHandler. Its state is the local store and the queue of the URLs to be fetched.
-- - Docker: docker.go, upload_manager.go and blob_manager.go. A manager is a goroutine that answers
--   one message at a time while the caller waits: a call is a step on its state. Uploads is a heap
--   of buffers with the map of pointers, since a handler writes through the pointer that the manager
--   answers. Manifests is manifest_manager.go and the handlers of manifests, History the loop of
--   manifestGet.
-- - Assembler: assemble.go, the reader over an index, with the loop of io.Copy around it, and
--   assembleNarinfo.
-- - Lru: chunkLRU of gc.go, which decides what chunks live, and what gcOnce does with the chunks it
--   finds.
-- - Gc: gcOnce of gc.go. Limit is maxCacheSize, Chunks the walk over the store, Check is
--   checkNarContents, Indices the function of the walk over the indices, Workers that walk and its
--   three goroutines as a step relation, Sweep the removals, Once the whole.
-- - Startup: the proxy of main.go, and what main does to set it up.
-- - Keys: helpers.go, the public and the private keys.
-- - Logging: log_record.go, with a handler as the list of its calls on the writer.
-- - Fakes: fake.go, the stores in memory.
-- - Desync: the calls of the library desync, as parameters with the laws that its documentation
--   gives.
-- - Tests: runs at fixed inputs, and the theorems at inputs that meet their hypotheses.
--
-- Bounds and fuel. The scanner of Unmarshal has a buffer of 1 MiB, in which a line and its newline
-- must fit. Sizes are int64 and parsed with the range check of strconv; the LRU and the assembler
-- keep their counters as the code does, the assembler's as bit patterns of 64 bits. Printing a
-- number n takes at most n + 1 rounds; a binary search over n elements takes at most n rounds; Add
-- drops at most as many chunks as there are; a copy of an index runs on fuel, and the theorem about
-- it says how much is enough. The check of an archive has one round more than the archive has bytes,
-- since a reader that goes on has read some. The limit of the collector is computed in 64 bits. The
-- channel of the URLs to be fetched has 10000 places.
--
-- Parameters: ed25519 and base64 (Narinfo.Signatures.Crypto, and the decoder of Keys), desync
-- (Desync.Desync), xz and the text of errors (Cache.Handlers.Texts), the generator of uuids and the
-- contents of key files; the HTTP client and the parsing of URLs (Cache.Upstream.Client,
-- Cache.Remote.Urls), with the answer that comes first; the reader of archives (Gc.Check.NarReader),
-- the names of chunk files (Gc.Chunks.Ids) and the removals (Gc.Sweep.Removal), with the entries
-- that a walk finds and the time; the file system of the manifests and encoding/json
-- (Docker.Manifests.Disk and Codec, Handlers.Json). The files, stores and URLs of the set-up are
-- Startup.Host. Their laws are records or hypotheses beside them. A panic of Go is none where it can
-- happen; for a handler that asks substituters, so is the wait for a place in the channel.
--
-- Not modelled: the timers around gcOnce and verify, which is one call of desync; the metrics and
-- the log beside the record of requests; the rest of main.go, which is the command line, signals,
-- the set-up of the log and the server; the matching of routes and the recovery of panics (gorilla).
-- Concurrent requests on one upload are not modelled, the handlers run one after another; nor are
-- requests that change the store while the collector runs. The scanner of bufio gives up after 100
-- reads in a row without a byte, which an index does only with as many empty chunks in a row.
pub mod Startup
pub mod Fakes
pub mod Logging
pub mod Router
pub mod Base
pub mod Strings
pub mod Decimal
pub mod Regex
pub mod Narinfo
pub mod Keys
pub mod Lru
pub mod Desync
pub mod Assembler
pub mod Assoc
pub mod Http
pub mod Cache
pub mod Docker
pub mod Gc
pub mod Tests
