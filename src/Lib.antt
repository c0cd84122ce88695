-- ===== src/Lib.antt =====
-- FastNet, a C++ library for TCP, UDP, HTTP and WebSocket programs: a model of its
-- wire formats, of the buffer that carries them, of its timers, its connection
-- manager, its lock-free queue and its spin lock.
--
-- The parts of the program and the modules for them:
--   Base64             src/base64.cpp: base64Encode, tryBase64Decode and their wrappers. Every
--                      WebSocket handshake encodes its keys with it.
--   ConnectionManager  src/ConnectionManager.cpp and include/FastNet/ConnectionManager.h. State has
--                      the tables, Breaker the circuit breaker and the names of strategies, Select
--                      the load balancing, Pool and Acquire the connections, Backends the backends
--                      and the reports, Stats the statistics and the names of the services, Actions the
--                      runs of the calls, Lifecycle the maintenance thread with its start and
--                      end; Inv is the invariant, Listing the set of the services' names, and the
--                      other files are named after what they prove.
--   FastBuffer         include/FastNet/FastBuffer.h: the buffer of the transports. Inv has its
--                      invariant, Refine the byte string that it stands for; the other files are
--                      named after the operations that they are about.
--   WebSocketProtocol  src/WebSocketProtocol.cpp. Sha1 is the class of that name, field by field,
--                      and its Rfc3174 the hash as that text describes it;
--                      Handshake has createHandshakeKey, createAcceptKey, createHandshakeResponse
--                      and the random bytes, and Reply the answer as parseResponse of HttpParser
--                      reads it; Frame has encodeFrame, decodeFrame and its overloads.
--   HttpParser         src/HttpParser.cpp and include/FastNet/HttpParser.h. Text has its searches
--                      and comparisons, Numbers its sizes, Headers the header maps, Views the views
--                      of messages, Message their parsers, Build their writers, Chunked the chunked
--                      coding, Url queries and percent encoding.
--   MpscQueue          include/FastNet/MpscQueue.h, the lock-free queue: Queue has its nodes and the
--                      steps of its threads, Waiting and Inv the invariant, Fifo the order, Destroy
--                      the destructor.
--   SpinLock           include/FastNet/SpinLock.h: Lock has the steps of the threads, Exclusion what
--                      holds between them.
--   Timer              src/Timer.cpp and include/FastNet/Timer.h: TimerManager. Manager has its
--                      state, Clients its calls, Loop its worker, Actions the runs of both; Inv is
--                      the invariant. Timeouts is ConnectionTimeoutManager, which uses it.
--   Prelude            numbers, tests, lists, bit operations and memory writes that these share.
--
-- How the models correspond to the code:
--   * A std::string, a string_view or a Buffer is the list of its bytes, each a number below 256
--     where a theorem needs that. Unsigned words wrap by `% 2 ^ w`, written out. A shift is
--     `shl` or `shr` of Prelude.Bits; `&`, `|` and `^` are the native bit operations.
--   * A function that fills an output argument returns the flag and what the argument then holds,
--     also where the flag is false.
--   * The loop of Sha1::update takes the number of input bytes as fuel: each round copies a byte at
--     least. So do the rounds of parseChunked and buildChunked, whose fuel is the size of the text.
--     Digits are written and counted on fuel 20, the length of the longest size_t. The other loops
--     but the growth of a FastBuffer are structural.
--   * A std::map is the list of its entries in the order of the keys, by bytes. A loop that takes
--     the parts of a text between separators one by one goes over the list of these parts. An
--     HTTP parser returns its flag with the view that it leaves. A length that is computed by a
--     subtraction or a sum of sizes wraps at 64 bits, and a std::string that would grow beyond
--     2 ^ 63 - 1 bytes, the limit of libstdc++, throws.
--   * A FastBuffer's two storages are lists; a pointer into the buffer itself is `own`, with its
--     offset. The allocator is a parameter, which may return none; a new block holds anything. An
--     operation that throws returns the exception beside the buffer that it leaves. A sum of two
--     sizes wraps at 64 bits. The growth loop has fuel for 27 doublings, and 26 lead from one byte
--     to the limit of 64 MB.
--   * The threads of a TimerManager take its mutex in turn: an action is a call, or what the worker
--     does from one use of the mutex, or of the callback, to the next, and a run is a list of
--     actions. The shared pointers are numbers, with a store of the entries that they point to, so
--     that the queue, the table and the worker see one flag. The queue is a list; a round of the
--     worker's inner loop names the element that top() gives, any one that no other is due before.
--     A call that has to wait has no result; start and stop do not overlap. Scheduling a
--     timer is one action, although only its insertion holds the mutex. Sums of times and
--     durations are taken not to overflow.
--   * The steps of the SpinLock and of the MpscQueue interleave in any order, each up to its next
--     access to memory that another thread writes: an exchange with the making of the node before
--     it, a store to a link, and a round of the consumer from one load of a link to the next. The
--     atomic operations are taken to be sequentially consistent. A node is a number that is never
--     given out again.
--   * A call of the ConnectionManager holds its mutex from start to end, so a run is a list of calls
--     and of rounds of the maintenance thread, each with the time that it reads. The two unordered
--     maps are lists of entries in any order; a pointer to a backend is its index. The loop of
--     acquireConnection takes the number of idle identifiers as fuel: each round takes one. The
--     hash of the affinity key and the draw of the random distribution are parameters. Times are
--     ticks that never run backwards, the configured times are not negative, and the weights, an
--     int each in the source, are integers without bound, to which Weights/Range adds when their
--     sums fit in an int; sums over backends, services and connections are taken to fit in a
--     size_t.
--     The maintenance thread is modelled apart from these runs: each of its steps is a test of
--     `running` or what it does while it holds the mutex. The two parts of initialize, the exchange
--     and the thread, the three of cleanup, the exchange, the join and the tables, and the calls
--     come between them in any order. One cleanup at a time is followed; another one that finds
--     the manager stopped only clears the tables, as a call. A wake of the thread without an effect
--     is no step. The model notes where the program would call std::terminate and goes on.
--   * The outputs of std::mt19937_64 are a parameter, a function from the draw's index; bytes of a
--     word are in little-endian order, and size_t has 64 bits.
--   * std::isspace, isdigit, isalnum and tolower are those of the C locale.
--
-- Not modelled: the allocation of strings and its failure, the seeding of the random engine,
-- the class Timer and the global manager; and the parts of the library that are not named
-- above: transports and sessions, which are system calls and callbacks of input and output, the
-- allocator and the counters, which need the heap or floating point, and the containers,
-- configuration, errors and logging around them.
pub mod Prelude
pub mod Base64
pub mod ConnectionManager
pub mod FastBuffer
pub mod HttpParser
pub mod MpscQueue
pub mod SpinLock
pub mod Timer
pub mod WebSocketProtocol
