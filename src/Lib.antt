-- ===== src/Lib.antt =====
-- gabby: a server of chat completions (C++, src/) with its own JSON library, HTTP server and thread
-- pool. This library models the program's logic and proves what makes it correct.
--
-- The parts. `main` (src/main.cc) reads flags into a configuration and starts the service
-- (src/service.cc). The service registers its handlers with the router (src/http/router.cc) of the
-- HTTP server (src/http/server.cc) and loads the model (src/inference). The server's listener hands
-- each connection to the thread pool (src/http/thread_pool.cc), where a worker parses the request,
-- calls the handler with a response writer, and turns an exception into a status. The chat handler
-- parses its JSON body from the stream (src/json/parser.cc), asks the generator, and prints the
-- answer (src/json/json.h).
--
-- The files.
--   Base, Base/*: library names passed on, Boolean tests, lists on native numbers, bytes.
--   Outcome: the exceptions of the program and the outcomes of calls; a failed assertion is `aborts`.
--   Json/Value: src/json/json.h and json.cc, values, `==`, printing, downcasts.
--   Json/Source: `Scanner::GetChar` and `UngetChar` on a `FILE*` with a size limit, and the abstract
--     source, a list of bytes. Json/Scan, Json/Parse: the rest of `Scanner`, and `Parser` and
--     `Parse`, over either source.
--   Json/Keys: the map of an object. Json/Equality, Covers, Swap, Symmetry, Transitivity: `==`.
--     Json/Iterator: the iterator of `ArrayValue`, with an address for `array_` and the 32-bit
--     pattern of `index_`. Json/Maps, Parsed: the keys of what is parsed. Json/Refine/*: each
--     operation over the stream does what it does over the list.
--   Json/Total/*: the fuel is enough. Json/RoundTrip/*: the parser on printed values, also with
--     numbers that are rounded, and a test for such values.
--   Http/Types: src/http/types.h. Http/Lines: `ReadLine`. Http/Request: `ParseMethod`, `ParsePath`,
--     `ParseHeader`, `ParseRequest`. Http/Writer: `SocketWriter` and `MustSend`. Http/Interface:
--     `ResponseWriter`, which `SocketWriter` fills. Http/Server: `Handle`. Http/Router: `Router`.
--     Http/Connection, Task: the task of a worker, time limits and sockets. Http/Lifecycle: `Start`,
--     `Stop`, `Wait`, `Listen` and `Accept` as a step relation over the pool; Http/Lifecycle/*: its
--     invariant, the clients handed over, the end of the loop, the shutdown, a `Stop` during `Start`,
--     and that clients are served. Http/Framing, Exact, RequestText, Headers, Response, ResponseText,
--     Refusals, Delivery: the theorems on requests and responses.
--   Http/What: the texts of the exceptions. Http/Client: src/http/test_client.cc, the client of the
--     tests; Http/Client/Sent, Reply: what it sends and gets. Http/Digits: the numbers in headers.
--   Service, Service/Completion, Answers: src/service.cc and the conversation on the wire.
--     Service/Reading: `ReadAll`. Service/Roles: `FindMessageForRole` with iterators.
--     Service/Conversation: the client and the service together.
--   Pool/Model: src/http/thread_pool.cc as a step relation, with workers that sleep and are notified.
--     Pool/Order, Wakeups, Progress, Shutdown: its theorems.
--   Inference/Files: src/utils/pointers.cc and `ParseFile`. Inference/Tensors, Header:
--     src/inference/safetensors.cc. Inference/Loading, Directory, RoundTrip: src/inference/config.cc
--     and generator.cc. Inference/Tokenizer: src/inference/tokenizer.cc, which finds no tokens.
--   Config, Config/Flags: `ParseConfig` of src/main.cc, the log levels. Main, Main/Starts: `Run` and
--     the constructor of the service.
--   Logging, Logging/*: src/utils/logging.cc, and the texts of log lines from several files.
--   Testing, Testing/Verdict, Report: src/test/test.h and test_main.cc, the test framework: the exit
--     status and the lines that are printed.
--   Tests modules: runs on concrete inputs.
--
-- State. A `FILE*` that is read is its unread bytes and what stands behind them: the end, a timeout
-- (EAGAIN) or an error. A `FILE*` that is written is the bytes it took and its answers to the calls
-- of `fwrite`. The writer's methods keep their state where they throw, so a call gives an outcome and
-- a writer. Assertions are taken to be compiled in; reading an empty optional is `aborts` too. The
-- stream of a connection is one `FILE*`, which is read and then written. What the flush makes of what
-- was written is a parameter, `fflush`: behind input that is buffered and has not been read it fails
-- on a socket and the response is lost. So the theorems on what a client gets are about requests that
-- are read to their ends, with a flush that delivers. What the stream gives is a function of the time
-- limit.
--
-- A connection of the client is the failures of `connect`, the answers of `write`, and what comes
-- back for the bytes that were sent.
--
-- Bounds and fuel. Each loop of the scanner takes one byte a round, and so runs on one more than the
-- bytes that can be read; the parser runs on twice that number and one, since each token takes at
-- most two of its calls; the header loop takes a byte a line. The loops of the pool and the listener
-- have no bound: they are steps, and progress is stated as a run of steps that exists, of the
-- program's own threads and without a spurious wakeup. Texts of 2^31 bytes and more get the `int`
-- sizes that the conversions give. `std::find_if` runs on one more round than the array has elements.
-- Bytes are numbers, doubles their 64-bit patterns; `int` sizes may be negative.
--
-- Parameters. `std::stod`, `std::stoi`, printing of a double, `std::regex_match`, the number of
-- processors, the default model directory, and the generator's answer; the answers of the system
-- calls and of `fflush`; the files on the disk, what is behind the end of a mapped file, and shifts
-- that C++ leaves undefined.
--
-- Not modelled: a read that blocks for ever, as it may where a time limit is 0; that the signal
-- handler of src/main.cc interrupts the thread that waits; a second `Start` of one server; the tests
-- themselves. The iteration order of `std::unordered_map` is the order of the list. An exception on
-- the way through the model's files loses the count of open descriptors.
pub mod Base
pub mod Outcome
pub mod Json
pub mod Http
pub mod Service
pub mod Pool
pub mod Inference
pub mod Logging
pub mod Config
pub mod Main
pub mod Testing
