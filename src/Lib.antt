-- ===== src/Lib.antt =====
-- A model of pyspark-connect-web, the PySpark Connect client that runs in the browser.
--
-- PySpark talks gRPC, and a browser has neither sockets nor grpcio. The package patches PySpark
-- so that a connection string of the web scheme leads to a stub that speaks grpc-web over a
-- blocking channel, and decodes the Arrow batches of the answers. The parts, in the order in
-- which a query meets them:
--
--   * pyspark_connect_web/patch.py checks PySpark's version, rewrites https://, http:// and
--     sc:// strings, and replaces the channel builder's constructor and toChannel and the stub
--     class. Patch.Version has _parse_major_minor and check_pyspark_version, Patch.Url has
--     _is_web_url and _normalize_web_url, Patch.Hooks the factories and the functions that
--     install puts in place, and Patch.Install the state that install and uninstall change.
--   * pyspark_connect_web/transport/grpcweb.py, class GrpcWebStub, makes HTTP calls of gRPC
--     calls. Client has the constructor, the methods and the three kinds of call; Stub has the
--     headers, the check of the status, the decoding of a unary body and the reassembly of a
--     streamed one.
--   * pyspark_connect_web/_contract.py is the seam between stub and channel: Contract.
--   * pyspark_connect_web/worker/sab_channel.py, class SabSyncChannel, is the channel in the
--     browser. Sab has the channel over any backend. Its own backend, class _AtomicsBackend,
--     shares memory with the main thread: Sab.Memory is the memory, Sab.Window the reading of a
--     response window, Sab.Machine the waits, Sab.Atomics the request and a unary call,
--     Sab.Atomics.Start the constructor, and Sab.Streams a stream.
--   * pyspark_connect_web/worker/kernel_bootstrap.py checks that the worker can use the
--     channel: Sab.Kernel.
--   * pyspark_connect_web/worker/bridge.js, class Bridge, is the main thread's side of that
--     memory: Sab.Bridge. Sab.Transfer has the payloads that go from one side to the other, and
--     Sab.Protocol the two threads as one system, whose steps interleave
--     (Sab.Protocol.Regions: the messages by which a larger region reaches the bridge).
--   * pyspark_connect_web/transport/framing.py frames messages and trailers: Framing.
--   * pyspark_connect_web/arrow/results.py puts chunked Arrow batches together and decodes
--     them: Arrow, and Arrow.Decode for the frame. Arrow.Local is the other direction, the
--     encoding of a local frame.
--   * pyspark_connect_web/_grpc_shim.py registers stub modules where grpcio is missing, so that
--     PySpark can be imported: Shim, and Shim.Stubs for their attributes. Stub.Retry has the error
--     that grpcweb.py makes of them for PySpark's retries.
--   * scripts/validate_deploy.py checks the deployment files before a release: Deploy.
--
-- Prelude has the shared names, tests and lemmas on lists, and Prelude.Results the outcomes:
-- `Result` is what a call returns or raises, and `Gen` is the run of a generator, which yields
-- and then stops or raises. Text models what the package uses of str and bytes (a str is the
-- list of its code points, bytes are the list of their values), and Dict is Python's dict with
-- str keys. Messages of exceptions are kept as the values that they print.
--
-- State. The generators of grpcweb.py keep a buffer and flags (`StreamState`), the loop of
-- results.py keeps batches, schema, buffered chunks and a row count (`Reassembly`), and patch.py
-- keeps the replaced attributes with their originals (`World`). Each operation takes the state
-- and gives the next one; a channel's operations take and return a state of the channel's own.
-- The state of the shared-memory backend is `World` of Sab.Machine: the memory, what the worker
-- knows of it, what it has posted, and a script of what the main thread will do. The worker parks
-- while it waits for the main thread, and the script has what the main thread writes while the
-- worker is parked: each event is a change of the memory that ends or prolongs one wait, or the end
-- of a wait by its timeout. A script that is too short leaves the worker parked (`blocked`). A
-- control word is its 32 bits, and a load reads it as a signed number. Sab.Protocol leaves the bytes
-- out and has every order of steps: a step is that of one thread from one access of the state word
-- to the next, or a timeout of the worker's wait. A response is known there by the generation of
-- the request that it answers. Sab.Protocol.Refinement relates the two: the stores of the memory
-- model are those of the steps. The bridge reads a request from the buffer that it has attached
-- (`View` of Sab.Bridge), which after a growth need not be the worker's; its writes are modelled
-- where it has the worker's buffer.
--
-- Loops. iter_frames reads at least the five bytes of a header in every round, and its loop runs
-- on fuel that is the length of the data and one more; the inner loop of _stream_responses
-- consumes the same at the front of the buffer and has the buffer's length as fuel. Both loops
-- are shown to end for another reason than fuel by the statements on their whole runs. The loop
-- that doubles the capacity has the wanted size as fuel, the windows of a message have one round
-- more than the message has bytes, and their reassembly has one round more than the script has
-- events, each round taking at least one. The other loops follow their input's structure.
--
-- Not under the repository, and so parameters: protobuf's serializer and parser (`Codec`), the
-- channel of a stub (`SyncChannel`) and the backend of the browser's channel (`SyncBackend`),
-- JSON texts (`Json`), pyarrow (`PyArrow`), pandas (`Frames`), PySpark's own classes (`Host`),
-- and the tables of the Python runtime for characters beyond ASCII (`Unicode`). str.strip,
-- str.split, dict and UTF-8 are written out.
--
-- Not modelled: fetch itself, which pyspark_connect_web/worker/bridge.js calls, and the scripts
-- that start Pyodide; the conversion of posted messages to JavaScript objects; of the classes inside
-- the stub modules, anything but their names and the members of the enumerations; the __init__.py
-- files, which re-export names; and the demo notebook and the examples, which only use the package.
pub mod Prelude
pub mod Text
pub mod Dict
pub mod Framing
pub mod Contract
pub mod Stub
pub mod Client
pub mod Arrow
pub mod Patch
pub mod Shim
pub mod Deploy
pub mod Sab
