-- ===== src/Lib.antt =====
-- osproxy, a multi-tenant proxy in front of OpenSearch clusters. A request is classified by its path,
-- admitted against a byte budget, resolved to a partition and to the placement of the partition,
-- rewritten (document ids, injected fields, filters) and dispatched to a cluster behind a circuit
-- breaker. A control plane moves partitions between clusters: every placement carries an epoch, and a
-- write that was routed by an outdated epoch is refused at a gate.
--
-- Parts and files. A struct is a record, an enum a data type, a map an association list with distinct
-- keys (Prelude/Map), a text the list of its bytes (Prelude/Bytes). A method that runs under its lock is
-- one function from the old state to the new state and the answer.
--   Core/Ids, Core/Time, Core/Endpoint: crates/osproxy-core/src/ids.rs, time.rs, endpoint.rs.
--     Core/Json: the JSON values of serde_json. Core/Endpoint/Names: the names of the classes.
--   Core/Scan: crates/osproxy-core/src/json.rs. A parser at a cursor is the bytes that are left, a method
--     is a function from these to an answer and the bytes behind it (Cursor). Strings, Skip and Document
--     hold the scans of strings, of values and of documents, Boundary the search by words of 32 bytes, with
--     Lanes (the mask of a word) and Words (the search);
--     Bounds, Reach and Values are about the cursor, Document/Ends and Document/Escapes about answers.
--   Core/Trace: the trace context of crates/osproxy-core/src/trace.rs, which writes carry along.
--   Core/Cursor: crates/osproxy-core/src/cursor.rs, with Hex (the digits) and Envelope (tokens).
--   Spi/Rules, Spi/Placement, Spi/Failure, Spi/Request, Spi/Tenancy: crates/osproxy-spi/src/rules.rs,
--     placement.rs, error.rs, request.rs with the lookup of principal.rs, and tenancy.rs, whose trait is a
--     record of operations over a world `W`: what they see and change, other requests included.
--   Tenancy/Migration, Tenancy/PlacementTable: crates/osproxy-tenancy/src/migration.rs and
--     placement_table.rs. `transition` takes the closure of each operation (`begin_step`,
--     `cutover_step`, ...). Below PlacementTable: Operations (sequences of operations and the invariant
--     of stamps), Gate (the write gate), Lifecycle (the state machine of a migration).
--   Tenancy/Resolve, Tenancy/Router: crates/osproxy-tenancy/src/resolve.rs (the partition of a request,
--     with Order) and the transform and the target of router.rs (with Transform).
--   Tenancy/Routing: the methods of `TenancyRouter` in router.rs and the trait `Router`, which it fills.
--   Control/Migration: crates/osproxy-control/src/migration.rs. The trait of stores is a record of
--     operations with a record of laws (Store), the placement table is an instance (Table), and
--     Calls and Barrier are about the drain barrier over any calls of one controller.
--   Control/Affinity: crates/osproxy-control/src/affinity.rs, with Bounds and Lookup.
--   Sink/Breaker: crates/osproxy-sink/src/breaker.rs, with History.
--   Sink/Batch, Sink/Read, Sink/Interface: batch.rs, ack.rs, error.rs, read.rs and sink.rs of the same crate.
--     The trait `Sink` is a record with the law that its documentation states, one result for each
--     operation. Sink/Memory: memory.rs, with Store (what a batch does to a function from keys to documents); it
--     fills the interface.
--   Transport/Admission, Transport/Classify: crates/osproxy-transport/src/admission.rs and classify.rs.
--     `try_reserve` is modelled by one round of its loop, and Interleaving steps any number of threads
--     over one counter. Classify/Buffer is about the stack buffer, Classify/Guards about the classes.
--   Engine/Retry: crates/osproxy-engine/src/retry.rs, with Attempts.
--   Engine/Read: the hits and the filter terms of crates/osproxy-engine/src/read.rs, with Hiding (what a
--     client does not see).
--   Engine/Bulk: crates/osproxy-engine/src/bulk.rs, bulkprep.rs and bulkline.rs. Line holds the lines of the
--     response, Item and Prepare the preparation of an operation, Demux the buffers, the gate and the
--     flushes, Ingest the request. Echo is about what a line shows, Positions about where the lines stand
--     (Slots, Flushes, Tracked, Pending), Gate about what is delivered, Bounds about the buffers. Stream
--     reads the operations of a streamed body from its lines, with Buffered.
--   Engine/SearchScan: crates/osproxy-engine/src/search_scan.rs. State, Handlers and Machine hold the
--     scanner; `is_hits` and `transform` are parameters of its steps, which `decoded_key_is_hits` and
--     `transform` fill. Forwarding is the invariant, Steps is about each handler and Streaming about a
--     response in chunks.
--   Rewrite/Id, Rewrite/Failure: crates/osproxy-rewrite/src/id.rs and error.rs, with Totality,
--     Roundtrip and Collision.
--   Rewrite/Fields: crates/osproxy-rewrite/src/fields.rs, with Inverse (values) and Splice (bytes).
--   Rewrite/Ndjson: crates/osproxy-rewrite/src/ndjson.rs, with Splitting; memchr is a parameter.
--   Rewrite/Bulk: crates/osproxy-rewrite/src/bulk.rs; the lines come from Rewrite/Ndjson.
--   Rewrite/Query: crates/osproxy-rewrite/src/query.rs. What serde_json does is a record of operations
--     (Serde) with a record of laws (Enclosure). Global is about aggregations, Screening about the
--     guard in front of a filtered search, Text about the query that is written.
--   Wal/Segment, Wal/Drain: crates/osproxy-kafka-wal/src/segment.rs and lib.rs. A file is its bytes. Frames
--     is about reading back what was written, Queue about the records that wait, Compaction about
--     compacting while some wait. Drain takes the drainer by its critical sections: Steps is about one of
--     them, Room about what is accepted, Interleaving about runs of producers and the drainer.
--   The modules called Tests hold runs at concrete inputs.
--
-- Bounds and fuel. Instants and durations are nanoseconds. The generation counter wraps around at 2^64,
-- as the atomic does. A `usize` has 64 bits. The loops over a template take one more than its length as
-- fuel, since each round passes over two braces at least; the retry loop takes one more than the allowed
-- attempts. The scan of a value takes 2 n + 1 for n bytes left, since an object, its members and its
-- values take one each and every second of these takes a byte; the other loops of the scanner take a byte
-- in every round. A byte of a response takes two rounds of its scanner at most, whose nesting counters
-- wrap around at 2^32. A bulk keeps at most 256 operations and 4 MiB of documents for each target; its
-- loops run over the operations and need no fuel, but for reading them one by one, where every round
-- takes a line. Theorems state that the fuel is enough. How a body path is resolved, what the
-- placement backend answers, which instants a clock gives, what serde_json does, the signer of
-- cursors and the vectors of the crate `wide` are parameters.
--
-- Not modelled: the epoch that `set` of the placement table draws before it takes the lock, apart from the
-- insertion under it; sockets, TLS, async runtimes, exporters and the adapters to brokers and stores, which are
-- input and output; errors of the operating system on the files of the write-ahead log; poisoned locks,
-- which the code recovers from; the framing and the responses of a streamed bulk, the asynchronous bulk, and the rest of the
-- engine pipeline, which uses the parts above. In the last flush of a bulk the calls of one task are taken
-- together; what other tasks and requests do between two calls is up to the world.
pub mod Prelude
pub mod Core
pub mod Spi
pub mod Tenancy
pub mod Control
pub mod Sink
pub mod Transport
pub mod Engine
pub mod Rewrite
pub mod Wal
