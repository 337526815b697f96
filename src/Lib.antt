-- ===== src/Lib.antt =====
-- ag-core: six parts of the framework. The first is its network library: the inbound path from the bytes
-- of a socket event to decoded frames, the handlers that they pass, and the event loops with their
-- connections. The second is how the calls of services run through middlewares, transactions included.
-- The third is the configuration: the ordered list of property sources, and the placeholders in values. The
-- fourth is the where clauses that queries are given, the fifth is the
-- metadata of calls, and the sixth is the manager of caches.
--
-- The network library is contribute/agonet. An event loop gives a connection the bytes of one event; a
-- handler reads them through the connection's Reader, and what it leaves waits for the next event in an
-- elastic ring buffer. The length field codec of the simple package is such a handler. Each part is a
-- module here, and stands on those before it:
--   Pow      contribute/agonet/pkg/math/math.go: `CeilToPowerOfTwo`, `ClosestPowerOfTwo`,
--            `IsPowerOfTwo`. `Pow.Laws` has their theorems.
--   Ring     contribute/agonet/pkg/buffer/ring/ring_buffer.go: the record `Buffer` with the fields of
--            the struct, and a function for each method; `Ring.Write` has the writers and `grow`, and
--            `Ring.Drain` has `WriteTo`, whose io.Writer is a parameter.
--            `Ring.Valid` has the invariant `IsValid`, and `contents`, the queue of bytes that a buffer
--            stands for; the other modules below Ring show what each operation does to that queue.
--   Elastic  contribute/agonet/pkg/buffer/elastic/elastic_ring_buffer.go: a ring buffer that is there
--            or not, beside the state of its pool. The pool is the interface `RingPool`.
--   Conn     contribute/agonet/connection.go, the methods of agonet.Reader on `conn`, and the end of
--            `eventloop.read` in contribute/agonet/event_loop.go. `Conn.Stream.stream` is the bytes
--            that have arrived and were not taken, over both buffers.
--   Reader   agonet.Reader as an interface, with the laws that a decoder relies on;
--            `Reader.OfConn` shows that an open connection is one.
--   Codec    contribute/agonet/simple/codec_length_field_decoder.go and codec_length_field_encoder.go,
--            over any Reader. `Codec.Sound` describes the decoder on a plain list of bytes,
--            `Codec.RoundTrip` sets it against the encoder, `Codec.Events` runs it over two events of a
--            connection. `Codec.Traffic` has `HandleRead` and `OnTraffic` of
--            contribute/agonet/simple/simple_event_handler.go, which wakes the connection again while
--            frames are left.
--   EventLoop contribute/agonet/event_loop.go: `open`, `read`, `wake` and `close` on the connections of a
--            loop and on the counters. `EventLoop.Count` has the counters, `EventLoop.Steps` the steps
--            among those of other loops, `EventLoop.Limit` what they keep; `EventLoop.Queue` has
--            the queue of events and `run`, `EventLoop.Run` how it ends, `EventLoop.Told`,
--            `EventLoop.Sockets`, `EventLoop.Settled` and `EventLoop.Down` what becomes of the
--            callbacks and the connections.
--   Pool     contribute/agonet/pkg/pool/ringbuffer/ringbuffer.go: the pool that Elastic takes its ring
--            buffers from. `Pool.Index` has the size classes, `Pool.Kept` what is handed out,
--            `Pool.Put` what `Put` does.
--   Pipeline contribute/agonet/simple/pipeline.go and context.go: the doubly linked list of handler
--            contexts as a store of links. `Pipeline.Linked.Holds` says which handlers it holds in
--            which order, `Pipeline.Add` what additions do to them, `Pipeline.Fire` which handler an
--            event reaches.
--   Balancer contribute/agonet/load_balancer.go: the load balancers over a list of event loops.
--            `Balancer.Laws` has registration and the least connections, `Balancer.Spread` the round
--            robin.
-- The services are called through chains of middlewares:
--   Service  ag/ag_service/service_callinfo.go: what is known about a call. `Service.Chain` has
--            agservice_builder.go, endpoint.go and `RegisterHandler` of service_middleware.go beside it;
--            `Service.Transaction` has contribute/agdb/transaction.go and
--            transaction_service_middleware.go.
-- The where clauses of queries:
--   WhereClause  contribute/agdb/conditonwhere/where_clause_builder.go: `buildWhereCondition` on trees,
--            with `WhereClause.Closed`, `WhereClause.Marks` and `WhereClause.Errors` for its text and its
--            errors; `WhereClause.Columns` has the check for an index, which `WhereClause.Index`
--            describes. `WhereClause.Chain` has the builder on a store of conditions, since its methods
--            share pointers; `WhereClause.Refine` sets it against the trees.
--   Mask     contribute/agdb/conditonwhere/fieldmask.go: conditions with named parameters. `Mask.Filter`
--            has what a mask leaves of them, `Mask.Wildcards` and `Mask.Concat` the loop that rewrites
--            wildcards, and `Mask.Config` `BuildWhereFromConfig`.
-- The configuration:
--   Cow      ag/ag_ext/copy_on_write.go: `CopyOnWriteSlice`, of references.
--   Sources  ag/ag_conf/sources_mutable_property_sources.go over Cow. `Sources.Unique` has the invariant
--            that names are unique, `Sources.Insert` and `Sources.Place` what additions do and where they
--            put a source, `Sources.Remove` the rest.
--   Placeholder  ag/ag_conf/property_placeholder_helper.go: the replacement of `${key:default}` in texts.
--            `Placeholder.Scan` has the search for an end with any prefix and suffix,
--            `Placeholder.Search` the searches with the usual ones, `Placeholder.Flat` and
--            `Placeholder.Circular` what the replacement gives.
-- The caches:
--   Cache    ag/ag_cache/manager.go: the manager that makes named caches when they are first asked for.
--            `Cache.Steps` has calls side by side, `Cache.Owned` who owns an engine, `Cache.Again` a call
--            that nothing interrupts.
-- The metadata:
--   Metadata ag/ag_common/agmetadata/metadata.go: the metadata that contexts carry, in wrappers that
--            they share. `Metadata.Laws` has what is parsed, `Metadata.Contexts` what the contexts
--            show.
-- Shared:
--   Sorting  what the parts rely on of sort.Sort, and a sort by insertion that has these laws.
--   Prelude  names and lemmas that the parts share; Samples: data for the tests, in modules Tests.
--
-- How the code is read. A byte is moved and never computed with, except in the length field, so it is
-- any natural number. Sizes and indices are natural numbers where the code keeps them from being
-- negative; an `int` that may be negative is an integer (`Prelude.Int`), and the one sum that is made in
-- `int64` keeps its wrap-around. The decoder's configured adjustment and the end of its length field are
-- taken to have a sum that fits an `int`. A panic is `none`, or `panicked` for the decoder. An operation
-- that changes its receiver returns the new one, and slices that it fills are part of the result. Slices
-- are values: the code's copies keep them apart from the storage. `byteslice.Get n` gives a slice of
-- unknown contents, the parameter `fresh` with the hypothesis that it has n bytes; `byteslice.Put` has no
-- effect that the buffers see. `buffer` of a connection is a third-party ByteBuffer whose bytes are read
-- and replaced as a whole. `bits.Len` and `binary.ByteOrder` are Go's, written out as documented.
--
-- A property source is a reference, compared as a number, and its name is a number too, since the code
-- only compares names; `get_name` is a parameter that does not change. Each operation on the sources
-- holds the lock of their list, and is one step.
--
-- A context of the pipeline, and a wrapper of metadata, is an address of a store, whose fields are
-- functions. What a handler of the pipeline does is not part of it: an event gives the context whose handler
-- is called. An event loop is seen with the user's handler as a parameter, which returns an action or panics
-- at each call, and with the other loops as steps on the counter of the engine between its own; the
-- limit and the number of loops together stay below 2 ^ 31. The pools `sync.Pool` and the order of sort.Sort,
-- which is not stable, are parameters with the laws that Go documents. A middleware is a function on
-- endpoints of any type, and the transaction manager a parameter that runs its function with contexts that
-- it has bound a transaction to. A string is the list of its bytes for placeholders, and a number for
-- metadata, which are only compared.
--
-- The conditions that the builder of where clauses shares by pointers are a store, and `condition_at` reads a
-- tree from it. A value of a condition is opaque but for the test whether it is a `[]interface{}`. A map of
-- fields is the list of its keys. The two times that `getOrCreate` takes the lock of the manager of caches are
-- one step each.
--
-- `OnTraffic` is read for a pipeline whose inbound handlers behind the decoder leave the reader alone, and
-- `rounds` makes the calls in a row, each where the one before asked for `Wake`, when no further bytes come
-- in between; one round for each frame is enough. What the event loop does with the action that a call
-- returns is in EventLoop, and the end of the event, with the limit, in `Conn.end_event`.
--
-- `run` of an event loop gets the events that come before it ends as a list. How many of them `select` takes
-- before `ctx.Done`, and how many `drain` takes before its deadline, are parameters.
--
-- Fuel. `grow_loop` gets the wanted capacity as its fuel: each round adds a quarter of a size of at least
-- 4096 bytes, so it ends earlier. `len_fuel` gets 64 binary digits, the width of a word.
-- The rounds of `Placeholder.run` count those of its nested calls: one for each placeholder is enough where the values hold
-- none. `find_end` gets one round more than the text has bytes, and each round passes at least one where the
-- prefix and the suffix are not empty. `close` calls itself once at most, when the connection is gone.
-- `condition_at` needs the height of the tree. The loop of `convertLikeWildcards` gets one round more than the
-- text has bytes, and each round passes one.
--
-- Not modelled: sockets, goroutines and locks; the sending to an event loop's queue; the write side of
-- a connection; ReadFrom of the buffers; WriteTo of the elastic buffer and of the connection;
-- `FloorToPowerOfTwo`; the copy-on-write map; the recovery middleware; binding, watching and files of the
-- configuration; the typed caches and their serialisation; what parses where conditions from a file; logging,
-- adapters and generators.
pub mod Prelude
pub mod Pow
pub mod Ring
pub mod Elastic
pub mod Conn
pub mod Reader
pub mod Codec
pub mod Cache
pub mod WhereClause
pub mod Mask
pub mod Samples
pub mod Balancer
pub mod EventLoop
pub mod Pool
pub mod Pipeline
pub mod Cow
pub mod Sorting
pub mod Metadata
pub mod Service
pub mod Placeholder
pub mod Sources
