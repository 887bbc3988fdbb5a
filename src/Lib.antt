-- ===== src/Lib.antt =====
-- game-store: a Redis-compatible server over a storage engine (crates/). This library models its
-- engine crate (the encodings, the version map with the compaction predicate, the RocksDB engine,
-- and the store, which implements the Redis data types over any engine), its protocol crate (RESP
-- values, their encoder, and the decoder of values and requests), its data model crate (the commands
-- and their table) and the requests of a connection in its server.
--
-- How the parts interact. A store holds an engine and a version map. A key has one metadata record
-- (type, version, expiry, payload); the members of a Hash, Set, Sorted set or List are records of
-- their own whose keys name the key and its version. Deleting a key deletes the metadata and the
-- entry of the version map only; a compaction asks the map's predicate about each record and drops
-- what is left behind. The bytes of a connection are decoded into requests; a request is answered by
-- the connection, or by the command that the table has for its name, whose handler parses its
-- arguments, calls the store and makes a reply of the result; the reply is encoded in the version that
-- the connection speaks.
--
-- Files and code:
--   Prelude, Bytes       numbers, lists, `i64`, byte strings with the big-endian conversions
--   Encoding             crates/gamestore-engine/src/encoding.rs: Keys (meta_key, subkey, zscore_key,
--                        parse_versioned and the other parsers), Score (encode_score), Meta
--   Gc                   crates/gamestore-engine/src/gc.rs: VersionMap, should_keep
--   Engine               crates/gamestore-engine/src/engine.rs and error.rs: WriteBatch, the trait
--                        GeneralEngine as a record, and what a backend promises (IsReliable)
--   Rocks                crates/gamestore-engine/src/rocks.rs: RocksEngine and PrefixScan, over a
--                        parameter that stands for RocksDB
--   Store                crates/gamestore-engine/src/store.rs: Base (clocks, versions, metadata),
--                        Strings, Hash, Set, ZSet, Lists, Admin, one function per method
--   Store.View, Store.Consistent, Store.Load, Store.Fresh: what a store holds, the invariant that
--                        ties the version map to the metadata, lazy expiry, new versions
--   Protocol             crates/gamestore-protocol/src: Frame (frame.rs), Encode (encode.rs), and of
--                        decode.rs: Parser (lines, lengths), Decode (values), Inline (split_inline),
--                        Command (decode_command); Text is what Rust's library does with text
--   Commands             crates/gamestore-datamodel/src: Base and Registry (registry.rs), and a module
--                        per file of commands/; Text and Arith are what Rust's library does with text
--                        and with `i64`
--   Server               crates/gamestore-datanode/src/server.rs: Connection (dispatch, hello, client,
--                        select, flush), Session (the loop of handle_connection)
--   Store.Keeps, Commands.Keeps, Server.Keeps: the invariant through the methods, the commands and the
--                        loop; Server.Progress, Server.Pipeline, Server.Chunks: the loop and its buffer
--   Store.Hash.ReadBack, Store.Set.Members, Store.Lists.Length: what one method reads after another wrote
--   Reference, Tests     a database in memory, and the theorems at concrete inputs
--
-- State and effects. A method is a function from the store to a result and the store it leaves, also
-- beside an error. Counts that a method replies are unbounded, where the code has an `i64` that no call
-- can fill. The store carries the process's version clock and the number of readings of the
-- wall clock, whose values are a parameter. A double is its 64 bits. Integers of the machine
-- keep their wrap-around. Only the loop over a connection's buffer runs on fuel, one more than there are
-- bytes; all others are structural recursion. Printing a number counts down its digits, of which an
-- `i64` has at most 19.
--
-- Parameters. The engine is a record of operations; theorems on the store assume IsReliable of it.
-- What RocksDB documents while it reports no failure is stated in IsOrderedStore, the hypothesis of the
-- theorems on the RocksDB engine; of a compaction it says something only where nothing is left in
-- memory, as after a flush. An opened engine becomes by `install_gc` one that holds the store's
-- predicate; the two share the version map, which the store hands over at each compaction.
--
-- The decoder's position in the buffer is the rest of the buffer, so what is left behind a value is
-- part of the result. Its nesting depth counts down from the limit, which is what bounds the
-- recursion. The text of a finite double is a parameter of the protocol (FloatText), and the round
-- trip assumes of it that Rust prints digits, points and signs that parse back.
--
-- A handler takes `args[i]` as the empty string where there is none; the table's arity test comes
-- first. The messages of protocol errors are a parameter of the server (`describe`).
--
-- Not modelled: the tokio codec, which forwards to the encoder and the decoder; the accept loop,
-- shutdown, metrics and the slow log of the server; observability and process start; the shared crate
-- (crates/gamestore-common); the options and statistics of RocksDB; and threads: the methods run one at
-- a time, and only the loop of next_version is also a step relation over threads
-- (Store.VersionClock.Threads and Alone).
pub mod Prelude
pub mod Bytes
pub mod Encoding
pub mod Commands
pub mod Engine
pub mod Gc
pub mod Rocks
pub mod Store
pub mod Protocol
pub mod Server
pub mod Reference
pub mod Tests
