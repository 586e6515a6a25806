-- ===== src/Lib.antt =====
-- The DSolver simulator keeps an in-memory view of DeFi pools up to date from one broadcaster: a
-- consumer bootstraps from an HTTP snapshot session and then replays the deltas of a Redis stream.
-- This library models the contract between the two, the publisher that writes the stream, the replay
-- of the stream, the health of a stream and the first part of the encoding of a route.
--
-- The parts, and the files that model them:
--   Contract models crates/simulator-core/src/broadcaster.rs. Contract/Payload and Contract/Errors
--     are its records and enums, with names in this language's spelling and without the prefix
--     Broadcaster; Contract/Backend is BroadcasterBackend and sets of it (one flag for each, for
--     HashSet); Contract/Protocol is models/protocol.rs; Contract/Validate is the validators, with
--     their exact meaning in Contract/Validate/*. Contract/Tracker is BroadcasterSubscriptionTracker:
--     a method is a function from the tracker to a result that holds the tracker which it leaves,
--     and Tracker/Observe is `observe` with a function for each state. Tracker/Spec states the
--     protocol as a relation that does not name the code; Tracker/Handlers and Tracker/Refinement
--     compare the code with it; Tracker/Run, Session and Order are about whole streams.
--     Contract/Recovery is the validators and constructors of the recovery payloads, Contract/Block is
--     `complete_broadcaster_partition_block`.
--   Contract/Boundary, Scope, Derived and Entry model
--     crates/simulator-core/src/broadcaster/redis_streams.rs: the replay boundary and the stream
--     entry; the text of a set of backends; what an entry derives from its payload; and
--     `from_envelope_at` and `validate`.
--   Replay models crates/broadcaster-replay-client/src: EntryId and Checkpoint are checkpoint.rs and
--     `build_replay_batch` of client.rs, Poll is `redis_empty_poll_action` and `read_next`.
--   Encode models crates/runtime/src/services/encode, so far allocation.rs: the division of an amount
--     over the swaps of a hop. Encode/Allocation is its functions, with a function for each branch
--     of the loop; Conservation, Safety and Swaps are about the result, the absence of panics and
--     the swaps.
--   Health models crates/runtime/src/models/stream_health.rs: Health is the data and its methods,
--     Health/Bursts and Health/Progress are about sequences of calls.
--   Consumer models crates/runtime/src/broadcaster/redis_subscription/processor.rs, so far the choice
--     of the deltas that a processor applies.
--   Publisher models crates/runtime/src/broadcaster/redis_publisher.rs. Publisher/Redis is what it uses
--     of Redis, a record of commands; Publisher/Fence is the Lua scripts, from a state of Redis to a
--     reply and the state they leave, in steps that Fence/Generations, Outcomes and Appends are
--     about; Fence/Events runs the scripts of several writers in any order, with losses between.
--     Publisher/Writer is TokioRedisStreamWriter, for which a request or a reply may be lost.
--     Publisher/State is the publisher's state and State/Phases the deployment phases; Publisher/Size
--     is the size of an entry as Redis receives it; Publisher/Append the retries and the appends of
--     live payloads; Publisher/Gate and Drain the queue behind an open recovery; Publisher/Publish is
--     `publish_accepted_payload`, Publisher/Lease the lease, the promotion and the self-fence.
--     Publisher/Fragments, Recovery and Commit are `publish_recovery`: the fragments of the
--     replacement, the entries, and their appends. Publisher/Handoff is the payloads that wait for
--     the promotion of a candidate. Publisher/Calls is any sequence of these calls,
--     and Publisher/Keeps what is asked of each.
--   Base holds what the parts share: results, lists, text and decimal text.
--
-- How things are modelled. A `u64` or `u32` is a natural number; `checked_add(1)` fails at u64::MAX,
-- `saturating_add` stops at the last number, and no other operation of the modelled code can leave
-- the range. A `BigUint` is a natural number, and its subtraction panics below 0. A string is the
-- list of its code points. A `BTreeMap` is the list of its entries in key order. An error carries
-- what its message is formatted from. What the contract uses of the tycho crates is the record
-- Contract/External.Tycho; serde_json is a decoder, or a pair of functions (Contract/Entry.Json),
-- that is passed in, and the replies of Redis are arguments. `format_u64` has one unit of fuel for
-- each unit of the number, and a number has fewer digits than that.
--
-- The publisher's calls are taken one after the other, each as a whole. Its locks make them so, but
-- for the queue behind a recovery. A payload that is queued while `publish_recovery` appends its
-- entries is taken as queued before that call; one that is queued while the queue is drained is in
-- the list of its round (Publisher/Drain), so that a drain has any finite number of rounds. The reset
-- of the queue in `recover_writer` is taken with the promotion before it. The replies of the writer
-- are arguments of a lease call; an append goes to a writer with a state of its own
-- (Publisher/Append.Environment), and a list of Booleans says at each failed attempt whether the
-- retry window is over; it is over, too, when the list ends. The times, and where the cancellation
-- flag of a recovery is up, are arguments too. The time at which a queued payload was accepted is
-- left out. A Lua number is a natural number. The fuel of `decimal_digits` is the number itself, and
-- that of the fragments is the length of the text, each round of which takes a character at least.
--
-- Not modelled: the async wiring, HTTP, the Redis connection, serde and Display; and, so far, the
-- feed pauses and the status of the publisher, the snapshot cache, the assembly of recoveries by a
-- consumer, quoting, and the rest of route encoding.
mod Base
pub mod Contract
pub mod Replay
pub mod Encode
pub mod Health
pub mod Consumer
pub mod Publisher
