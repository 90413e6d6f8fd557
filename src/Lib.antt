-- ===== src/Lib.antt =====
-- Verification of the service runtime of JamScript: the wire formats that the host, the guest
-- and the network exchange, the managed state that actions read and write, and the ownership
-- values that authorise them.
--
-- The parts and how they meet. An action runs twice: on the host, which has the whole state of
-- the service in a trie, and in a guest, which has a storage proof of the part that the action
-- touches. Each keeps the uncommitted writes of nested transactions in an overlay and ends with
-- a state diff, which is encoded in one canonical form, hashed, and shipped. The guest is
-- trusted only because it does what the host does.
--
-- - Prelude: lists measured by native numbers, Rust's `Result` and `?`, little-endian numbers, and
--   the order of byte strings. A byte is a number below 256; `usize` has 64 bits.
-- - Wire (crates/service-runtime-core/src/lib.rs): `WireError`, the limits, `Writer` (the bytes
--   that a method appends) and `Reader` (state passing over the reader). Wire/Reader/Rules are
--   rules for what a decoder reads and what it has consumed when it succeeds.
-- - Keys: the reserved keys and the key classes of the same file.
-- - Entry and Diff: `StateChangeV1` and `StateDiffV1` of the same file. A method that mutates the
--   diff returns it. Vec's stable sort is an insertion sort.
-- - View, ActionResult, AccessPlan, Recovery, RecoveryRecord, Commitment, Transition, Metadata and
--   Planner: the formats of the same names in that file (`StateViewV1`, `ScriptActionResultV1`,
--   `StateAccessPlanV1`, `StateRecoveryV1`, `RecoveryRecordV1`, `ManagedStateCommitmentV1`,
--   `StateTransitionV1`, `BackendMetadataV1` and the planner's envelopes). `Vec::dedup` and
--   `binary_search_by` are written out.
-- - RefineOutput: `RuntimeRefineOutputV1` of that file with its receipts and dependencies. Read has
--   the two decoders, Header compares them, and Dependencies is about the order of the
--   dependencies. `sort_by_key` is an insertion sort; blake2_256 is a parameter.
-- - GuestMemory (crates/service-runtime-core/src/guest_memory.rs): memory budgets, fault records,
--   and the text of a record in a buffer of fixed size. The digits
--   of a number go to an array of ten bytes, which a 32-bit number does not pass.
-- - Allocator (crates/service-runtime-guest/src/guest_allocator.rs and allocator_abi.rs): the
--   guest's allocator. Runtime has the statics as one record, Growth the growth of the heap and its
--   reset, Calls the methods of `RuntimeAllocator`, Abi the C functions, Reaching the runs of calls.
--   The buddy heap of buddy_system_allocator and the calls `sbrk` and `heap_base` of polkavm_derive
--   are the parameter `Platform`, with the laws `PlatformLaws` and, for the memory, `HeapLaws`;
--   memory is a function from addresses to bytes, and the heap writes its links to it. Alignments
--   are taken below 2 ^ 32, which the record of a fault can hold. The loop that grows the heap has
--   fuel for a page in each round, up to the budget.
-- - Codec (crates/jamscript-codec/src/lib.rs, with `TypeIr` of crates/jamscript-ir/src/lib.rs): the
--   typed codec. A string is its bytes; a vector inside a type or a value is a data type of its own.
--   The arms of a match on a type and a value are helpers that take the value apart. What is written
--   is returned, and a reader is the bytes that are left.
-- - KeyMap: Rust's `BTreeMap` from keys to changes, as the list of its entries in order.
-- - State (crates/service-runtime-state/src/lib.rs): `FullState`, `StateTransaction` and
--   `ProofState`. The latter two hold the same two fields of uncommitted writes, which are
--   Overlay. An operation takes the state and returns the one that it leaves; Access has the calls
--   of the trait `ManagedStateAccess` and runs of them. The crate sp_trie is the parameter
--   `TrieLib`, and the laws `TrieLaws` say that a write is read back and leaves the other keys
--   alone; `RootLaws` say that the root depends on the entries alone.
-- - Ownership (crates/ownership-core/src/lib.rs): ownership values, their bytes and their keys.
--   The hash is a parameter.
-- - Tests: runs at concrete inputs.
--
-- Every loop is a recursion on a list or on a count that has been read, but for the digits and
-- the binary search of a view, whose fuel is the number of entries: each step halves what is
-- left to search. What is not modelled is the refine inputs, the guest's
-- entry points, the compiler and its command line, the backend server, and all
-- that runs compilers, talks to a network or calls cryptographic primitives.
pub mod Prelude
pub mod Wire
pub mod Keys
pub mod Entry
pub mod Diff
pub mod View
pub mod Commitment
pub mod Transition
pub mod Metadata
pub mod Planner
pub mod AccessPlan
pub mod Recovery
pub mod ActionResult
pub mod GuestMemory
pub mod RecoveryRecord
pub mod RefineOutput
pub mod Allocator
pub mod Codec
pub mod KeyMap
pub mod State
pub mod Ownership
pub mod Tests
