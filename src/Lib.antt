-- ===== src/Lib.antt =====
-- The Merkle proof service: its TypeScript client code, and the Go core that keeps the trees.
--
-- The service answers queries for Merkle proofs over gRPC. Clients in TypeScript use the generated
-- messages and the client class of gen/ts.
--
-- gen/ts/galactica/merkle/query.ts:
--   Query.<Message>: the message as a record, `createBase<Message>` (base), and the functions of its
--     `MessageFns` object: encode, decode, from_json, to_json, create, from_partial. Strings are
--     texts of Unicode scalar values (no lone surrogates), numbers natural numbers.
--   Query.Client: class QueryClientImpl over the parameter `Rpc`. A rejected promise is `throw`.
--   Wire.Binary, Wire.Loop: what every message repeats: the statements of `encode`, the loop and the
--     switch of `decode`. BinaryReader and BinaryWriter are third-party code: how single values are
--     written and read is the parameter `Wire`, its documented behaviour the record `IsLawful`. A
--     writer is the bytes written so far, a reader its position and the bytes left.
--   Json.Value, Json.Convert: the values that fromJSON and toJSON take and make, and the expression
--     for a field of each kind. The runtime's conversions of values of another type are the parameter
--     `Runtime`.
--   Message: interface MessageFns<T>, and what a faithful message promises.
--   Wire.Steps, Wire.Fields, Wire.Nested, Json.Entries, Json.Nested: each statement of an encoder is
--     read back by its counterpart. Wire.Ends: decoding ends. Wire.Keeps: properties of every message
--     that decoding returns. Json.Settles, Query.Errors: the
--     values on which fromJSON throws.
-- The loop of `decode` has one unit of fuel more than there are bytes left: each round takes a byte at
-- least. `stuck`, running out of fuel, is an outcome of the model alone.
--
-- gen/ts/google/protobuf/descriptor.ts:
--   Descriptor.Enums.<Enum>: each enum with its functions …FromJSON (from_json) and …ToJSON (to_json).
--     Json.Enum has their `switch`. A name that is a reserved word has `_enum` after it.
--   Descriptor.<Message>: 31 of the 34 messages, like those of Query. An underscore of a name is
--     dropped (DescriptorProto_ReservedRange is DescriptorProtoReservedRange). A field that may be
--     `undefined` is an Option; its type, `Scalar`, has the default and how values are written, read,
--     taken from JSON and put into it. An int32, an int64 and an enum's value are an ℤ, since any number
--     can be read for an enum; a uint64 is a natural number; a double is one that is an integer.
--     longToNumber throws above 2 ^ 53 - 1. Buffer, atob and btoa are in the parameter `Runtime`.
--     Not modelled: DescriptorProto, which holds itself, FileDescriptorProto and FileDescriptorSet.
--   Message.Scalar: the types and the statements of such a field. Wire.Packed: packed repeated fields.
--   Message.Row, Message.Kinds, Message.Nested, Message.Packed: a field as a row, with its statement in
--     each function of the message. Message.Rows: messages made of rows, those of Query too.
--     Descriptor.Bounds, Descriptor.Members: messages read from any input. Message.Statements,
--     Message.Fields: the names that the messages use, passed on.
--
-- internal/zkregistry, the Go core:
--   Tree.Result: (value, error) pairs; an error that wraps another is the other.
--   Tree.Sparse: SparseMerkleTree of sparse_tree.go: InsertLeaf, CreateProof, GetRoot and what they
--     call. The Poseidon hash, the storage and the batch are parameters. Loops over levels recurse on
--     the levels left. The theorems take a depth of 32 at most, where an index, a uint32, reaches
--     every leaf. The context is asked once for each level. Not modelled:
--     the simulation of batches. Tree.Random: GetRandomEmptyLeafIndex, with the random numbers and the
--     rounds in which the context is done as parameters.
--   Tree.Leaves: InsertLeaves, with the array that a level and the next share. Tree.InPlace,
--     Tree.Together, Tree.InsertLeaves, Tree.TotalLeaves: the proofs about it.
--   Tree.Merkle: what a Merkle tree and an accepted proof are. Tree.Batch: what the tree relies on of
--     a batch. Tree.Buffer: batch_with_leaves.go, the batch in use, with makeLeafKey of
--     leaf_storage.go. SetLeaf buffers the value also when the database's batch refuses it; the tree
--     returns at once on the error, and CommitOperations drops the buffer.
--     Tree.Proofs, Tree.Insert, Tree.Total, Tree.Fresh, Tree.Cancelled, Tree.Binding: the proofs about
--     them.
--   Tree.Written, Tree.History, Tree.Served: trees after their batches are written, for a storage that
--     keeps what is written to it (LeafStorage does so but for the value 0), and what holds after
--     every history.
-- gen/ts/google/api/http.ts, the registry, its storages, the indexer and the server of queries are not
-- modelled.
--
-- Samples holds concrete parameters (varints, texts by code points), tests and instances.
pub mod Prelude
pub mod Wire
pub mod Json
pub mod Message
pub mod Query
pub mod Descriptor
pub mod Tree
pub mod Samples
