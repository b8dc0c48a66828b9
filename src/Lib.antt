-- ===== src/Lib.antt =====
-- Sub-script runs scripts against a Substrate chain. This library models the parts of it that decide
-- what goes over the wire and what a script gets back.
--
-- A script's value is a `Dynamic` (Dynamic.antt, after rhai). src/types.rs describes the types of the
-- chain by cells of `TypeMeta`; `TypeRef::encode` and `TypeRef::decode` turn values into bytes and
-- back. src/metadata.rs makes storage keys from values with these encoders. src/rpc.rs sends requests
-- over one socket and routes the answers to channels; src/client.rs follows a submitted extrinsic and
-- reads its events; src/storage.rs pages through maps; src/users.rs counts nonces;
-- src/plugins/ledger.rs signs with a hardware device.
--
-- Files:
--   Prelude: shared names; integers and casts, lists, texts, errors.
--   Libs: the third-party codec as a parameter `Libs`, with its documented behaviour `Laws`.
--   Types.Variants: `EnumVariants` (src/types.rs), and in Laws its lookups after insertions.
--   Types.Meta: `TypeMeta`, `CustomType` (src/types.rs), `EncodedArgs` (src/metadata.rs). A `TypeRef` is
--     an address; `deref` gives the description in the cell.
--   Types.Encode, Types.Decode: `TypeMeta::encode_value` and `TypeMeta::decode_value`, one function
--     per arm. `encode_ref` and `decode_ref` are the calls through a `TypeRef`.
--   Types.RoundTrip and its children: which values come back (Fitting) and that they do.
--   Types.Appends: what encoding does to the buffer on every branch.
--   Types.Custom: functions of the script engine in place of a cell's codec (`custom_encode`).
--   Types.Scan: the operations of `str` that the parser uses, and in Weight the number of characters
--     that are no white space, which they do not raise.
--   Types.Registry: `Types` (src/types.rs): the names, the cells and their locks; in Keeps what its
--     operations keep, in Quiet the locks they leave, in Insert definitions.
--   Types.Parser: `parse_type` and `parse`, with Safe, Own and Ends: how they end. Types.Schema: schemas, with Safe.
--   Types.Init: `init_engine` (src/types.rs), with Steady and Ready: the registry that
--     an engine starts with.
--   Types.Portable, Types.Import: `get_type_name` and `import_v14_types` (src/types.rs), with Named,
--     Fills, Resolved, Sound and Ends.
--   Metadata.Pallets, Metadata.Modules: `ModuleMetadata::from_v14_meta`, what it
--     calls, and `Metadata` (src/metadata.rs); Metadata.Top: `Metadata::from_v14_metadata`.
--   Metadata.Legacy: `from_v12_meta` and `from_v13_meta`, whose code is the same text but for the keys
--     of storage and the types over the modules, which are in Metadata.V12 and Metadata.V13; Metadata.Runtime:
--     `from_runtime_metadata`. Of each, Ends: how reading it ends; Named: the module it gives; Reads
--     and Found: what a lookup then finds; Errors: the errors of a module by their indices.
--   Calls: `FuncMetadata::encode_call` (src/metadata.rs).
--   Metadata.Hasher, Metadata.Storage: `KeyHasher` and `StorageMetadata` (src/metadata.rs); Keys: which
--     keys are told apart.
--   Rpc.Message, Rpc.Connection: the messages and `InnerRpcConnection` (src/rpc.rs), one function per
--     method on a state that holds both maps, the channels' contents and what was sent. Invariant and
--     Reachable: the states that steps lead to. Routing: where messages go. Handler: `InnerRpcHandler`;
--     Pending: a request while others are answered; Session: a
--     call and its wait over a connection. Manager: `RpcManager`.
--   Client.Extrinsic: `Extra`, `SignedPayload`, `ExtrinsicV4` and `Block::extrinsics_filtered`
--     (src/client.rs), with RoundTrip and Signed. Client.Requests: what `InnerClient` asks the node for, with
--     Account; Client.Blocks: its caches, with Refines.
--   Client.Tracking, Client.CallResult: `get_request_block_hash` and `InnerCallResult` (src/client.rs).
--   Storage, Storage.Paging: `StorageKeysPaged` (src/storage.rs) and a script's loop over pages.
--   Storage.Items, Storage.Lookups: `Storage` (src/storage.rs), items by the names of a module and an item.
--   Users, Users.Directory: `User::submit_call` and `InnerUsers` (src/users.rs).
--   Ledger.Bip44, Ledger.Signing, Ledger.Framing, Ledger.App: paths, chunked messages, packets over TCP
--     and the account of a device (src/plugins/ledger.rs).
--   Polymesh: `str_to_ticker` and `get_did` (src/plugins/polymesh.rs).
--   Tests: concrete inputs.
--
-- Numbers are natural numbers with the wrap of u32 and the casts of src/types.rs written out. Encoding
-- and decoding recurse on fuel, one unit for each cell passed through, since descriptions may be
-- cyclic; for values that fit, the fuel of the nesting is enough. Chunking takes the length of the
-- message as fuel, and a chunk is at least a byte. Parsing a type takes as fuel more than its text
-- weighs, since each part weighs less; naming a type of a version 14 registry takes more than the rank
-- of the type, where its parts rank below it; a cell is never locked twice for the same reason.
-- The loop over pages takes fuel, and two more than there are keys is enough.
--
-- Not modelled: the codec, hash functions, JSON, the websocket and the device, which are parameters or
-- opaque; the content of documentation; the codecs of the feature libp2p; the functions
-- registered with the script engine, threads, printing and logging; src/engine.rs, src/bin/run.rs
-- and the encoders that src/plugins/polymesh.rs registers. Each method of a connection is one step, since its
-- locks are not held across methods.
pub mod Polymesh
pub mod Prelude
pub mod Dynamic
pub mod Libs
pub mod Types
pub mod Rpc
pub mod Metadata
pub mod Client
pub mod Ledger
pub mod Users
pub mod Calls
pub mod Storage
pub mod Tests
