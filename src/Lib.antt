-- ===== src/Lib.antt =====
-- Verification of dyninfer: the core data types, the GGUF and SafeTensors containers, the binder, the
-- provider plan, the architectures and their verifier, the kernel registry, the runtime session, the
-- greedy loop and the tokenizer.
--
-- The program loads a checkpoint (crates/dyninfer-checkpoint and its containers) into a catalog of
-- tensors, binds the catalog to the parameter slots of an architecture (crates/dyninfer-binding),
-- chooses a kernel for each operation (crates/dyninfer-kernel-registry), compiles the model, and runs
-- it by a session (crates/dyninfer-runtime) on the IREE runtime, which is a C library. The types that
-- these parts share are in crates/dyninfer-core.
--
-- Core: crates/dyninfer-core/src. `Scalar`, `Shape`, `Types`, `KvCache`, `Ir` and `Target` hold the
-- types of scalar.rs, shape.rs, types.rs and ir.rs under the source's names, with their methods as
-- functions. A `Vec<u64>` is a list of numbers; an `Option` of a checked product is `fold_mul`; the
-- saturating products of the cache's size keep the cut-off at 2 ^ 64 - 1 written out. A digest is a
-- text, since its hash is the `sha2` package's.
--
-- Gguf: crates/dyninfer-checkpoint-gguf/src. `Gguf.Types` has types.rs, the codes, the block and type
-- sizes and `nbytes_for_shape`, with the errors of crates/dyninfer-checkpoint as values. `Gguf.Cursor` and
-- `Gguf.Container` have container.rs: the cursor is a function of a position, with a failure
-- (`Prelude.Effects`), the readings of floats and of a JSON number as u64 are arguments, and the text
-- of a key is decoded by `Prelude.Utf8`. The depth of nested arrays is bounded by the file's size and one
-- more, since each level takes bytes of the file. `Gguf.Convention` has convention.rs, which makes the parameters
-- and the metadata of a catalog from an index.
--
-- Checkpoint: crates/dyninfer-checkpoint/src. `Checkpoint.Catalog` has the types of catalog.rs,
-- `Checkpoint.Provider` the loops of provider.rs that turn a binding plan into byte ranges of files. A set
-- of keys is the list of the inserted keys. `Checkpoint.Role` has `infer_role`, `Checkpoint.Limits` the limits of limits.rs and the
-- in-memory source of source.rs.
--
-- Safetensors: crates/dyninfer-checkpoint-safetensors/src/container.rs. `Safetensors.Container` has
-- `index`; the JSON reader and the decoding of a tensor's info are serde's, and arguments of it.
-- `Safetensors.Convention` has the decoders of convention.rs and mlx.rs, where the values that config_json.rs
-- reads beside the checkpoint are an argument.
--
-- Binding: crates/dyninfer-binding/src/lib.rs. `Binding` has the map of names and the single checks,
-- `Binding.Binder` `bind_slot` and `bind`. A `BTreeMap` that is only looked up is the list of its
-- entries, newest first (`Prelude.Assoc`). The architecture is its id and its slots.
--
-- Kernel: crates/dyninfer-kernel-registry/src/lib.rs. `Kernel` has the types, `Kernel.Reasons` the
-- checks of `rejection_reasons` in their order, `Kernel.Registry` the registry with `register`, `select`
-- and `require`, `Kernel.Builtin` the table of built-in candidates. The cost model is an argument, as
-- the trait is in the code. An index out of range is an outcome of its own. A sort is the stable
-- insertion sort of `Prelude.Sort`. What a fallible computation ensures of its value is `Ensures` of
-- `Prelude.Results`.
--
-- Quantization: crates/dyninfer-quantization/src. `Quantization` has the contract of an encoding definition as a
-- record of its operations, `Plain`, `GgufBlock`, `Codegen` and `MlxAffine` the definitions of quantizations/ with
-- their validation and their kernel candidates, `Registry` the registry and `register_all`, and `Coverage` the
-- dry run of the kernel selection over a graph. `Quantization.Stored` says what the storage of an encoding
-- is. An error is a value that names what its message says, and the hooks that emit MLIR
-- text are left out.
--
-- Runtime: crates/dyninfer-runtime/src/session.rs. `Runtime.Session` has the state of `IreeSession`,
-- `Runtime.Session.Actions` the state-passing actions, in which a failing call leaves the state it got
-- to, and a logic of their outcomes; `Prefill` and `Decode` the operations, each guard and each call
-- of the context in the code's order. The calls of the native runtime are the fields of the record
-- `Runtime.Context`, over a native state that each call may change. `f32` is a type with the constants
-- and the comparison that the code uses. A panic is an outcome of its own. An index or a token that
-- the code converts to `i64` is a natural number. `Cells` tells from the context's calls what the positions
-- of the device's cache hold: a successful invocation writes the real tokens of its window from its start position
-- on, a failing one leaves nothing known from there on, and a reset of the cache empties it. `Fed`, `Prompted` and
-- `Stepped` follow this through a prefill and a decode, and `Refinement` through a run.
-- `Recorder` is a context that records its invocations, against which `Recorded` runs a prefill.
--
-- `Runtime.Generate` has the greedy loop of crates/dyninfer-runtime/src/generate.rs without a repetition
-- penalty. The session is there the trait `ModelSession`, a record of the two operations that the
-- loop calls.
--
-- Architecture: crates/dyninfer-architecture/src. `Architecture.Builder` has the state and the methods
-- of `ModelBuilder` in builder.rs as functions of a state with a failure (`Prelude.Effects`), `Blocks`
-- the sublayers and `finish`, `Verify` the verification of a graph, `Config` the reading of a
-- configuration, `Models` and `Schemas` the built-in models of models/, `Naming` the names of
-- parameters, and `Registry` and `Remapping` the registry and the choice of an architecture. The types
-- of a graph are in `Core.Graph`. An `f64` is a value of a type that the program only carries along, and
-- the readings of a JSON number are arguments. A product of two `u32` wraps at 2 ^ 32. `Typing` says
-- what each kind of operation takes and gives, and which context of live values each method keeps.
-- A decimal is written by a loop with the number itself as fuel, which drops a digit in each turn.
--
-- Tokenizer: crates/dyninfer-runtime/src/tokenizer_bpe.rs. A text is the list of its code points, and a
-- hash map the list of its entries. `Tokenizer.Bytes` has the byte table and the UTF-8 form,
-- `Tokenizer.Bpe` `bpe_merge`, `Tokenizer.Encode` `encode` and what it calls, and `Tokenizer.Decode`
-- `decode_byte_level` up to the bytes that it hands to `String::from_utf8_lossy`. The state comes from
-- the loader, which is not modelled.
--
-- `merge_loop` takes the number of pieces as fuel, since each of its rounds removes a piece, and
-- `encode_loop` a number of rounds, where none is the outcome that they are not enough. The other
-- loops are structural recursion on the list they walk; `chunks_of` takes the number of tokens as fuel,
-- and each of its turns drops at least one token.
--
-- Not modelled: the compiler and its MLIR and IREE bindings, the hooks of the encoding definitions that emit
-- MLIR text, the cache of executables, the native runtime, the command line, the profiling and the downloads.
mod Prelude
pub mod Core
pub mod Checkpoint
pub mod Binding
pub mod Gguf
pub mod Kernel
pub mod Runtime
pub mod Safetensors
pub mod Tokenizer
pub mod Architecture
pub mod Quantization
