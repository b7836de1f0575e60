-- ===== src/Lib.antt =====
-- Privacy pools on several chains. A pool keeps a Merkle tree of commitments with a ring of its last
-- roots, a set of spent nullifiers that are listed by epoch, and a balance. A deposit adds a leaf; a
-- transfer or withdrawal names a known root, spends two nullifiers under a proof bound to its inputs and
-- adds two leaves; governance finalizes epochs, whose nullifier roots a relayer carries to other chains.
--
-- Prelude: Booleans, numbers, texts (lists of bytes), maps as functions, sizes of machine words.
-- Merkle: the tree that the pools store by its filled subtrees, against the full tree over all leaves.
-- Ring: the ring of roots that the pools scan backwards, against the list of all values written to it.
-- ProofText: the checks of a proof's text that the verifiers on CosmWasm and NEAR share, and in
-- ProofText/Form what they ask of its characters.
-- Panic: code that returns or panics, as an Option, for Near and Relayer.
--
-- CosmWasm: cosmwasm/contracts/privacy-pool/src.
--   Outcome: error.rs; a call gives a value, an error or a panic.
--   Poseidon, Poseidon/Constants: poseidon.rs, over the native ℕ, with its modulus and constants.
--   State, Msg: state.rs and msg.rs. Storage is a record; an Item that instantiate writes is a field.
--   Tree: zero_hash, insert_leaf and is_known_root of contract.rs.
--   Nullifiers: check_and_spend_nullifiers and compute_nullifier_root of contract.rs.
--   Proof: verify_proof_binding of contract.rs.
--   Contract: instantiate, the execute handlers and query of contract.rs.
--   Run: chains of calls, in which a call that fails or panics changes nothing, as the host documents.
-- `hex::encode` and SHA-256 are parameters (Crates); what their documentation says is IsHexEncode and
-- IsDigest. Unsigned words are natural numbers, and an addition that may overflow is `checked`: the model
-- is of a build with overflow checks, as `make build-rust`, README.md and the tests make it (the
-- development profile), and as the crate's manifest asks of a release build too. Cargo ignores that request
-- for a member of the workspace, whose manifest has no profile, so that a release build of the workspace
-- wraps instead: the epoch after 2^64 of them. Both builds agree as long as no sum exceeds its word.
-- A power is checked in `pow2_u64`. Loops over levels and history slots recurse on the rounds left, so
-- that no fuel is needed. Attributes and events of responses, serialization and the validation of
-- addresses by the host are not modelled: an address is taken as valid.
--
-- Near: near/contracts/privacy-pool/src. A method returns or panics; a panic drops every write.
--   State: PrivacyPool of lib.rs, types.rs, and what the host tells a method.
--   Hash: hash.rs, with Keccak and `hex::encode` as parameters (Host).
--   Verifier: verifier.rs.
--   Tree, Nullifiers: insert_leaf, is_known_root and check_and_spend_nullifiers of lib.rs.
--   Key: the text under which a remote epoch root is stored.
--   Pool: the methods; Pool/Method: a call of one; Pool/History: what a pool has accepted and the states
--   that are reached with it, an inductive relation; the other modules there prove what holds in these.
-- A sum that does not fit panics, in the same builds as for CosmWasm; in a release build of the workspace
-- the balance wraps beyond 2^128 tokens, too. Log lines are not modelled. The host refuses tokens that
-- are attached to a method other than deposit.
--
-- Relayer: relayer/src.
--   Types: EpochEvent and RelayCommand of lib.rs, config.rs, EpochRootMessage of adapters/mod.rs.
--   Nonce, Engine: NonceManager and RelayEngine of core/mod.rs, with the chains that the adapters support.
--   What an adapter answers is a sequence of answers, any at all. The retry loop runs on fuel; five rounds
--   are enough for a task with fewer than five retries.
--   Aggregator: aggregator.rs, as steps on events and timeouts; a delay is only drawn, not waited for.
--   Watcher: the polling loop and the parsing of watcher.rs, against a provider of logs (IsLogSource);
--   what the clock says and which texts are addresses are parameters.
--   Health: the counters of health.rs; each update is taken as one step.
-- The channels between the parts are taken to accept what is sent. RPC, the WebSocket path, ABI encoding,
-- metrics and the HTTP server are not modelled. A release build of the relayer wraps on overflow, so its
-- counters do here.
--
-- Coprocessor: the proof generator of lumora-coprocessor/src/proof.rs and the types of types.rs it uses,
-- with Poseidon and the random source as parameters. A draw is a number that picks the random bytes.
--
-- Ink: ink/privacy-pool/lib.rs. The host drops every write of a message that returns an error or panics.
--   State, Tree, Proof: the storage and the private functions; Keccak, and whether the build checks
--   overflow, are parameters (Host). All nodes of the tree are stored; Sparse is what their roots are.
--   Pool, Pool/Deposits, Pool/Governance: the messages; Message: a call of one; History: what a pool has
--   accepted and the states that are reached with it; Fits: fewer than 2^32 leaves and epochs and 2^128
--   tokens, so that no word wraps. The other modules prove what holds in these states.
-- The bound on the leaves is a shift by the width of the word, which a lint of the compiler refuses by
-- default; it is modelled as it runs where the lint is lifted. Events are left out.
--
-- Pallet: pallets/privacy-pool/src. A call that fails changes nothing, as the runtime documents.
--   State: types.rs, and the configuration, storage and errors of lib.rs.
--   Poseidon, Tree, Nullifiers, Pool: the functions and calls of lib.rs; Verifier: verifier.rs.
--   Call: a call, and the states that calls reach, an inductive relation; Faithful and Timeline are its
--   invariants, of the tree and the nullifiers, and of the epochs; Solvent compares the account of the
--   pool with its balance.
--   Xcm: xcm_handler.rs.
-- BLAKE2, the currency of the runtime (IsCurrency, which may drop a rest below its minimum) and the codec
-- of messages (IsCodec) are parameters. A runtime is built without overflow checks, so that powers and
-- indices wrap; IsSane is a configuration where they do not. The account of the pool signs no call, since
-- it has no key. Events are left out.
--
-- Fallible: code with errors and panics, for Ink and Pallet. Distinct: lists without repetition.
--
-- Not modelled: the circuits and the submitter of the coprocessor, the weights and benchmarks of the
-- pallet, and the runtime that contains it, which are constants, generated code and calls of libraries.
-- The contracts and circuits in other languages than Rust are left out.
pub mod Prelude
pub mod Merkle
pub mod Ring
pub mod Distinct
pub mod ProofText
pub mod Panic
pub mod Fallible
pub mod Sparse
pub mod CosmWasm
pub mod Near
pub mod Ink
pub mod Pallet
pub mod Relayer
pub mod Coprocessor
