-- ===== src/Lib.antt =====
-- The registry, the canonical encoding and the runtime of regulatory rules, verified.
--
-- The program compiles rules of law from YAML into a typed intermediate representation, gives them a
-- canonical byte encoding, packs them into signed artifacts, and keeps the lifecycle of each artifact
-- as a chain of signed events. This development models the representation (crates/ke-core/src/ir,
-- manifest.rs, revocation.rs), the canonical encoding (crates/ke-core/src/canonical), the key
-- directory, the timestamp tokens, the attestations and the artifacts with their verification
-- (crates/ke-artifact/src), the registry with its lifecycle, event log, storage and commands
-- (crates/ke-cli/src/registry, crates/ke-cli/src/policy.rs, crates/ke-cli/src/commands), and the
-- preview runtime, which evaluates a rule on facts (crates/ke-runtime/src). Definitions have the
-- names of the Rust functions and types that they translate.
--
-- The parts, and where they are:
--   Prelude     shared names, tests, lists, results and integers
--   Ir          crates/ke-core/src/ir: rules, conditions, decision trees, dates, citations
--   Manifest    crates/ke-core/src/manifest.rs: manifests, verification and revocation policies
--   Revocation  crates/ke-core/src/revocation.rs: the policy that a revocation imposes
--   Crypto      the shape of postcard and ed25519, which are parameters everywhere
--   Canonical   crates/ke-core/src/canonical: Ordering has the checks on single values, Decimal the
--               decimals (Form: their form, Value: their value), Set the sorted sets, Encode and
--               Decode the walkers of the two directions. Agree, Checks and Walkers relate each
--               walker of the encoder to its validator, and Roundtrip puts both directions together
--   Artifact    crates/ke-artifact/src: Keydir, Tsa, Consistency (the consistency block and its
--               builder), Attestation with the rules that reject an attestation (Day: the time at
--               which a date starts, Accepts: what is accepted, Set: the rules on all the
--               attestations of an artifact), Envelope (artifact.rs, hash.rs, sign.rs: Decode reads
--               and checks an artifact, Assemble makes one, Sealed and Append relate the two), and
--               Verify (verify.rs; Verified: what a verdict means)
--   Registry    crates/ke-cli/src: State is the lifecycle and its gate (Reach: sequences of
--               transitions), Event the signed events, Log the walk over a log and the events that
--               extend it (Valid, Extend, Numbers, Tamper: what the walk accepts, and why it
--               matters). Hex has the addresses, Policy the choice of a policy. Backend is the
--               interface of the storage (Laws: what a storage promises; LocalFs: the store in a
--               tree of files, which keeps it; Overwritten: a tag that leads into a log). Action is
--               a computation that changes the storage and may fail (Post: statements on both of
--               its endings). Resolve finds the artifact that a selector names (Found, Sound,
--               OwnHash, Windows: what an answer means). Commands has one module for each command
--               (Compile is the storing of what was compiled; Again: storing it twice), and Step,
--               Moves, Attested, Recorded and Run for what they do to the logs, one by one and in
--               sequence
--   Runtime     crates/ke-runtime/src: Value the facts and their Python texts, Compare the operators,
--               Exec applicability and the walk down the tree with the trace of both (Applies,
--               Replay, Local: what the answer is, and what the trace says of it), Effective the
--               windows in which a rule is in force
--   Tests       the theorems at concrete inputs, with small executable crates
--
-- How the code corresponds. A walker of the encoder that changes a value in place returns the
-- changed value; one that only checks returns nothing. A `&mut` is a value returned. `?` is the bind
-- of `Result`. The fields of `DecisionNode` stand in the constructor `node` of `DecisionEntry`; an
-- `Option` or a `Vec` of a type within itself is a data type of its own (`OptionItems`, `Items`,
-- `ScalarValues`). An event is its payload and its signature, since the source reads the payload as a
-- struct of its own. A backend's answer to `read_events` is an argument of the functions of
-- registry/mod.rs that ask for it. The commands are actions over any storage (`RegistryBackend S`):
-- a function of the storage that returns a result together with the storage it leaves, on an error
-- too, so that a command which fails halfway leaves what it wrote. The messages of `anyhow` errors
-- are left out. The file store is a tree, with a list of files for each of its directories; a call
-- on the file system fails where the parameter `fails` says so, and then leaves the tree as it was.
-- The path of a tag is joined from the environment and the tag as they are given, so it may lead
-- anywhere: which file the operating system finds at a path is the parameter `place_of`, and a
-- pointer is written to that file, also where it is the file of an event. The theorems on the
-- commands that write pointers ask for tags that the storage keeps apart from the logs (`IsApart`).
-- Steps that are pushed on a vector are returned. Facts are the function that the map is.
-- `SchemaVersion` is `SemVer`, which has the same fields. Loops are structural recursion on the list,
-- on the scale (an `i8` that each round brings closer to 0), or on the index; none needs fuel.
--
-- Numbers. A mantissa is an `i128`: the overflow of the multiplication by ten is tested as
-- `checked_mul` does, from either sign. The index of a log is cast to `u32` as in the source; there is
-- no bound on the length of a log, so numbers wrap round at 2 ^ 32, in the walk and in the events
-- that are built. The source adds 1 to a number of an event with wrap-around in a release build only;
-- a debug build panics there.
--
-- The floats of the runtime, with their texts, and the decimal digits of a number are parameters
-- (`Floats`), of which no law is assumed.
--
-- What is assumed. Postcard reads back what it wrote and leaves what follows (`PostcardLaws`,
-- `EventCratesLaws`), writes the fields of an event one after the other, and the public key of the
-- registry root accepts what its private key signed. BLAKE3 is any function from bytes to a digest:
-- where a theorem needs it to be injective, it hands over the two inputs that collide instead.
-- For artifacts, postcard keeps the fields of the envelope in order and a digest is 32 bytes long
-- (`ArtifactCratesLaws`), and JSON reads back what it wrote (`JsonReads`). The theorems on the
-- commands take the promises of the storage (`BackendLaws`), and the file store is shown to keep
-- them. What a path leads to does not change with the tree (there are no links). A log has fewer than
-- 2 ^ 32 events where numbers must not wrap round.
-- `Tests` has functions for which the laws hold.
--
-- Not modelled: the parsing and lowering of compile, the command import-kew, opening a store and its
-- marker, the compiler and its verification tiers, the semantic form, the HTTP server, the bindings,
-- the frontend, and code that only prints or parses arguments. A write to a file either
-- happens or does not; writes that stop halfway, and two processes that work on one store at once,
-- are outside the model. The commands are those of a build with the feature test-keys; without it
-- they only refuse.
mod Prelude
pub mod Ir
pub mod Manifest
pub mod Revocation
mod Crypto
pub mod Artifact
pub mod Registry
pub mod Canonical
pub mod Runtime
pub mod Tests
