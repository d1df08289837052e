-- ===== src/Lib.antt =====
-- A model of the Rust libraries of the Juicebox SDK, which distributes a user's secret, protected by
-- a PIN, among several realms, and of what makes them correct.
--
-- The client registers a secret in two phases (rust/sdk/src/register.rs) and recovers it in three
-- (rust/sdk/src/recover.rs). In each phase it asks all realms of its configuration at once and joins
-- their answers (rust/sdk/src/request.rs). A key of an oblivious pseudo-random function
-- (rust/oprf) and a scalar for the encryption key are shared among the realms
-- (rust/secret_sharing); the realms evaluate the function on the blinded PIN, each with its share of
-- the key, and the client combines their outputs to the unlock key. Tags and commitments derived from
-- that key protect the shares of the scalar.
--
-- Files and code:
--   Prelude        results, Boolean tests and lists, shared by all files
--   Marshalling    rust/marshalling/src/lib.rs: to_be2, to_be4, to_be8
--   Realm          Realm, RealmId and PinHashingMode
--   Configuration  rust/sdk/src/configuration.rs: CheckedConfiguration::from is `checked`, share_index
--                  and share_count have their names
--   Join           rust/sdk/src/request.rs: join_at_least_threshold and min
--   Consensus      rust/sdk/src/recover.rs: the maps that group answers, and the choice of a group
--   Curve          interfaces for the scalars and groups of curve25519_dalek
--   Sharing        rust/secret_sharing/src/lib.rs: create_shares and recover_secret
--   Oprf           rust/oprf/src/lib.rs and rust/oprf/src/dleq.rs; dleq::verify_proof is `dleq_verify`
--   Crypto         an interface for the ciphers, hashes and signatures of other crates
--   Keys           what is derived by hashing: rust/realm/api/src/types.rs, rust/sdk/src/types.rs and
--                  rust/sdk/src/pin.rs
--   Signing        rust/realm/api/src/signing.rs
--   Secret         rust/sdk/src/types.rs: the user's secret, its padding and its encryption
--   Api            rust/realm/api/src/requests.rs: requests and responses
--   Padded         rust/realm/api/src/requests.rs: the padding of responses
--   Delete         rust/sdk/src/delete.rs
--   Recover        rust/sdk/src/recover.rs: phase1, phase2 and phase3 are the three parts of
--                  perform_recover_with_configuration, and Recover/Realms has the functions for one realm;
--                  Recover/Honest, Recover/Registered and Recover/Guesses are about realms that hold what
--                  registration sent them
--   Register       rust/sdk/src/register.rs: prepared_requests is what stands between the two phases of
--                  perform_register
--   Rpc            rust/networking/src/rpc.rs, and make_software_realm_request of
--                  rust/sdk/src/request.rs
--   Noise          rust/noise/src/lib.rs; Noise/Client is rust/noise/src/client.rs and Noise/Server is
--                  rust/noise/src/server.rs, whose start and finish are client_start, client_finish,
--                  server_start and server_finish; Noise/Channel and Noise/Queues are the two transports
--                  at work and their abstract view
--   Session        the messages of rust/realm/api/src/requests.rs and the session of
--                  rust/sdk/src/types.rs; Session/Requests and Session/Attempts are the requests to
--                  hardware realms of rust/sdk/src/request.rs, and Session/Client is the client builder
--                  of rust/sdk/src/lib.rs
--   Auth           rust/realm/auth/src/lib.rs; Auth/Tokens is rust/realm/auth/src/creation.rs,
--                  rust/realm/auth/src/validation.rs, whose parse_key_id of a token is token_key_id, and
--                  the text of a RealmId; Auth/Text is what they use of Rust's texts
--   Tests          concrete runs
--
-- A call comes to an `Outcome`: a value, an error, or a panic. Byte arrays and vectors are lists of
-- numbers; numbers are unbounded with the conversions and the wrap-around written out. Random values
-- are arguments. Loops over lists are structural recursion, so nothing runs on fuel. Asynchronous
-- requests are given by their results in the order in which they arrive; that order is a permutation
-- which the environment chooses. The cryptography of other crates is taken as interfaces with the
-- documented laws: the field of scalars, the group of points, a cipher that decrypts what it
-- encrypts, signatures that verify, and tokens that verify as what was signed while they are current.
--
-- A request to a hardware realm is a function of the history: what has been sent, how long the client
-- has slept, and a count of moments, on which clock, tokens and random values depend. Its loop runs on
-- the rounds that are left, five at the start as in the source.
--
-- The server of a realm is not part of the repository. A realm that holds a request of registration and
-- answers from it is the record IsHonest in Recover/Honest: it gives the version, evaluates its share
-- of the key on the blinded input with a proof, and gives back its share of the scalar for the tag.
--
-- Not modelled: serialization, zeroization, and the bindings to other languages. The flows of
-- registration, recovery and deletion take make_request as a parameter.
pub mod Prelude
pub mod Marshalling
pub mod Realm
pub mod Configuration
pub mod Join
pub mod Consensus
pub mod Curve
pub mod Sharing
pub mod Oprf
pub mod Crypto
pub mod Keys
pub mod Signing
pub mod Secret
pub mod Api
pub mod Auth
pub mod Padded
pub mod Delete
pub mod Recover
pub mod Register
pub mod Rpc
pub mod Noise
pub mod Session
pub mod Tests
