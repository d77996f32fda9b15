-- ===== src/Lib.antt =====
-- MEF-26: an end-to-end encrypted messaging core. A handshake gives two devices a shared root; a
-- double ratchet derives one key for each message; a message travels as an inner frame, sealed
-- into an outer envelope that the transport carries to a mailbox.
--
-- The parts and their modules (paths from the repository's root):
--   Error, Limits           src/error.rs and the constants of src/lib.rs. A Rust `Result` is
--                           `Result`, whose third constructor `panic` stands for an index or a
--                           slice out of bounds.
--   Effect                  methods on `&mut self` and calls of the system's generator: functions
--                           from the object and the number of requests made so far.
--   Wire, Vec               byte slices, `extend_from_slice`, and the operations of `Vec` and of
--                           iterators that the sources use.
--   Crypto                  src/crypto: Suite and Aead (aead.rs), Seal (random.rs and `seal`), Kdf
--                           (kdf.rs). Primitives holds what the crate takes from others.
--   Keys                    src/keys: Dh (dh.rs), Identity (identity.rs), Prekey (prekey.rs).
--   Frame                   src/frame: Header (header.rs), Format and Seal (wire.rs). Valid says
--                           which frames the types of the source allow.
--   Ratchet                 src/ratchet: Schedule (schedule.rs), State and Decrypt and Init
--                           (state.rs), Persistence (persistence.rs). The state is `RatchetState`
--                           with the fields of the source.
--   Handshake               src/handshake.rs: Message and Bundle (what travels, with encodings and
--                           parsers), Material (identities and the responder's prekeys), Agreement
--                           (`initiate` and `accept`) and Authenticated (the record that a session
--                           starts from). Store is an abstract responder: two functions from
--                           identifiers to key pairs; Service runs any calls on both.
--   Pq                      src/pq.rs; Kem is what it takes from the ml-kem crate.
--   Hybrid                  src/hybrid.rs and `mix_ml_kem768` of src/handshake.rs: Layout (what the
--                           two encodings share), Bundle, Message and Agreement. `initiate`,
--                           `accept`, `encode` and `decode` of the source carry `hybrid` in their
--                           names here. Calls runs any calls on a hybrid responder.
--   Envelope                src/envelope: Capability, Replay, Outer and Deliver.
--   Tests                   concrete primitives and examples.
--
-- Names. `open` of the source is `open_ciphertext`, `open_frame` and `open_envelope` here, and
-- `seal` of a frame and of an envelope are `seal_frame` and `seal_envelope`. `decrypt_ahead` is what
-- `decrypt_same_ratchet` does after its early return.
--
-- Numbers are natural numbers, with the largest value of the machine type at each checked or
-- saturating operation; a usize has 64 bits. A byte is a number below 256, an array of n bytes a
-- list of them, whose length is a hypothesis where a theorem needs it. `for` loops recurse on the
-- number of their rounds, so no fuel is needed and every function is total.
--
-- Third-party code is a parameter: the ciphers, HKDF, BLAKE3, X25519, Ed25519 and the generator are
-- the fields of `Primitives`. IsAead, HasBytes, IsKdf, IsHash, IsDh and IsSigning state what their
-- documentation promises; Tests.Toy has functions that meet all six. The ml-kem crate is `MlKem`,
-- over the types of its keys, with the laws IsMlKem, which Tests.Kem meets.
--
-- Not modelled: that secrets are zeroised and compared in constant time; the language
-- bindings under crates.
-- Secrecy against an adversary is not stated: the theorems are about the code's own behaviour.
pub mod Prelude
pub mod Error
pub mod Wire
pub mod Limits
pub mod Effect
pub mod Crypto
pub mod Keys
pub mod Vec
pub mod Frame
pub mod Handshake
pub mod Pq
pub mod Hybrid
pub mod Ratchet
pub mod Envelope
pub mod Tests
