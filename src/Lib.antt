-- ===== src/Lib.antt =====
-- The Sealed Continuation Envelope: a Python library that seals the saved state of an inference
-- session, to be opened under the environment it was sealed in.
--
-- A manifest names the environment (weights, quantization, kernels, topology, numerics and extra
-- factors); its canonical bytes are hashed to a fingerprint (MEMH). `seal_state` derives a key and a
-- commitment from a master secret, the fingerprint, an epoch, a context and a fresh salt, and
-- encrypts the state; `unseal_state` derives them again from what its caller presents. The chunked
-- container of sce/stream.py seals a large state as a sequence of envelopes whose contexts bind
-- their positions.
--
-- Base, Base/Tests, Base/Lists: shared names, Boolean tests, lists measured by native numbers.
-- Error: the exceptions of sce/core.py, what Python raises beside them, and calls that return or
--   raise.
-- Value: the Python values that reach an entry point, and the record of a manifest.
-- Bytes, Utf8: `to_bytes`, `from_bytes`, `_lp` of both files, UTF-8 with its surrogates.
-- Library: NFC, SHA3-256, HKDF, AES-256-GCM-SIV and os.urandom are parameters. `Documented` holds
--   what their documentation says: idempotence of NFC, the sizes of outputs, that decryption undoes
--   encryption and that it fails with InvalidTag only. `Octets` says that what they return is bytes,
--   `AsciiNormal` that NFC leaves ASCII as it is. It does not say that hashes do not collide:
--   a theorem that needs it ends in a break instead, at inputs that the run has computed. `Break` is
--   of two derivations under one salt, `KnownBreak` of two opens of one envelope, under the salt of
--   its header, `StreamBreak` of two opens of a frame of one container, `PoolBreak` of sealing and
--   opening a frame; `RunBreak`, `CarriedBreak`, `Broken` and `RunOpened` are at the envelopes that
--   the demonstration, the adapter, the simulation and the benchmark seal.
-- Manifest: `_enc_str`, `ModelManifest` with `__post_init__`, `__reduce__`, `canonical_bytes`, `__eq__`
--   and `__hash__`, `_require_manifest` and `compute_memh`.
-- Keys: `_check_epoch`, `_kdf_info`, `_derive_key_material`, `_aad`.
-- Envelope: the struct formats, `_require_envelope_bytes`, `_parse`, `describe_envelope`,
--   `explain_mismatch`.
-- Seal: `seal_state` and `unseal_state`. The state of the process is the count of the calls of
--   os.urandom; `seal_state` takes it and returns the count after its two draws.
-- Stream: `_seg_context`, the bounds of the segments, `_parse_stream_header`, `describe_stream`.
-- Chunked: `seal_state_chunked` and `unseal_state_chunked`. `IsContainer` in
--   Chunked.Accepts describes the containers without the loops.
-- Fuzz: `TestOneInput` of fuzz/fuzz_envelope.py, which calls the entry points above. Fuzz.Corpus:
--   `load_corpus` and `record_finding`. Fuzz.Driver: its mutations, generated inputs and `main`, on
--   the draws of a `random.Random` (Library.Random).
-- Base64, Utf8.Decode, Texts: what the examples use of Python's library.
-- Serving: `MockInferenceServer` and `Client` of examples/serving_adapter.py. The endpoint keeps its
--   identity and secret only; the client carries the sealed state. Serving.Transcript is the
--   conversation without its sealing, Serving.Overnight the one of `main`.
-- Attack: the loops and `main` of examples/attack_sim.py.
-- Demo: `manifest_for` and `main` of examples/demo.py.
-- Bench.KvCache, Bench.Timing: bench/kv_cache_reality.py and bench/timing_check.py without the clock.
-- Tests: concrete primitives and the runs that instantiate the theorems.
--
-- Every loop of the source is structural recursion here, but for the range of the segments' starts,
-- which is on as much fuel as the state has bytes, enough since its step is positive (see
-- Stream.Bounds), and the decimal digits of a number n, on n + 1. Machine integers are written with
-- their widths: 256 ^ w for a field of w bytes. The loops of the attack simulation are its 200000
-- attempts and 1000000 pins.
--
-- Not modelled: the constant time of the comparison, the texts of messages beyond their parameters,
-- what the programs print, log and time, and the parsing of the fuzz corpus's JSON.
pub mod Base
pub mod Error
pub mod Value
pub mod Bytes
pub mod Utf8
pub mod Base64
pub mod Texts
pub mod Serving
pub mod Attack
pub mod Demo
pub mod Bench
pub mod Library
pub mod Manifest
pub mod Keys
pub mod Envelope
pub mod Seal
pub mod Stream
pub mod Chunked
pub mod Fuzz
mod Tests
