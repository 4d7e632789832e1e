-- ===== src/Tests.antt =====
-- The theorems at concrete inputs. The crates that the source calls are given here as small
-- executable functions that have the documented behaviour.
mod Codec
mod Crates
mod Rules
mod Policies
mod Registry
mod Canonical
mod Runtime
mod Attestation
mod Envelope
mod Artifacts
mod Store
mod Commands
mod Resolve
mod Compile
mod Ends
