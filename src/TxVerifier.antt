-- ===== src/TxVerifier.antt =====
-- The transaction verifier: crates/tx-verifier/src/hasher.rs and lib.rs. Before it signs, an agent
-- recomputes the hash of the prepared transaction and compares it with the server's.
pub mod Acc
pub mod Value
pub mod Node
pub mod Walk
pub mod Metadata
pub mod Verify
mod Reader
mod ValueReader
mod ValueLengths
mod ValueParts
mod ValueRoundTrip
mod Visits
mod Merkle
mod Coverage
mod CreateRoundTrip
mod SeedLength
mod MetadataReader
mod MetadataRoundTrip
mod Binding
mod FinalHash
mod PartySets
mod Signed
mod Examples
mod Hexadecimal
