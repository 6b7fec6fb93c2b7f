-- ===== src/TxVerifier/Signed.antt =====
-- Which hash the agent goes on with after `verify_and_hash` of crates/tx-verifier/src/lib.rs.
use silvana_book_agent.Common.Text.{Text, text_Eq}
