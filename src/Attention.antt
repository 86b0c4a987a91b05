-- ===== src/Attention.antt =====
-- The attention layer, src/attention: receptors, scores, the delivery decision and the embeddings
-- of outbound messages.
pub mod Float
pub mod Receptor
pub mod Scoring
pub mod Plugin
pub mod Layer
pub mod Evaluate
pub mod FailClosed
pub mod Outbound
