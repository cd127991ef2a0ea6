-- ===== src/Rag.antt =====
-- The question answering path (app/rag/): routing, prompts, retrieval and the orchestrator.
pub mod Language
pub mod Prompts
pub mod PromptBuilder
pub mod Decision
pub mod Embeddings
pub mod Retrieval
pub mod Orchestrator
