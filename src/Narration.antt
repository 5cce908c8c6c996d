-- ===== src/Narration.antt =====
-- narration/: Tier 1, the local model's explanations and fixes for the findings of Tier 0.
pub mod Models
pub mod PlanSummary
pub mod Prompt
pub mod Response
pub mod Engine
pub mod FixEngine
pub mod OllamaClient
pub mod Sample
