-- ===== src/Enrichment.antt =====
-- controller/internal/enrichment: whom an enrichment is about.
pub mod Identity
pub mod Engine
