-- ===== src/Source.antt =====
-- internal/source: where documents are fetched from.
pub mod Resolver
pub mod Http
