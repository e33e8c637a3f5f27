-- ===== src/Schema.antt =====
-- schema_translator.py: the input schema of a scraper, from the crawler and its /params.
pub mod Items
pub mod Params
pub mod Alias
pub mod Translate
pub mod Collisions
