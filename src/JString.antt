-- ===== src/JString.antt =====
-- The Java string manager, src/jelatine/jstring.c.
pub mod Purge
pub mod Hash
mod Tests
