-- ===== src/Providers/Lookup/Names.antt =====
-- src/providers/mod.rs: the two ways of looking up a provider agree.
