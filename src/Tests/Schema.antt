-- ===== src/Tests/Schema.antt =====
-- The tables of the migration, for one of them.
use mathlib.Core.Option
