-- ===== src/Runs/Imports.antt =====
-- Importing again what a completed import has read.
use memoryd.Store.Tables.{Tables}
