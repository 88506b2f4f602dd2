-- ===== src/Media/Sync/Tests.antt =====
-- The synchronisation theorems at concrete inputs.
