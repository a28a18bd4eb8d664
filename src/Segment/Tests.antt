-- ===== src/Segment/Tests.antt =====
-- The theorems on segments at the small volume of `Example`.
mod Maps
mod Blocks
mod Logs
