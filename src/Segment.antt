-- ===== src/Segment.antt =====
-- The segment manager: fs/f2fs/segment.h and fs/f2fs/segment.c, one child for each part.
pub mod Geometry
pub mod Free
pub mod NewSegment
pub mod Sit
pub mod Dirty
pub mod Curseg
pub mod Alloc
pub mod Build
pub mod Invalidate
pub mod Example
mod Tests
