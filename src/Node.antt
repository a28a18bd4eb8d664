-- ===== src/Node.antt =====
-- The node manager: fs/f2fs/node.c and fs/f2fs/node.h.
pub mod FreeNids
pub mod NatCache
pub mod Build
