-- ===== src/Lib.antt =====
-- F2FS, a log-structured file system for flash devices: the parts of it that decide where blocks
-- go and that count them.
--
-- The volume's main area is cut into segments of blocks, sections of segments and zones of
-- sections. Six logs each fill one segment. To write a block, the segment manager takes the log's
-- next block, marks it valid and the block's old place invalid in the segment information table
-- (SIT), gives a full log another segment, and files the touched segments on the lists of dirty
-- and of prefree segments. Behind a checkpoint the prefree segments become free. An inode's blocks
-- hang on a tree of node blocks, which is numbered so that the cleaner finds its way back. The
-- superblock's counters say how many blocks, nodes and inodes the volume holds. A node's id leads to its
-- block through the node address table (NAT), whose changes are cached, go to a journal at a checkpoint
-- and to the table when the journal is full; a directory's blocks hold hashed names on levels.
--
-- Which file models what (paths from the repository's root):
--   Base        names that all share: Boolean tests, Option as the result of code that may meet a
--               BUG_ON, lists as arrays, bitmaps as functions, words of 32 and 64 bits; the
--               kernel's find_next_bit and find_next_zero_bit are a parameter, BitSearch, with
--               what they document as its laws
--   Bits        the big-endian bit operations of fs/f2fs/f2fs.h on byte arrays
--   Counts      the counters of fs/f2fs/f2fs.h (inc_valid_block_count and its kin); Counts/Runs is
--               any sequence of calls
--   NodePath    get_node_path of fs/f2fs/node.c, IS_DNODE of fs/f2fs/node.h, start_bidx_of_node of
--               fs/f2fs/gc.c
--   Segment     fs/f2fs/segment.h and fs/f2fs/segment.c: Geometry (address macros), Free (the free
--               segment and section maps), NewSegment (get_new_segment), Sit (segment entries, raw
--               entries, the two places of a SIT block; Flush is a checkpoint's flush_sit_entries),
--               Dirty (dirty and prefree lists), Curseg (the logs), Alloc (the choice of a log's next
--               segment, and do_write_page), Build (the maps and lists at mount), Invalidate
--               (invalidate_blocks)
--   Gc          the cleaner's sleep times (fs/f2fs/gc.h), victim policies and costs (fs/f2fs/gc.c);
--               Victim is get_victim_by_default
--   Extent      the extent cache of fs/f2fs/data.c
--   Nat         the two places of a block of the node address table, of fs/f2fs/node.h
--   Journal     the journals of a summary block (fs/f2fs/f2fs.h, lookup_journal_in_cursum of
--               fs/f2fs/segment.c)
--   Node        fs/f2fs/node.c: FreeNids (the list of free node ids; Threads has the steps of threads
--               that share it, with the unlocked test of add_free_nid as a step of its own) and NatCache (the cache of node addresses and its flushing; View is the
--               map that the cache, the journal and the disk stand for together) and Build (the scan
--               for free ids)
--   Dir         fs/f2fs/dir.c: blocks of directory entries (Room, Block, Add, Lookup, Delete) and the levels of
--               a directory (Tree, with the look-up in Find, f2fs_add_link in Scan and Link, and
--               deletion and emptiness in Unlink)
--   Orphans     the list of orphan inodes of fs/f2fs/checkpoint.c
--   Hash        fs/f2fs/hash.c
--
-- State is explicit: each function takes the record of the C structure that it reads and returns
-- it changed. A lock that is held throughout makes a function one step. A BUG_ON that is met is
-- none, so a theorem with Returns says that none is met. Unsigned arithmetic keeps its wrap-around.
--
-- Bounds and fuel: IsLayout asks that the sizes are the powers of two that the shifts use and that
-- block and segment numbers fit 32 bits. The loops over prefree segments run on fuel, one more
-- than the number of segments; each round goes on behind the last hit, so it does not run out, as
-- the theorems on the three loops show. The loop over a name takes the name's length as fuel. The
-- loops over the slots of a directory block run on one more than the number of slots, and the rounds
-- of f2fs_add_link on one more than the greatest depth; each round moves on by a slot or a level, and
-- the theorems on these functions say that they end.
-- The search for a victim walks over the main area at most twice, and its fuel is for two walks; its
-- loop gives nothing without fuel, and the theorems say that it gives something. The loops of
-- flush_sit_entries and init_dirty_segmap go on behind the last hit, on one more than the number of
-- segments.
--
-- Not modelled: bio submission and page-cache work, which is I/O of the kernel; the log allocation
-- calls the victim search through v_ops, and has it as the parameter Victims; the reading and writing
-- of summaries, the reading of the segment information at mount, the moving of blocks by the cleaner,
-- the retry loop of alloc_nid, node pages and their truncation, the writing of checkpoints, recovery,
-- the reading of a whole directory, data pages, extended attributes, mounting and the POSIX interface.
pub mod Base
pub mod Bits
pub mod Counts
pub mod Dir
pub mod Extent
pub mod Gc
pub mod Hash
pub mod Journal
pub mod Nat
pub mod Node
pub mod NodePath
pub mod Orphans
pub mod Segment
