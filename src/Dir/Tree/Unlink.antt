-- ===== src/Dir/Tree/Unlink.antt =====
-- `f2fs_delete_entry`, `f2fs_make_empty` and `f2fs_empty_dir` of fs/f2fs/dir.c.
pub mod Empty
pub mod Entries
use f2fs.Base.{
  ℕ, zero, suc, ◌+◌, Bool, true, false, ◌||◌, Option, none, some, [], ◌∷◌, update, BitSearch, sub32,
  set_bit, ltb, ◌==◌, if◌then◌else◌,
}
use mathlib.Core.Option
use f2fs.Dir.{DentryBlock, nr_dentry_in_block, delete_dentry, copy_bytes}
use f2fs.Dir.Tree.{DirInode, new_data_page, dir_blocks}

-- The inode that an entry led to: its size, its links and whether it is a directory, and whether
-- `add_orphan_inode` was called for it.
pub record Child : Type 0 where
  pub i_size : ℕ
  pub i_nlink : ℕ
  pub is_dir : Bool
  pub orphan : Bool

-- `drop_nlink`, twice for a directory.
pub unlink_child : Child → Child
unlink_child c =
    let i_nlink' = if c.is_dir then sub32 (sub32 c.i_nlink 1) 1 else sub32 c.i_nlink 1 in
    record c {
      i_nlink = i_nlink';
      i_size = if c.is_dir then 0 else c.i_size;
      orphan = c.orphan || i_nlink' == 0;
    }

abbrev pub child_is_dir : Option Child → Bool
child_is_dir none = false
child_is_dir (some c) = c.is_dir

module _ (search : BitSearch) where
  -- `page` and `dentry` are a block of the directory and a slot; a block without entries is given up
  -- (`truncate_hole`).
  pub f2fs_delete_entry : DirInode → ℕ × ℕ → DentryBlock → Option Child → DirInode × Option Child
  f2fs_delete_entry d at b inode =
      let b' = delete_dentry b at.1 in
      let bit_pos = search.find_next_bit b'.dentry_bitmap nr_dentry_in_block 0 in
      (
        record d {
          pages = update d.pages at.0 (if bit_pos == nr_dentry_in_block then none else some b');
          i_nlink = if child_is_dir inode then sub32 d.i_nlink 1 else d.i_nlink;
        },
        Option.map unlink_child inode,
      )

  -- The loop of `f2fs_empty_dir`, from block `bidx` on; a page that is missing is a hole (`-ENOENT`).
  pub empty_from : ℕ → DirInode → ℕ → Bool
  empty_from zero d bidx = true
  empty_from (suc left) d bidx =
      let rest = empty_from left d (bidx + 1) in
      elim (d.pages bidx) [
        | none ↦ rest
        | some b ↦
            let bit_pos =
              search.find_next_bit b.dentry_bitmap nr_dentry_in_block
                (if bidx == 0 then 2 else 0) in
            if ltb bit_pos nr_dentry_in_block then false else rest
      ]

  pub f2fs_empty_dir : DirInode → Bool
  f2fs_empty_dir d = empty_from (dir_blocks d) d 0

-- What `f2fs_make_empty` writes to the first block: the entries of "." and "..".
pub dot_entries : DentryBlock → ℕ → ℕ → DentryBlock
dot_entries b ino parent_ino = record {
  dentry_bitmap = set_bit 1 (set_bit 0 b.dentry_bitmap);
  dentry =
      update (update b.dentry 0 (record { hash_code = 0; ino = ino; name_len = 1 })) 1
        (record { hash_code = 0; ino = parent_ino; name_len = 2 });
  filename = copy_bytes (copy_bytes b.filename 0 (46 ∷ [])) 8 (46 ∷ 46 ∷ []);
}

-- With what `get_new_data_page` returns, 0 or an error.
pub f2fs_make_empty : ℕ → DirInode → ℕ → ℕ → ℕ × DirInode
f2fs_make_empty page_error d ino parent_ino =
    let page = new_data_page d 0 in
    if page_error == 0
    then (
      0,
      record page.1 { pages = update page.1.pages 0 (some (dot_entries page.0 ino parent_ino)) },
    )
    else (page_error, d)
