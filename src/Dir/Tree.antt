-- ===== src/Dir/Tree.antt =====
-- The levels of a directory: `find_in_level`, `f2fs_find_entry` and `f2fs_add_link` of fs/f2fs/dir.c.
-- A result that is missing stands for a loop without end or a `BUG_ON`. What `get_new_data_page` and
-- `init_inode_metadata` return is a parameter, 0 or an error.
pub mod Find
pub mod Scan
pub mod Link
pub mod Unlink
use f2fs.Base.{
  ℕ, zero, suc, ◌+◌, ◌-◌, ◌*◌, ◌/◌, ◌%◌, ◌^◌, Bool, true, false, not, ◌&&◌, ◌||◌, Option, none,
  some, List, [], ◌∷◌, length, update, Bitmap, BitSearch, u32, sub32, set_bit, ltb, leb, ◌==◌,
  if◌then◌else◌, ◌⊎◌, inl, inr, bug_on, ◌>>=◌, ◌>>◌, max,
}
use mathlib.Core.Option
use f2fs.Hash.{f2fs_dentry_hash}
use f2fs.Dir.{
  DirEntry, DentryBlock, nr_dentry_in_block, max_dir_hash_depth, slots_of, dir_buckets,
  bucket_blocks, dir_block_index, find_in_block, room_for_filename, add_dentry, delete_dentry,
  copy_bytes,
}

-- The inode of a directory.
pub record DirInode : Type 0 where
  pub pages : ℕ → Option DentryBlock
  pub i_size : ℕ
  pub i_nlink : ℕ
  pub current_depth : ℕ
  pub chash : ℕ
  pub clevel : ℕ

abbrev pub enospc : ℕ
enospc = 28

unfoldable pub dir_blocks : DirInode → ℕ
dir_blocks d = (d.i_size + 4095) / 4096

-- `max_slots >= s`, both `int`.
pub fits : ℕ → ℕ → Bool
fits s max_slots = leb s max_slots && ltb max_slots (2 ^ 63)

-- The blocks of the level: `bidx` and `end_block` are 32 bits wide.
pub level_start : ℕ → ℕ → ℕ
level_start level namehash = u32 (dir_block_index level (namehash % dir_buckets level))

pub level_count : ℕ → ℕ → ℕ
level_count level namehash =
    u32 (level_start level namehash + bucket_blocks level) - level_start level namehash

abbrev pub hint : DirInode → ℕ → ℕ → DirInode
hint d namehash level = record d { chash = namehash; clevel = level }

module _ (search : BitSearch) where
  -- The loop of `find_in_level`: the block and the slot of an entry, and `room`.
  pub find_in_blocks : ℕ → DirInode → List ℕ → ℕ → ℕ → Bool → ℕ → Option (Option (ℕ × ℕ) × Bool)
  find_in_blocks zero d name namehash max_slots room bidx = some (none, room)
  find_in_blocks (suc left) d name namehash max_slots room bidx = elim (d.pages bidx) [
    | none ↦ find_in_blocks left d name namehash max_slots true (bidx + 1)
    | some b ↦ do
      (found, max_slots') ← find_in_block search b name namehash max_slots
      elim found [
        | some p ↦ some (some (bidx, p), room)
        | none ↦
            find_in_blocks left d name namehash max_slots'
              (room || fits (slots_of (length name)) max_slots') (bidx + 1)
      ]
  ]

  pub find_in_level : DirInode → ℕ → List ℕ → ℕ → Option (Option (ℕ × ℕ) × DirInode)
  find_in_level d level name namehash = do
    bug_on (ltb max_dir_hash_depth level)
    (de, room) ←
        find_in_blocks (level_count level namehash) d name namehash 0 false
          (level_start level namehash)
    elim de [
      | some r ↦ some (some r, d)
      | none ↦ some (none, if room && not (d.chash == namehash) then hint d namehash level else d)
    ]

  -- The loop of `f2fs_find_entry`.
  pub find_levels : ℕ → DirInode → ℕ → List ℕ → ℕ → Option (Option (ℕ × ℕ) × DirInode)
  find_levels zero d level name namehash =
      some (none, if d.chash == namehash then d else hint d namehash (u32 (level + (2 ^ 32 - 1))))
  find_levels (suc left) d level name namehash = do
    (de, d') ← find_in_level d level name namehash
    elim de [ some r ↦ some (some r, d') | none ↦ find_levels left d' (level + 1) name namehash ]

  pub f2fs_find_entry : DirInode → List ℕ → Option (Option (ℕ × ℕ) × DirInode)
  f2fs_find_entry d name =
      if dir_blocks d == 0
      then some (none, d)
      else find_levels d.current_depth d 0 name (f2fs_dentry_hash name)

unfoldable pub empty_block : DentryBlock
empty_block = record {
  dentry_bitmap = λ k. false;
  dentry = λ k. record { hash_code = 0; ino = 0; name_len = 0 };
  filename = λ k. 0;
}

-- What `f2fs_add_link` is called with, besides the name.
pub record NewLink : Type 0 where
  pub ino : ℕ
  -- A directory that is `FI_NEW_INODE`.
  pub is_new_dir : Bool

-- `get_new_data_page(dir, index, true)` where it succeeds. A page that is there lies within the size.
pub new_data_page : DirInode → ℕ → DentryBlock × DirInode
new_data_page d index = elim (d.pages index) [
  | some b ↦ (b, d)
  | none ↦ (
    empty_block,
    record d {
      pages = update d.pages index (some empty_block);
      i_size = max d.i_size ((index + 1) * 4096);
    },
  )
]

-- From `add_dentry` on, without an error, with `update_parent_metadata`.
pub link_at : DirInode → List ℕ → ℕ → NewLink → ℕ → DentryBlock → ℕ × ℕ → DirInode
link_at d name namehash new depth b at = record d {
  pages = update d.pages at.0 (some (add_dentry b at.1 name namehash new.ino));
  current_depth = depth;
  i_nlink = if new.is_new_dir then d.i_nlink + 1 else d.i_nlink;
}

module _ (search : BitSearch) (page_error : ℕ → ℕ) where
  -- The loop over the blocks of one level: an error, or where there is room, if anywhere, with the
  -- block.
  pub find_room : ℕ → DirInode → ℕ → ℕ → Option ((ℕ ⊎ Option ((ℕ × ℕ) × DentryBlock)) × DirInode)
  find_room zero d slots block = some (inr none, d)
  find_room (suc left) d slots block =
      let page = new_data_page d block in
      let rest = find_room left page.1 slots (block + 1) in
      if not (page_error block == 0) then some (inl (page_error block), d) else do
        bit_pos ← room_for_filename search page.0.dentry_bitmap slots
        if ltb bit_pos nr_dentry_in_block
            then some (inr (some ((block, bit_pos), page.0)), page.1)
            else rest

  module _ (metadata_error : ℕ) where
    -- The rounds from `start`.
    pub add_from : ℕ → DirInode → List ℕ → ℕ → NewLink → ℕ → ℕ → Option (ℕ × DirInode)
    add_from zero d name namehash new level depth = none
    add_from (suc fuel) d name namehash new level depth =
        let depth' = if level == depth then depth + 1 else depth in
        let scan =
          find_room (bucket_blocks level) d (slots_of (length name))
            (dir_block_index level (namehash % dir_buckets level)) in
        if depth == max_dir_hash_depth then some (enospc, d) else do
          (r, d') ← scan
          elim r [
            | inl e ↦ some (e, d')
            | inr found ↦ elim found [
              | none ↦ add_from fuel d' name namehash new (level + 1) depth'
              | some (at, b) ↦
                  if metadata_error == 0
                  then some (0, link_at d' name namehash new depth' b at)
                  else some (metadata_error, d')
            ]
          ]

    -- A round goes to the next level, so that the number of levels is enough fuel.
    pub f2fs_add_link : DirInode → List ℕ → NewLink → Option (ℕ × DirInode)
    f2fs_add_link d name new =
        let dentry_hash = f2fs_dentry_hash name in
        if d.chash == dentry_hash
        then add_from (max_dir_hash_depth + 1) (record d { chash = 0 }) name dentry_hash new
            d.clevel d.current_depth
        else add_from (max_dir_hash_depth + 1) d name dentry_hash new 0 d.current_depth
