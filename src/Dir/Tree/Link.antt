-- ===== src/Dir/Tree/Link.antt =====
-- `f2fs_add_link` of fs/f2fs/dir.c ends, and puts the entry into a block of the name's bucket on one
-- of the levels.
use f2fs.Base.{
  ℕ, zero, suc, ◌+◌, ◌%◌, ◌<◌, ◌≤◌, ◌≡◌, ◌≢◌, ◌⊎◌, refl, sym, ◌∙◌, Option, none, some, List, length,
  arith, BitSearch, ◌==◌, if◌then◌else◌, Bool-cases, inl, inr, ℕ_discrete, Returns, Returns->>=,
  some_inj, subst,
}
use f2fs.Hash.{f2fs_dentry_hash}
use f2fs.Dir.{
  DentryBlock, slots_of, max_dir_hash_depth, dir_buckets, bucket_blocks, dir_block_index,
  add_dentry,
}
use f2fs.Dir.Room.{IsRoom}
use f2fs.Dir.Block.{IsEntries, slots_of-pos}
use f2fs.Dir.Change.{insert_slot}
use f2fs.Dir.Add.{add_dentry-IsEntries}
use f2fs.Dir.Tree.{DirInode, NewLink, empty_block, link_at, add_from, f2fs_add_link}
use f2fs.Dir.Tree.Find.{IsSound}
use f2fs.Dir.Tree.Scan.{IsGrown, IsGrownDir, IsGrown-IsSound, grown_trans, IsScan, find_room-IsScan}

-- A page with the new entry: there was room, the other pages are as they were or new, and the depth
-- has grown where the level was a new one.
pub record IsLinked (d d' : DirInode) (name : List ℕ) (namehash ino : ℕ) : Type 0 where
  pub level : ℕ
  pub block : ℕ
  pub bit_pos : ℕ
  pub before : DentryBlock
  pub within_depth : level < d'.current_depth
  pub not_shallower : d.current_depth ≤ d'.current_depth
  pub from_bucket : dir_block_index level (namehash % dir_buckets level) ≤ block
  pub in_bucket : block < dir_block_index level (namehash % dir_buckets level) + bucket_blocks level
  pub was : (d.pages block ≡ some before) ⊎ ((d.pages block ≡ none) × (before ≡ empty_block))
  pub room : IsRoom before.dentry_bitmap (slots_of (length name)) bit_pos
  pub now : d'.pages block ≡ some (add_dentry before bit_pos name namehash ino)
  pub others :
      (k : ℕ)
      → k ≢ block
      → (d'.pages k ≡ d.pages k) ⊎ ((d.pages k ≡ none) × (d'.pages k ≡ some empty_block))

pub record IsAddLink (d : DirInode) (name : List ℕ) (namehash ino : ℕ) (r : ℕ × DirInode)
    : Type 0 where
  pub sound : IsSound r.1.pages
  pub deep : r.1.current_depth ≤ max_dir_hash_depth
  pub linked : r.0 ≡ 0 → IsLinked d r.1 name namehash ino
  pub failed : r.0 ≢ 0 → IsGrown d.pages r.1.pages

scan-cases :
    (x : ℕ ⊎ Option ((ℕ × ℕ) × DentryBlock))
    → ((e : ℕ) × (x ≡ inl e))
      ⊎ ((x ≡ inr none) ⊎ ((y : (ℕ × ℕ) × DentryBlock) × (x ≡ inr (some y))))
scan-cases (inl e) = inl (e, refl)
scan-cases (inr none) = inr (inl refl)
scan-cases (inr (some y)) = inr (inr (y, refl))

module _ (d : DirInode) (name : List ℕ) (namehash : ℕ) (new : NewLink)
    (named : 0 < length name) where
  link_at-IsAddLink :
      (d' : DirInode) (level depth : ℕ) (at : ℕ × ℕ) (b : DentryBlock)
      → IsSound d.pages
      → level < depth
      → d.current_depth ≤ depth
      → depth ≤ max_dir_hash_depth
      → IsGrown d.pages d'.pages
      → d'.pages at.0 ≡ some b
      → IsRoom b.dentry_bitmap (slots_of (length name)) at.1
      → dir_block_index level (namehash % dir_buckets level) ≤ at.0
      → at.0 < dir_block_index level (namehash % dir_buckets level) + bucket_blocks level
      → IsAddLink d name namehash new.ino (0, link_at d' name namehash new depth b at)
  unfolding link_at
  link_at-IsAddLink d' level depth at b sound low grow deep g e room from_bucket in_bucket =
      let (l, all) = IsGrown-IsSound d.pages d'.pages g sound at.0 b e in
      record {
        sound = λ i y h. elim (ℕ_discrete i at.0) [
          | yes p ↦
              let it : add_dentry b at.1 name namehash new.ino ≡ y = ground arith in
              subst (λ z. (l' : List ℕ) × IsEntries z 0 l') it
                (
                  insert_slot at.1 l,
                  add_dentry-IsEntries b at.1 name namehash new.ino named room 0 l all
                      (omega arith),
                )
          | no p ↦ IsGrown-IsSound d.pages d'.pages g sound i y (ground arith)
        ];
        deep = deep;
        linked = λ _. record {
          level = level;
          block = at.0;
          bit_pos = at.1;
          before = b;
          within_depth = low;
          not_shallower = grow;
          from_bucket = from_bucket;
          in_bucket = in_bucket;
          was = elim (g at.0) [
            | inl same ↦ inl (sym same ∙ e)
            | inr (gone, fresh) ↦ inr (gone, some_inj (sym e ∙ fresh))
          ];
          room = room;
          now = ground arith;
          others = λ k h. elim (g k) [
            | inl same ↦ inl (ground (arith, same))
            | inr (gone, fresh) ↦ inr (gone, ground (arith, fresh))
          ];
        };
        failed = λ h. absurd (h refl);
      }

  add_from-IsAddLink :
      (search : BitSearch) (page_error : ℕ → ℕ) (metadata_error : ℕ) (fuel : ℕ) (d' : DirInode)
      (level depth : ℕ)
      → IsSound d.pages
      → IsGrownDir d d'
      → level ≤ depth
      → d.current_depth ≤ depth
      → depth ≤ max_dir_hash_depth
      → max_dir_hash_depth < level + fuel
      → Returns
          (IsAddLink d name namehash new.ino)
          (add_from search page_error metadata_error fuel d' name namehash new level depth)
  unfolding add_from
  add_from-IsAddLink search page_error metadata_error zero d' level depth sound g low grow deep h =
      absurd (omega arith)
  add_from-IsAddLink search page_error metadata_error (suc fuel) d' level depth sound g low grow
        deep h =
      let start = dir_block_index level (namehash % dir_buckets level) in
      let slots = slots_of (length name) in
      let give_up : (d2 : DirInode) (e : ℕ)
          → IsGrownDir d d2
          → e ≢ 0
          → IsAddLink d name namehash new.ino (e, d2) =
        λ d2 e g2 bad. record {
          sound = IsGrown-IsSound d.pages d2.pages g2.0 sound;
          deep = omega (arith, g2.1);
          linked = λ z. absurd (bad z);
          failed = λ _. g2.0;
        } in
      let next = if level == depth then depth + 1 else depth in
      elim (Bool-cases (depth == max_dir_hash_depth)) [
        | inl full ↦ rw full (give_up d' 28 g (λ z. absurd (ground arith)))
        | inr more ↦
            let room : next ≤ max_dir_hash_depth = ground arith in
            let above : level < next = ground arith in
            let grown : d.current_depth ≤ next = ground arith in
            rw more (
              Returns->>= (IsScan d' slots start (bucket_blocks level))
                (IsAddLink d name namehash new.ino) _ _
                (find_room-IsScan search page_error (bucket_blocks level) d' slots start
                  (slots_of-pos (length name) named))
                (λ r _ s. elim (scan-cases r.0) [
                  | inl (e, h1) ↦
                      let t =
                        subst (λ x. IsScan d' slots start (bucket_blocks level) (x, r.1)) h1 s in
                      rw h1 (give_up r.1 e (grown_trans d d' r.1 g t.0) t.1)
                  | inr rest ↦ elim rest [
                    | inl h1 ↦
                        let t =
                          subst (λ x. IsScan d' slots start (bucket_blocks level) (x, r.1)) h1 s in
                        rw h1 (
                          add_from-IsAddLink search page_error metadata_error fuel r.1 (level + 1)
                            next sound (grown_trans d d' r.1 g t) (omega (arith, above)) grown room
                            (omega arith))
                    | inr (y, h1) ↦
                        let t =
                          subst (λ x. IsScan d' slots start (bucket_blocks level) (x, r.1)) h1 s in
                        let g2 = grown_trans d d' r.1 g t.0 in
                        rw h1 (elim (Bool-cases (metadata_error == 0)) [
                          | inl fine ↦ rw fine (
                              link_at-IsAddLink r.1 level next y.0 y.1 sound above grown room g2.0
                                t.1 t.2 t.3 t.4)
                          | inr bad ↦ rw bad (give_up r.1 metadata_error g2 (λ z. ground arith))
                        ])
                  ]
                ]))
      ]

-- On a directory whose pages have entries, for a name that is not empty and with a hint that is not
-- deeper than the directory, which is within `MAX_DIR_HASH_DEPTH`: `f2fs_add_link` ends, and every page
-- still has entries. Without an error the entry is in a block of the name's bucket, on a level that the
-- new depth covers, at a slot of a page that had room for it; any other page is as it was or new and
-- empty. After an error the pages are as they were, but for new and empty ones.
pub f2fs_add_link-IsAddLink :
    (search : BitSearch) (page_error : ℕ → ℕ) (metadata_error : ℕ) (d : DirInode) (name : List ℕ)
    (new : NewLink)
    → IsSound d.pages
    → 0 < length name
    → d.current_depth ≤ max_dir_hash_depth
    → d.clevel ≤ d.current_depth
    → Returns
        (IsAddLink d name (f2fs_dentry_hash name) new.ino)
        (f2fs_add_link search page_error metadata_error d name new)
unfolding f2fs_add_link
f2fs_add_link-IsAddLink search page_error metadata_error d name new sound named deep hint =
    let namehash = f2fs_dentry_hash name in
    let kept : DirInode = record d { chash = 0 } in
    elim (Bool-cases (d.chash == namehash)) [
      | inl e ↦
          rw (f2fs_add_link, e)
            (add_from-IsAddLink d name namehash new named search page_error metadata_error
              (max_dir_hash_depth + 1) kept d.clevel d.current_depth sound (λ k. inl refl, refl)
              hint (omega arith) deep (omega arith))
      | inr e ↦
          rw (f2fs_add_link, e)
            (add_from-IsAddLink d name namehash new named search page_error metadata_error
              (max_dir_hash_depth + 1) d 0 d.current_depth sound (λ k. inl refl, refl) (omega arith)
              (omega arith) deep (omega arith))
    ]
