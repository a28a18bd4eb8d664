-- ===== src/Dir/Tree/Scan.antt =====
-- The search for room on one level in `f2fs_add_link` of fs/f2fs/dir.c: which pages it makes, and what it
-- finds.
use f2fs.Base.{
  ℕ, zero, suc, ◌+◌, ◌<◌, ◌≤◌, ◌≡◌, ◌≢◌, ◌⊎◌, refl, ap, sym, ◌∙◌, Option, none, some, List, [],
  arith, BitSearch, ltb, ◌==◌, Bool-cases, Option-cases, inl, inr, ℕ_discrete, Returns, Returns->>=,
  Returns-map, some_inj, none≢some, subst,
}
use f2fs.Dir.{DentryBlock, nr_dentry_in_block}
use f2fs.Dir.Room.{IsRoom, IsFirstRoom, room_for_filename-IsFirstRoom}
use f2fs.Dir.Block.{IsEntries}
use f2fs.Dir.Tree.{DirInode, empty_block, new_data_page, find_room}
use f2fs.Dir.Tree.Find.{IsSound}

-- The pages of a directory after some have been added, empty.
abbrev pub IsGrown : (ℕ → Option DentryBlock) → (ℕ → Option DentryBlock) → Type 0
IsGrown pages pages' =
    (k : ℕ) → (pages' k ≡ pages k) ⊎ ((pages k ≡ none) × (pages' k ≡ some empty_block))

pub empty-IsEntries : IsEntries empty_block 0 []
unfolding IsEntries empty_block
empty-IsEntries = λ k low high. refl

pub IsGrown-IsSound :
    (pages pages' : ℕ → Option DentryBlock) → IsGrown pages pages' → IsSound pages → IsSound pages'
IsGrown-IsSound pages pages' grown sound = λ i b h. elim (grown i) [
  | inl same ↦ sound i b (sym same ∙ h)
  | inr (_, fresh) ↦
      subst (λ y. (l : List ℕ) × IsEntries y 0 l) (some_inj (sym fresh ∙ h)) ([], empty-IsEntries)
]

pub IsGrown-trans :
    (p p' p'' : ℕ → Option DentryBlock) → IsGrown p p' → IsGrown p' p'' → IsGrown p p''
IsGrown-trans p p' p'' g g' = λ k. elim (g k) [
  | inl same ↦ elim (g' k) [
    | inl same' ↦ inl (same' ∙ same)
    | inr (gone, fresh) ↦ inr (sym same ∙ gone, fresh)
  ]
  | inr (gone, fresh) ↦ elim (g' k) [
    | inl same' ↦ inr (gone, same' ∙ fresh)
    | inr (gone', _) ↦ absurd (none≢some (sym gone' ∙ fresh))
  ]
]

pub new_data_page-IsGrown :
    (d : DirInode) (index : ℕ)
    → let r = new_data_page d index in
      IsGrown d.pages r.1.pages
      × (r.1.pages index ≡ some r.0)
      × (r.1.current_depth ≡ d.current_depth)
unfolding new_data_page
new_data_page-IsGrown d index = elim (Option-cases (d.pages index)) [
  | inl e ↦
      rw (new_data_page, e)
        (
          λ k. elim (ℕ_discrete k index) [
            | yes p ↦ inr (ap d.pages p ∙ e, ground arith)
            | no p ↦ inl (ground arith)
          ],
          ground arith,
          refl,
        )
  | inr (b, e) ↦ rw (new_data_page, e) (λ k. inl refl, e, refl)
]

abbrev pub IsGrownDir : DirInode → DirInode → Type 0
IsGrownDir d d' = IsGrown d.pages d'.pages × (d'.current_depth ≡ d.current_depth)

pub grown_trans : (d d' d2 : DirInode) → IsGrownDir d d' → IsGrownDir d' d2 → IsGrownDir d d2
grown_trans d d' d2 g g' = (IsGrown-trans d.pages d'.pages d2.pages g.0 g'.0, g'.1 ∙ g.1)

-- Where there is room in a run of blocks.
abbrev pub IsScan : DirInode → ℕ → ℕ → ℕ → (ℕ ⊎ Option ((ℕ × ℕ) × DentryBlock)) × DirInode → Type 0
IsScan d slots block left (inl e, d') = IsGrownDir d d' × (e ≢ 0)
IsScan d slots block left (inr none, d') = IsGrownDir d d'
IsScan d slots block left (inr (some (at, b)), d') =
    IsGrownDir d d'
    × (d'.pages at.0 ≡ some b)
    × IsRoom b.dentry_bitmap slots at.1
    × (block ≤ at.0)
    × (at.0 < block + left)

module _ (search : BitSearch) (page_error : ℕ → ℕ) where
  later-IsScan :
      (d d' : DirInode) (slots block left : ℕ)
      → IsGrownDir d d'
      → (r : (ℕ ⊎ Option ((ℕ × ℕ) × DentryBlock)) × DirInode) → IsScan d' slots (block + 1) left r
      → IsScan d slots block (suc left) r
  later-IsScan d d' slots block left g (inl e, d2) s = (grown_trans d d' d2 g s.0, s.1)
  later-IsScan d d' slots block left g (inr none, d2) s = grown_trans d d' d2 g s
  later-IsScan d d' slots block left g (inr (some (at, b)), d2) s =
      (grown_trans d d' d2 g s.0, s.1, s.2, omega (arith, s.3), omega (arith, s.4))

  pub find_room-IsScan :
      (left : ℕ) (d : DirInode) (slots block : ℕ)
      → 0 < slots
      → Returns (IsScan d slots block left) (find_room search page_error left d slots block)
  unfolding find_room
  find_room-IsScan zero d slots block pos = (λ k. inl refl, refl)
  find_room-IsScan (suc left) d slots block pos =
      let page = new_data_page d block in
      let grown = new_data_page-IsGrown d block in
      elim (Bool-cases (page_error block == 0)) [
        | inl fine ↦ rw fine (
            Returns->>= (IsFirstRoom page.0.dentry_bitmap slots 0) (IsScan d slots block (suc left))
              _ _ (room_for_filename-IsFirstRoom search page.0.dentry_bitmap slots pos)
              (λ p _ it. elim (Bool-cases (ltb p nr_dentry_in_block)) [
                | inl low ↦
                    rw low (
                      (grown.0, grown.2),
                      grown.1,
                      it.found (ground arith),
                      omega arith,
                      omega arith,
                    )
                | inr high ↦ rw high (
                    Returns-map (IsScan page.1 slots (block + 1) left)
                      (IsScan d slots block (suc left)) _
                      (λ r s. later-IsScan d page.1 slots block left (grown.0, grown.2) r s)
                      (find_room-IsScan left page.1 slots (block + 1) pos))
              ]))
        | inr bad ↦ rw bad ((λ k. inl refl, refl), λ h. ground arith)
      ]
