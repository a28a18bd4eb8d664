-- ===== src/Segment/Build/Tests.antt =====
-- The maps of the small volume at mount.
use f2fs.Base.{ℕ, ◌<◌, ◌≡◌, false, not, ◌&&◌, ◌||◌, arith, ◌==◌, linear_search}
use f2fs.Segment.Free.Invariant.{IsFreeSegmap}
use f2fs.Segment.Dirty.{dirty, pre, is_curseg}
use f2fs.Segment.Dirty.Invariant.{IsDirtyInfo}
use f2fs.Segment.Build.{build_free_segmap, init_free_segmap, build_dirty_segmap}
use f2fs.Segment.Build.Maps.{init_free_segmap-IsFreeSegmap}
use f2fs.Segment.Build.Lists.{is_listed, build_dirty_segmap-IsDirtyInfo}
use f2fs.Segment.Example.{volume, volume-IsLayout, sit, free_maps}

init_free_segmap-IsFreeSegmap_example :
    let f = init_free_segmap linear_search volume sit (λ t. 2) build_free_segmap in
    IsFreeSegmap volume f
    × ((k : ℕ)
        → k < 16
        → f.free_segmap k ≡ (is_curseg (λ t. 2) k || not ((sit.sentries k).valid_blocks == 0)))
init_free_segmap-IsFreeSegmap_example =
    init_free_segmap-IsFreeSegmap linear_search volume volume-IsLayout sit (λ t. 2)
      (λ t h. omega arith)

build_dirty_segmap-IsDirtyInfo_example :
    let d = build_dirty_segmap linear_search volume sit (λ t. 2) free_maps in
    let listed = is_listed volume sit (λ t. 2) free_maps in
    IsDirtyInfo volume d
    × ((k : ℕ) → k < 16 → d.dirty_segmap dirty k ≡ listed k)
    × ((t k : ℕ) → t < 6 → k < 16 → d.dirty_segmap t k ≡ (listed k && (sit.sentries k).type_ == t))
    × ((k : ℕ) → d.dirty_segmap pre k ≡ false)
    × ((k : ℕ) → (d.victim_fg k ≡ false) × (d.victim_bg k ≡ false))
build_dirty_segmap-IsDirtyInfo_example =
    build_dirty_segmap-IsDirtyInfo linear_search volume sit (λ t. 2) free_maps (λ k. ground arith)
