-- ===== src/Node/FreeNids/Threads.antt =====
-- Threads that share the list: any interleaving of their steps. A thread that adds an id tests `fcnt`
-- without the lock and inserts the id under it, with steps of others between; every other step runs
-- under the lock. `waiting` has the ids of the threads between the two, `threads` bounds how many there
-- are. `out` records the ids that have been handed out and neither kept nor given back; a thread calls
-- `alloc_nid_done` for such an id only. `alloc_nid_failed` is such a step and then an addition.
use f2fs.Base.{
  ℕ, ◌+◌, ◌*◌, ◌^◌, ◌<◌, ◌≤◌, ◌≡◌, ◌≢◌, ◌↔◌, ap, sym, ◌∙◌, Bool, true, false, Option, none, some,
  List, ◌∷◌, ◌++◌, length, length-append, arith, ltb, update, Returns, Returns-map, some_inj,
  none≢some, subst, false≢true,
}
use f2fs.Node.FreeNids.{
  FreeNids, nid_new, nid_alloc, max_free_nids, insert_free_nid, remove_free_nid, take_nid,
  alloc_nid_done,
}
use f2fs.Node.FreeNids.Entries.{state_of, may_take}
use f2fs.Node.FreeNids.Listed.{
  IsListed, insert_free_nid-IsListed, remove_free_nid-IsListed, alloc_nid_done-IsListed,
  take_nid-IsListed,
}

pub record Shared : Type 0 where
  pub nids : FreeNids
  pub waiting : List ℕ
  pub out : ℕ → Bool

pub data Step (threads : ℕ) : Shared → Shared → Type 0 where
  -- `add_free_nid` up to the lock, where the test lets the thread pass.
  test :
      (s : Shared) (nid : ℕ)
      → ltb (2 * max_free_nids) s.nids.fcnt ≡ false
      → length s.waiting < threads
      → Step threads s (record s { waiting = nid ∷ s.waiting })
  insert :
      (s : Shared) (nid : ℕ) (before after : List ℕ)
      → s.waiting ≡ before ++ nid ∷ after
      → Step threads s
          (record s { nids = (insert_free_nid s.nids nid).1; waiting = before ++ after })
  remove : (s : Shared) (nid : ℕ) → Step threads s (record s { nids = remove_free_nid s.nids nid })
  take :
      (s : Shared) (nid : ℕ) (f : FreeNids)
      → 0 < s.nids.fcnt
      → take_nid s.nids ≡ some (nid, f)
      → Step threads s (record s { nids = f; out = update s.out nid true })
  done :
      (s : Shared) (nid : ℕ) (f : FreeNids)
      → s.out nid ≡ true
      → alloc_nid_done s.nids nid ≡ some f
      → Step threads s (record s { nids = f; out = update s.out nid false })

pub data Reach (threads : ℕ) (s : Shared) : Shared → Type 0 where
  here : Reach threads s s
  next : {t u : Shared} → Reach threads s t → Step threads t u → Reach threads s u

-- Exactly the ids that are out are allocated on the list, and the threads that are past the test cannot
-- bring the count above `MAX_FREE_NIDS * 2 + threads`.
pub record IsShared (threads : ℕ) (s : Shared) : Type 0 where
  pub list : IsListed s.nids
  pub bounded : s.nids.fcnt + length s.waiting ≤ 2 * max_free_nids + threads
  pub held : (k : ℕ) → (s.out k ≡ true) ↔ (state_of k s.nids.free_nid_list ≡ some nid_alloc)

of_Returns {ℓ} :
    {A : Type ℓ} (P : A → Type 0) (m : Option A) {a : A} → Returns P m → m ≡ some a → P a
of_Returns P none r e = absurd (none≢some e)
of_Returns P (some a) r e = subst P (some_inj e) r

new≢alloc : some nid_new ≡ some nid_alloc → ⊥
new≢alloc e = false≢true (sym (ap may_take e))

module _ (threads : ℕ) (s : Shared) (inv : IsShared threads s) (nid : ℕ) where
  insert-IsShared :
      2 * max_free_nids + threads < 2 ^ 32
      → (before after : List ℕ) → s.waiting ≡ before ++ nid ∷ after
      → IsShared threads
          (record s { nids = (insert_free_nid s.nids nid).1; waiting = before ++ after })
  insert-IsShared small before after e =
      let one_less : length s.waiting ≡ length (before ++ after) + 1 =
        ap length e
        ∙ ground (arith, length-append before (nid ∷ after), length-append before after) in
      let r = insert_free_nid-IsListed s.nids nid inv.list (omega (arith, inv.bounded)) in
      record {
        list = r.0;
        bounded = ground (arith, inv.bounded, one_less, r.1);
        held = λ k. ground (
          arith,
          inv.held k,
          r.2,
          r.3 k,
          ap (λ j. state_of j s.nids.free_nid_list) {x = k} {y = nid},
        );
      }

  remove-IsShared : IsShared threads (record s { nids = remove_free_nid s.nids nid })
  remove-IsShared =
      let r = remove_free_nid-IsListed s.nids nid inv.list in
      record {
        list = r.0;
        bounded = omega (arith, inv.bounded, r.1);
        held = λ k.
            ground (
              arith,
              inv.held k,
              r.2 k,
              ap (λ j. state_of j s.nids.free_nid_list) {x = k} {y = nid},
            );
      }

  take-IsShared :
      (f : FreeNids)
      → 0 < s.nids.fcnt
      → take_nid s.nids ≡ some (nid, f)
      → (s.out nid ≡ false) × IsShared threads (record s { nids = f; out = update s.out nid true })
  take-IsShared f pos e =
      let r = of_Returns _ _ (take_nid-IsListed s.nids inv.list pos) e in
      (
        ground (arith, inv.held nid, r.0, new≢alloc),
        record {
          list = r.1;
          bounded = omega (arith, inv.bounded, r.2);
          held = λ k. ground (arith, inv.held k, r.3 k);
        },
      )

  done-IsShared :
      (f : FreeNids)
      → s.out nid ≡ true
      → alloc_nid_done s.nids nid ≡ some f
      → IsShared threads (record s { nids = f; out = update s.out nid false })
  done-IsShared f o e =
      let allocated : state_of nid s.nids.free_nid_list ≡ some nid_alloc = (inv.held nid).0 o in
      let r =
        of_Returns _ _
          ((alloc_nid_done-IsListed s.nids nid inv.list).1 (λ h. new≢alloc (sym h ∙ allocated)))
          e in
      record {
        list = r.0;
        bounded = omega (arith, inv.bounded, r.1);
        held = λ k. ground (arith, inv.held k, r.2 k);
      }

module _ (threads : ℕ) (small : 2 * max_free_nids + threads < 2 ^ 32) where
  Step-IsShared : {s t : Shared} → Step threads s t → IsShared threads s → IsShared threads t
  Step-IsShared (test s nid pass few) inv = record {
    list = inv.list;
    bounded = ground arith;
    held = inv.held;
  }
  Step-IsShared (insert s nid before after e) inv =
      insert-IsShared threads s inv nid small before after e
  Step-IsShared (remove s nid) inv = remove-IsShared threads s inv nid
  Step-IsShared (take s nid f pos e) inv = (take-IsShared threads s inv nid f pos e).1
  Step-IsShared (done s nid f o e) inv = done-IsShared threads s inv nid f o e

  Reach-IsShared : {s t : Shared} → IsShared threads s → Reach threads s t → IsShared threads t
  Reach-IsShared inv here = inv
  Reach-IsShared inv (next r st) = Step-IsShared st (Reach-IsShared inv r)

  -- From a list of distinct ids, counted right and within the bound below, whose allocated ids are
  -- exactly those that are out, however threads interleave, with at most `threads` of them at a time
  -- between the test of `add_free_nid` and its insertion, and `2 * MAX_FREE_NIDS + threads` below 2 ^ 32:
  -- where the count is not zero `alloc_nid` finds a new id and meets no
  -- `BUG_ON`; the id that it hands out is not out at that moment, so that no two threads hold the same
  -- id; `alloc_nid_done` for an id that is out never meets its `BUG_ON`; and the count, which the test
  -- is to keep down, is at most `threads` above twice `MAX_FREE_NIDS`.
  pub Reach-exclusive :
      {s t : Shared}
      → IsShared threads s
      → Reach threads s t
      → (0 < t.nids.fcnt → Returns (λ r. t.out r.0 ≡ false) (take_nid t.nids))
        × ((nid : ℕ) → t.out nid ≡ true → alloc_nid_done t.nids nid ≢ none)
        × (t.nids.fcnt ≤ 2 * max_free_nids + threads)
  Reach-exclusive {t = t} inv r =
      let here_too = Reach-IsShared inv r in
      (
        λ pos.
            Returns-map _ _ (take_nid t.nids)
              (λ r it. ground (arith, here_too.held r.0, it.0, new≢alloc))
              (take_nid-IsListed t.nids here_too.list pos),
        λ nid o e. new≢alloc (
            sym ((alloc_nid_done-IsListed t.nids nid here_too.list).0.0 e)
            ∙ (here_too.held nid).0 o),
        omega (arith, here_too.bounded),
      )
