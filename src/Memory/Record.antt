-- ===== src/Memory/Record.antt =====
-- `record_dirty_page` of src/memory.c saves a page before it changes.
use afl_snapshot_lkm.Base.{
  ℕ, ◌≡◌, refl, true, false, Option, none, some, ◌==◌, elem, arith, is_some, Option-cases, inl, inr,
  eq_refl, elem-snoc,
}
use afl_snapshot_lkm.Page.{SnapshotPage, is_snapshot_page_none_pte}
use afl_snapshot_lkm.Task.{TaskData}
use afl_snapshot_lkm.Mmu.{Mmu, MmuLaws, view}
use afl_snapshot_lkm.Memory.{record_dirty_page}
use afl_snapshot_lkm.Memory.Invariant.{
  SavedPage, PageOk, untouched, lazy, saved, Linked, Inv, OnlyPage, OnlyPage-Inv,
}

module _ {S P : Type 0} (k : Mmu S P) where
  pub record_dirty_page-page :
      (kmalloc : Option ℕ) (d : TaskData) (s : S) (p q : ℕ) (pte : P)
      → (p == q) ≡ false
      → (record_dirty_page k kmalloc d s p pte).0.ss.ss_pages q ≡ d.ss.ss_pages q
  unfolding record_dirty_page
  record_dirty_page-page kmalloc d s p q pte e = ground arith

  record_dirty_page-listed :
      (kmalloc : Option ℕ) (d : TaskData) (s : S) (p q : ℕ) (pte : P)
      → (p == q) ≡ false
      → elem q (record_dirty_page k kmalloc d s p pte).0.ss.dirty_pages ≡ elem q d.ss.dirty_pages
  unfolding record_dirty_page
  record_dirty_page-listed kmalloc d s p q pte e = ground (arith, elem-snoc q p d.ss.dirty_pages)

  record_dirty_page-same :
      (kmalloc : Option ℕ) (d : TaskData) (s : S) (p : ℕ) (pte : P)
      → let d' = (record_dirty_page k kmalloc d s p pte).0 in
        (d'.ss.status ≡ d.ss.status)
        × (d'.ss.snapshotted_vmas ≡ d.ss.snapshotted_vmas)
        × (d'.ss.ss_pages p ≡ none → d.ss.ss_pages p ≡ none)
  unfolding record_dirty_page
  record_dirty_page-same kmalloc d s p pte = ground (arith, eq_refl p)

  record_dirty_page-OnlyPage :
      (backing : ℕ → ℕ) (promise : ℕ → Option ℕ) (kmalloc : Option ℕ) (d : TaskData) (s : S) (p : ℕ)
      (pte : P)
      → OnlyPage k backing promise p d s (record_dirty_page k kmalloc d s p pte).0 s
  record_dirty_page-OnlyPage backing promise kmalloc d s p pte =
      let same = record_dirty_page-same kmalloc d s p pte in
      record {
        status_same = same.0;
        vmas_same = same.1;
        page_same = λ q e. record_dirty_page-page kmalloc d s p q pte e;
        listed_same = λ q e. record_dirty_page-listed kmalloc d s p q pte e;
        view_same = λ q e. refl;
        kept = same.2;
      }

  record_dirty_page-Linked :
      (kmalloc : Option ℕ) (d : TaskData) (s : S) (p : ℕ) (pte : P)
      → Linked p (d.ss.ss_pages p) (elem p d.ss.dirty_pages)
      → let d' = (record_dirty_page k kmalloc d s p pte).0 in
        Linked p (d'.ss.ss_pages p) (elem p d'.ss.dirty_pages)
  unfolding record_dirty_page
  record_dirty_page-Linked kmalloc d s p pte l = elim (Option-cases (d.ss.ss_pages p)) [
    | inl e ↦ rw (e, record_dirty_page) l
    | inr (sp, e) ↦ record {
      unknown =
          ground (arith, eq_refl p, l.based sp e, l.flag sp e, elem-snoc p p d.ss.dirty_pages);
      based = ground (arith, eq_refl p, l.based sp e, l.flag sp e);
      flag = ground (arith, eq_refl p, l.based sp e, l.flag sp e, elem-snoc p p d.ss.dirty_pages);
      data_kept = ground (arith, eq_refl p, l.data_kept sp e);
    }
  ]

  -- A page that had no entry is left to the other hook.
  record_dirty_page-lazy :
      (kmalloc : Option ℕ) (d : TaskData) (s : S) (p : ℕ) (sp : SnapshotPage) (pte : P)
      → d.ss.ss_pages p ≡ some sp
      → is_snapshot_page_none_pte sp ≡ true
      → (record_dirty_page k kmalloc d s p pte).0 ≡ d
  unfolding record_dirty_page
  record_dirty_page-lazy kmalloc d s p sp pte e f = ground arith

  -- Once it is recorded a page may change: it was promised with its bytes saved, or it is lazy.
  record_dirty_page-saved :
      (kmalloc : Option ℕ) (d : TaskData) (s : S) (p c : ℕ) (sp : SnapshotPage)
      → d.ss.ss_pages p ≡ some sp
      → is_some kmalloc ≡ true
      → SavedPage c sp (view k s p)
      → (sp.dirty ≡ false → k.read_frame s (k.pte_at s p) ≡ k.content s p)
      → let d' = (record_dirty_page k kmalloc d s p (k.pte_at s p)).0 in
        (sp' : SnapshotPage) × (d'.ss.ss_pages p ≡ some sp')
        × (sp'.dirty ≡ true)
        × SavedPage c sp' (view k s p)
  unfolding record_dirty_page
  record_dirty_page-saved kmalloc d s p c sp e m v r = (
    record sp { page_data = some c; has_been_copied = true; dirty = true; in_dirty_list = true },
    ground (arith, eq_refl p),
    refl,
    record {
      plain = v.plain;
      copied = λ _. refl;
      recorded = λ _. (refl, refl);
      clean = λ h. absurd (cc);
    },
  )

  module _ (backing : ℕ → ℕ) (promise : ℕ → Option ℕ) (laws : MmuLaws k backing) where
    record_dirty_page-PageOk :
        (kmalloc : Option ℕ) (d : TaskData) (s : S) (p c : ℕ)
        → is_some kmalloc ≡ true
        → PageOk (backing p) c (d.ss.ss_pages p) (view k s p)
        → PageOk
            (backing p)
            c
            ((record_dirty_page k kmalloc d s p (k.pte_at s p)).0.ss.ss_pages p)
            (view k s p)
    unfolding record_dirty_page
    record_dirty_page-PageOk kmalloc d s p c m (untouched e b a w y) =
        rw (e, record_dirty_page) (untouched e b a w y)
    record_dirty_page-PageOk kmalloc d s p c m (lazy sp e b l) =
        rw (record_dirty_page-lazy kmalloc d s p sp (k.pte_at s p) e l.flagged) (lazy sp e b l)
    record_dirty_page-PageOk kmalloc d s p c m (saved sp e v) =
        let after =
          record_dirty_page-saved kmalloc d s p c sp e m v
            (λ h. laws.read_frame-content s p (v.clean h).0) in
        saved after.0 after.1 after.3

    -- Recording page `p` with its own entry keeps the invariant, if the memory for its copy can be had
    -- and the operations on the page table have their documented effect.
    pub record_dirty_page-Inv :
        (kmalloc : Option ℕ) (d : TaskData) (s : S) (p : ℕ)
        → is_some kmalloc ≡ true
        → Inv k backing promise d s
        → Inv k backing promise (record_dirty_page k kmalloc d s p (k.pte_at s p)).0 s
    record_dirty_page-Inv kmalloc d s p m i =
        OnlyPage-Inv k backing promise p d s _ s
          (record_dirty_page-OnlyPage backing promise kmalloc d s p (k.pte_at s p)) i
          (record_dirty_page-Linked kmalloc d s p (k.pte_at s p) (i.linked p))
          (λ c w. record_dirty_page-PageOk kmalloc d s p c m (i.pages p c w))

  -- A page with an entry at the snapshot is dirty once it is recorded.
  pub record_dirty_page-dirty :
      (kmalloc : Option ℕ) (d : TaskData) (s : S) (p : ℕ) (pte : P) (sp : SnapshotPage)
      → (record_dirty_page k kmalloc d s p pte).0.ss.ss_pages p ≡ some sp
      → is_snapshot_page_none_pte sp ≡ false
      → sp.dirty ≡ true
  unfolding record_dirty_page
  record_dirty_page-dirty kmalloc d s p pte sp e f = ground (arith, eq_refl p)

  -- What the function returns is the page as it stands in the table, and it is a
  -- dirty page that had an entry.
  pub record_dirty_page-some :
      (kmalloc : Option ℕ) (d : TaskData) (s : S) (p : ℕ) (pte : P) (sp : SnapshotPage)
      → (record_dirty_page k kmalloc d s p pte).1 ≡ some sp
      → ((record_dirty_page k kmalloc d s p pte).0.ss.ss_pages p ≡ some sp)
        × (sp.dirty ≡ true)
        × (is_snapshot_page_none_pte sp ≡ false)
  unfolding record_dirty_page
  record_dirty_page-some kmalloc d s p pte sp e = ground (arith, eq_refl p)
