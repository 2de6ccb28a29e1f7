-- ===== src/Memory/Session.antt =====
-- Any run of a process between the taking of a snapshot and its restores: what the kernel lets the
-- process do to its memory, with the hooks of src/memory.c on the way.
pub mod Hooked
pub mod Pages
pub mod Safe
pub mod Kept
pub mod Noted
use afl_snapshot_lkm.Base.{
  ◌&&◌, ℕ, ◌+◌, ◌%◌, ◌^◌, ◌≡◌, refl, Bool, true, false, not, Option, none, some, List, [], ◌∷◌,
  ◌==◌, elem, elem-cons, elem-nil, arith, if◌then◌else◌, Bool-cases, Option-cases, ◌⊎◌, inl, inr,
  subst, sym, ap, ◌∙◌, ==_iff, eq_refl, is_some,
}
use afl_snapshot_lkm.Page.{SnapshotPage, is_snapshot_page_none_pte, is_snapshot_page_private}
use afl_snapshot_lkm.Task.{TaskData, have_snapshot}
use afl_snapshot_lkm.Mmu.{Mmu, MmuLaws, view, AllMapped, PageView}
use afl_snapshot_lkm.Memory.{is_snapshotted_address, Run, ran, oops, page_mask}
use afl_snapshot_lkm.Memory.Fault.{page_add_new_anon_rmap_hook, do_wp_page_hook, do_munmap_hook}
use afl_snapshot_lkm.Memory.Recover.{recover_dirty}
use afl_snapshot_lkm.Memory.Invariant.{
  PageOk, untouched, lazy, saved, SavedPage, LazyPage, Linked, Inv, OnlyPage, OnlyPage-Inv,
}

-- The page is in the table as one that had no PTE, or not in the table.
abbrev pub is_lazy : Option SnapshotPage → Bool
is_lazy none = true
is_lazy (some sp) = is_snapshot_page_none_pte sp

-- The page had a PTE when the snapshot was taken, and its bytes are saved.
abbrev pub is_saved : Option SnapshotPage → Bool
is_saved none = false
is_saved (some sp) = not (is_snapshot_page_none_pte sp) && sp.dirty

module _ {S P : Type 0} (k : Mmu S P) where
  -- Page `p` becomes `v`, and no other page changes.
  abbrev pub Becomes : S → ℕ → PageView → S → Type 0
  Becomes s p v s' = (view k s' p ≡ v) × ((q : ℕ) → (p == q) ≡ false → view k s' q ≡ view k s q)

  -- One event, with the state before and after it. Memory for copies and table entries can be had: what
  -- follows where it cannot is not among the events.
  pub data Step (d : TaskData) (s : S) (d' : TaskData) (s' : S) : Type 0 where
    -- the process writes `v` to a page that it may write
    store :
        (p v : ℕ)
        → (view k s p).writable ≡ true
        → Becomes s p (record (view k s p) { bytes = v }) s'
        → d' ≡ d
        → Step d s d' s'
    -- it reads an absent page, which is mapped read-only
    read_fault :
        (p : ℕ)
        → (view k s p).absent ≡ true
        → Becomes s p (record (view k s p) { absent = false }) s'
        → d' ≡ d
        → Step d s d' s'
    -- it writes a present page that is write-protected: the hook makes the page writable,
    write_fault_taken :
        (kmalloc : Option ℕ) (address : ℕ)
        → is_some kmalloc ≡ true
        → (view k s (page_mask address)).absent ≡ false
        → do_wp_page_hook k kmalloc d s address (k.pte_at s (page_mask address)) ≡ (d', s', true)
        → Step d s d' s'
    -- or the original `do_wp_page` does, for an anonymous page that is in use by nobody else,
    write_fault_reused :
        (kmalloc : Option ℕ) (address : ℕ) (s₁ : S)
        → is_some kmalloc ≡ true
        → (view k s (page_mask address)).absent ≡ false
        → (view k s (page_mask address)).anon ≡ true
        → do_wp_page_hook k kmalloc d s address (k.pte_at s (page_mask address)) ≡ (d', s₁, false)
        → Becomes s₁
            (page_mask address)
            (record (view k s₁ (page_mask address)) { writable = true })
            s'
        → Step d s d' s'
    -- or it maps a copy, on the way to which it calls `page_add_new_anon_rmap`
    write_fault_copied :
        (kmalloc : Option ℕ) (page : Option SnapshotPage) (address : ℕ) (d₁ : TaskData) (s₁ : S)
        → is_some kmalloc ≡ true
        → (view k s (page_mask address)).absent ≡ false
        → do_wp_page_hook k kmalloc d s address (k.pte_at s (page_mask address)) ≡ (d₁, s₁, false)
        → page_add_new_anon_rmap_hook page d₁ address ≡ ran d'
        → Becomes s₁
            (page_mask address)
            (record (view k s₁ (page_mask address)) { writable = true; anon = true })
            s'
        → Step d s d' s'
    -- it touches an absent page, which is filled
    anon_fault :
        (page : Option SnapshotPage) (address : ℕ) (writable : Bool)
        → (view k s (page_mask address)).absent ≡ true
        → page_add_new_anon_rmap_hook page d address ≡ ran d'
        → Becomes s
            (page_mask address)
            (record (view k s (page_mask address)) {
              absent = false;
              writable = writable;
              anon = true;
            })
            s'
        → Step d s d' s'
    -- it unmaps a region: the pages there are gone, and may hold anything if they are mapped again;
    -- one that it has not touched is back with its backing
    unmap :
        (kmalloc : ℕ → Option ℕ) (start len : ℕ)
        → ((a : ℕ) → is_some (kmalloc a) ≡ true)
        → d' ≡ do_munmap_hook k kmalloc d s start len
        → ((q : ℕ)
            → elem q (k.walk_page_range s start ((start + len) % 2 ^ 64)) ≡ false
            → view k s' q ≡ view k s q)
        → ((q : ℕ)
            → elem q (k.walk_page_range s start ((start + len) % 2 ^ 64)) ≡ true
            → ((view k s' q).writable ≡ false)
              × ((view k s' q).anon ≡ false)
              × (is_lazy (d'.ss.ss_pages q) ≡ true
                  → (view k s q).anon ≡ false
                  → (view k s' q).bytes ≡ (view k s q).bytes))
        → Step d s d' s'
    -- the protection of regions changes, which may take the write permission of pages away, and private
    -- memory is mapped, with no effect on the bytes that are there
    remap :
        ((q : ℕ)
          → view k s' q ≡ record (view k s q) {
            mapped = (view k s' q).mapped;
            writable = (view k s q).writable && (view k s' q).writable;
          })
        → d' ≡ d
        → Step d s d' s'
    -- a file is mapped, or anything else changes pages that a fault or an unmap has recorded before, and
    -- pages outside of the snapshot
    map_file :
        ((q : ℕ)
          → (view k s' q ≡ view k s q)
            ⊎ (is_saved (d.ss.ss_pages q) ≡ true)
            ⊎ ((d.ss.ss_pages q ≡ none) × (is_snapshotted_address d q ≡ false)))
        → d' ≡ d
        → Step d s d' s'
    -- the snapshot is restored
    restore : AllMapped k s d.ss.dirty_pages → (d', s') ≡ recover_dirty k d s → Step d s d' s'

  -- Any number of events.
  pub data Reach (d : TaskData) (s : S) : TaskData → S → Type 0 where
    here : Reach d s d s
    next : {d₁ d₂ : TaskData} {s₁ s₂ : S} → Reach d s d₁ s₁ → Step d₁ s₁ d₂ s₂ → Reach d s d₂ s₂
