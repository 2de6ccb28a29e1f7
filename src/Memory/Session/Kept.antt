-- ===== src/Memory/Session/Kept.antt =====
-- What a run of a process leaves alone in the task data: the hooks and the restore of src/memory.c.
use afl_snapshot_lkm.Base.{
  ℕ, ◌≡◌, refl, Option, List, [], ◌∷◌, arith, Option-cases, Bool-cases, inl, inr, sym, ap, ◌∙◌,
}
use afl_snapshot_lkm.Page.{SnapshotPage}
use afl_snapshot_lkm.Task.{TaskData, have_snapshot}
use afl_snapshot_lkm.Mmu.{Mmu}
use afl_snapshot_lkm.Memory.{
  ran, page_mask, record_dirty_page, save_page, add_snapshot_page, get_snapshot_page,
}
use afl_snapshot_lkm.Memory.Fault.{
  page_add_new_anon_rmap_hook, note_pte, do_wp_page_hook, do_munmap_hook, munmap_ptes,
}
use afl_snapshot_lkm.Memory.Recover.{
  recover_dirty, recover_pages, recover_page, recover_copied, recover_other,
}
use afl_snapshot_lkm.Memory.Take.Kept.{Kept, settings}
use afl_snapshot_lkm.Memory.Session.{
  Step, store, read_fault, write_fault_taken, write_fault_reused, write_fault_copied, anon_fault,
  unmap, remap, map_file, restore, Reach, here, next,
}

note_pte-Kept : (d : TaskData) (p : ℕ) (sp : SnapshotPage) → Kept d (note_pte d p sp)
unfolding note_pte
note_pte-Kept d p sp = ground arith

rmap_hook-Kept :
    (kmalloc : Option SnapshotPage) (d d' : TaskData) (address : ℕ)
    → page_add_new_anon_rmap_hook kmalloc d address ≡ ran d'
    → Kept d d'
unfolding page_add_new_anon_rmap_hook note_pte add_snapshot_page
rmap_hook-Kept kmalloc d d' address h = ground arith

module _ {S P : Type 0} (k : Mmu S P) where
  record_dirty_page-Kept :
      (kmalloc : Option ℕ) (d : TaskData) (s : S) (p : ℕ) (pte : P)
      → Kept d (record_dirty_page k kmalloc d s p pte).0
  unfolding record_dirty_page save_page
  record_dirty_page-Kept kmalloc d s p pte = ground arith

  munmap_ptes-Kept :
      (kmalloc : ℕ → Option ℕ) (d : TaskData) (s : S) (ps : List ℕ)
      → Kept d (munmap_ptes k kmalloc d s ps)
  unfolding munmap_ptes
  munmap_ptes-Kept kmalloc d s [] = refl
  munmap_ptes-Kept kmalloc d s (p ∷ ps) =
      munmap_ptes-Kept kmalloc (record_dirty_page k (kmalloc p) d s p (k.pte_at s p)).0 s ps
      ∙ record_dirty_page-Kept (kmalloc p) d s p (k.pte_at s p)

  munmap_hook-Kept :
      (kmalloc : ℕ → Option ℕ) (d : TaskData) (s : S) (start len : ℕ)
      → Kept d (do_munmap_hook k kmalloc d s start len)
  unfolding do_munmap_hook
  munmap_hook-Kept kmalloc d s start len = elim (Bool-cases (have_snapshot d)) [
    | inl e ↦ rw (do_munmap_hook, e) (munmap_ptes-Kept kmalloc d s _)
    | inr e ↦ rw (do_munmap_hook, e) refl
  ]

  wp_page_hook-Kept :
      (kmalloc : Option ℕ) (d : TaskData) (s : S) (address : ℕ) (pte : P)
      → Kept d (do_wp_page_hook k kmalloc d s address pte).0
  unfolding do_wp_page_hook
  wp_page_hook-Kept kmalloc d s address pte =
      let r = record_dirty_page-Kept kmalloc d s (page_mask address) pte in ground arith

  recover_page-Kept :
      (d : TaskData) (s : S) (p : ℕ) (sp : SnapshotPage) → Kept d (recover_page k d s p sp).0
  unfolding recover_page recover_copied recover_other
  recover_page-Kept d s p sp = ground arith

  recover_pages-Kept : (d : TaskData) (s : S) (ps : List ℕ) → Kept d (recover_pages k d s ps).0
  unfolding recover_pages
  recover_pages-Kept d s [] = refl
  recover_pages-Kept d s (p ∷ ps) = elim (Option-cases (get_snapshot_page d p)) [
    | inl e ↦ rw (recover_pages, e) (recover_pages-Kept d s ps)
    | inr (sp, e) ↦
        let r = recover_page k d s p sp in
        rw (recover_pages, e) (recover_pages-Kept r.0 r.1 ps ∙ recover_page-Kept d s p sp)
  ]

  pub recover_dirty-Kept : (d : TaskData) (s : S) → Kept d (recover_dirty k d s).0
  unfolding recover_dirty
  recover_dirty-Kept d s = recover_pages-Kept d s d.ss.dirty_pages

  pub Step-Kept : (d : TaskData) (s : S) {d' : TaskData} {s' : S} → Step k d s d' s' → Kept d d'
  Step-Kept d s (store p v w b e) = ap settings e
  Step-Kept d s (read_fault p a b e) = ap settings e
  Step-Kept d s (write_fault_taken m address a b h) =
      ap (λ r. settings r.0) (sym h)
      ∙ wp_page_hook-Kept m d s address (k.pte_at s (page_mask address))
  Step-Kept d s (write_fault_reused m address s₁ a b c h z) =
      ap (λ r. settings r.0) (sym h)
      ∙ wp_page_hook-Kept m d s address (k.pte_at s (page_mask address))
  Step-Kept d s {d' = d'} (write_fault_copied m page address d₁ s₁ a b h r z) =
      rmap_hook-Kept page d₁ d' address r
      ∙ ap (λ r. settings r.0) (sym h)
      ∙ wp_page_hook-Kept m d s address (k.pte_at s (page_mask address))
  Step-Kept d s {d' = d'} (anon_fault page address w a h z) = rmap_hook-Kept page d d' address h
  Step-Kept d s (unmap m start len a e b c) = ap settings e ∙ munmap_hook-Kept m d s start len
  Step-Kept d s (remap a e) = ap settings e
  Step-Kept d s (map_file a e) = ap settings e
  Step-Kept d s (restore m e) = ap (λ r. settings r.0) e ∙ recover_dirty-Kept d s

  pub Reach-Kept : (d : TaskData) (s : S) {d' : TaskData} {s' : S} → Reach k d s d' s' → Kept d d'
  Reach-Kept d s here = refl
  Reach-Kept d s (next r t) = Step-Kept _ _ t ∙ Reach-Kept d s r

  pub Reach-then :
      {d d₁ : TaskData} {s s₁ : S} {d₂ : TaskData} {s₂ : S}
      → Reach k d s d₁ s₁
      → Reach k d₁ s₁ d₂ s₂
      → Reach k d s d₂ s₂
  Reach-then r here = r
  Reach-then r (next q t) = next (Reach-then r q) t
