-- ===== src/System/Lived.antt =====
-- A task data has no snapshot at all or a whole one, whatever the hooks of src/memory.c do with it.
use afl_snapshot_lkm.Base.{
  ℕ, ◌≡◌, refl, false, Option, [], ◌∙◌, sym, ap, arith, ◌⊎◌, inl, inr, has_flag,
}
use afl_snapshot_lkm.Page.{SnapshotPage}
use afl_snapshot_lkm.Task.{TaskData, Snapshot, snapshot_made, fresh_task_data, have_snapshot}
use afl_snapshot_lkm.Mmu.{Mmu}
use afl_snapshot_lkm.Memory.{ran, page_mask}
use afl_snapshot_lkm.Memory.Fault.{page_add_new_anon_rmap_hook, do_wp_page_hook, do_munmap_hook}
use afl_snapshot_lkm.Memory.Recover.{recover_dirty, recover_pages}
use afl_snapshot_lkm.Memory.Session.{
  Step, store, read_fault, write_fault_taken, write_fault_reused, write_fault_copied, anon_fault,
  unmap, remap, map_file, restore, Reach, here, next,
}
use afl_snapshot_lkm.Memory.Session.Kept.{Step-Kept, recover_dirty-Kept}

-- The snapshot of a new task data.
abbrev pub unmade : Snapshot
unmade = (fresh_task_data 0).ss

-- Nothing of a snapshot is there, or both flags are set.
abbrev pub Lived : TaskData → Type 0
Lived d = (d.ss ≡ unmade) ⊎ (d.ss.status ≡ 3)

-- What the hooks, a restore and a new range may do to the data.
pub record Follows (d d' : TaskData) : Type 0 where
  pub tsk_same : d'.tsk ≡ d.tsk
  pub status_same : d'.ss.status ≡ d.ss.status
  pub unmade_stays : d.ss ≡ unmade → d'.ss ≡ unmade

pub Follows-Lived : (d d' : TaskData) → Follows d d' → Lived d → Lived d'
Follows-Lived d d' f (inl e) = inl (f.unmade_stays e)
Follows-Lived d d' f (inr e) = inr (f.status_same ∙ e)

pub Follows-refl : (d : TaskData) → Follows d d
Follows-refl d = record { tsk_same = refl; status_same = refl; unmade_stays = λ e. e }

pub Follows-trans : (d₁ d₂ d₃ : TaskData) → Follows d₁ d₂ → Follows d₂ d₃ → Follows d₁ d₃
Follows-trans d₁ d₂ d₃ f g = record {
  tsk_same = g.tsk_same ∙ f.tsk_same;
  status_same = g.status_same ∙ f.status_same;
  unmade_stays = λ e. g.unmade_stays (f.unmade_stays e);
}

-- An `unmade` snapshot has not been made.
pub unmade-have : (d : TaskData) → d.ss ≡ unmade → have_snapshot d ≡ false
unmade-have d e = ap (λ x. has_flag snapshot_made x.status) e

rmap_hook-unmade :
    (kmalloc : Option SnapshotPage) (d d' : TaskData) (address : ℕ)
    → have_snapshot d ≡ false
    → page_add_new_anon_rmap_hook kmalloc d address ≡ ran d'
    → d' ≡ d
unfolding page_add_new_anon_rmap_hook
rmap_hook-unmade kmalloc d d' address n h = ground arith

module _ {S P : Type 0} (k : Mmu S P) where
  wp_page_hook-unmade :
      (kmalloc : Option ℕ) (d : TaskData) (s : S) (address : ℕ) (pte : P)
      → have_snapshot d ≡ false
      → (do_wp_page_hook k kmalloc d s address pte).0 ≡ d
  unfolding do_wp_page_hook
  wp_page_hook-unmade kmalloc d s address pte n = rw (do_wp_page_hook, n) refl

  munmap_hook-unmade :
      (kmalloc : ℕ → Option ℕ) (d : TaskData) (s : S) (start len : ℕ)
      → have_snapshot d ≡ false
      → do_munmap_hook k kmalloc d s start len ≡ d
  unfolding do_munmap_hook
  munmap_hook-unmade kmalloc d s start len n = rw (do_munmap_hook, n) refl

  recover_dirty-unmade : (d : TaskData) (s : S) → d.ss ≡ unmade → (recover_dirty k d s).0 ≡ d
  unfolding recover_dirty recover_pages
  recover_dirty-unmade d s e =
      let none_dirty : d.ss.dirty_pages ≡ [] = ap (λ x. x.dirty_pages) e in
      ap (λ ps. (recover_pages k d s ps).0) none_dirty

  pub recover_dirty-Follows : (d : TaskData) (s : S) → Follows d (recover_dirty k d s).0
  recover_dirty-Follows d s = record {
    tsk_same = ap (λ x. x.0.0) (recover_dirty-Kept k d s);
    status_same = ap (λ x. x.0.2) (recover_dirty-Kept k d s);
    unmade_stays = λ e. ap (λ x. x.ss) (recover_dirty-unmade d s e) ∙ e;
  }

  -- No event touches data without a snapshot.
  Step-unmade :
      (d : TaskData) (s : S) {d' : TaskData} {s' : S} → Step k d s d' s' → d.ss ≡ unmade → d' ≡ d
  Step-unmade d s (store p v w b e) n = e
  Step-unmade d s (read_fault p a b e) n = e
  Step-unmade d s (write_fault_taken m address a b h) n =
      sym (ap (λ r. r.0) h)
      ∙ wp_page_hook-unmade m d s address (k.pte_at s (page_mask address)) (unmade-have d n)
  Step-unmade d s (write_fault_reused m address s₁ a b c h z) n =
      sym (ap (λ r. r.0) h)
      ∙ wp_page_hook-unmade m d s address (k.pte_at s (page_mask address)) (unmade-have d n)
  Step-unmade d s {d' = d'} (write_fault_copied m page address d₁ s₁ a b h r z) n =
      let first : d₁ ≡ d =
        sym (ap (λ r. r.0) h)
        ∙ wp_page_hook-unmade m d s address (k.pte_at s (page_mask address)) (unmade-have d n) in
      rmap_hook-unmade page d₁ d' address (ap have_snapshot first ∙ unmade-have d n) r ∙ first
  Step-unmade d s {d' = d'} (anon_fault page address w a h z) n =
      rmap_hook-unmade page d d' address (unmade-have d n) h
  Step-unmade d s (unmap m start len a e b c) n =
      e ∙ munmap_hook-unmade m d s start len (unmade-have d n)
  Step-unmade d s (remap a e) n = e
  Step-unmade d s (map_file a e) n = e
  Step-unmade d s (restore m e) n = ap (λ r. r.0) e ∙ recover_dirty-unmade d s n

  pub Step-Follows :
      (d : TaskData) (s : S) {d' : TaskData} {s' : S} → Step k d s d' s' → Follows d d'
  Step-Follows d s t = record {
    tsk_same = ap (λ x. x.0.0) (Step-Kept k d s t);
    status_same = ap (λ x. x.0.2) (Step-Kept k d s t);
    unmade_stays = λ e. ap (λ x. x.ss) (Step-unmade d s t e) ∙ e;
  }

  pub Reach-Follows :
      (d : TaskData) (s : S) {d' : TaskData} {s' : S} → Reach k d s d' s' → Follows d d'
  Reach-Follows d s here = Follows-refl d
  Reach-Follows d s (next r t) = Follows-trans _ _ _ (Reach-Follows d s r) (Step-Follows _ _ t)
