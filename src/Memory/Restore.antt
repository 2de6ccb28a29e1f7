-- ===== src/Memory/Restore.antt =====
-- One round of the loop of `recover_memory_snapshot`, src/memory.c: page `p` gets back its bytes, and
-- no other page changes.
pub mod Other
pub mod Loop
use afl_snapshot_lkm.Base.{
  ℕ, ◌≡◌, ◌≢◌, refl, Bool, true, false, Option, none, some, List, [], ◌∷◌, ◌++◌, ◌==◌, ◌&&◌, elem,
  arith, is_some, if◌then◌else◌, Bool-cases, Option-cases, inl, inr, subst, sym, ap, ◌∙◌, ==_iff,
  eq_refl, elem-remove, update, has_flag, set_flag, ◌⊎◌,
}
use afl_snapshot_lkm.Page.{
  SnapshotPage, is_snapshot_page_none_pte, is_snapshot_page_private, set_snapshot_page_private,
  set_snapshot_page_none_pte,
}
use afl_snapshot_lkm.Task.{TaskData, have_snapshot}
use afl_snapshot_lkm.Mmu.{Mmu, MmuLaws, PageView, view, pgd, p4d, pud, pmd}
use afl_snapshot_lkm.Memory.{walk_page_table}
use afl_snapshot_lkm.Memory.Recover.{
  recover_page, recover_copied, recover_other, do_recover_page, do_recover_none_pte, unqueue,
}
use afl_snapshot_lkm.Memory.Invariant.{
  SavedPage, LazyPage, PageOk, untouched, lazy, saved, Linked, Inv, OnlyPage, OnlyPage-Inv,
}

none_pte-set_private : (x : ℕ) → has_flag 16 (set_flag 1 x) ≡ has_flag 16 x
none_pte-set_private x = ground arith

module _ {S P : Type 0} (k : Mmu S P) (backing : ℕ → ℕ) (laws : MmuLaws k backing) where
  -- A page that is present is found through the levels of the page table.
  walk_page_table-present :
      (s : S) (p : ℕ) → (view k s p).absent ≡ false → walk_page_table k s p ≡ true
  unfolding walk_page_table
  walk_page_table-present s p h = rw (
    laws.levels_good s p pgd h,
    laws.levels_good s p p4d h,
    laws.levels_good s p pud h,
    laws.levels_good s p pmd h,
    laws.entry_mapped s p h,
  )

  module _ (d : TaskData) (s : S) (p : ℕ) (sp : SnapshotPage) (base : sp.page_base ≡ p) where
    abbrev cleaned : SnapshotPage
    cleaned = set_snapshot_page_private (record sp { dirty = false; has_had_pte = true })

    -- The state in which the first branch leaves the address space.
    abbrev restored : ℕ → S
    restored v = k.flush_tlb_page (k.ptep_set_wrprotect (k.copy_to_user s p v).0 p) p

    restored-view :
        (v q : ℕ)
        → (view k s p).mapped ≡ true
        → view k (restored v) q ≡ (
            if p == q
            then record { absent = false; writable = false; anon = true; bytes = v; mapped = true }
            else view k s q)
    restored-view v q m = ground (
      arith,
      laws.view-flush (k.ptep_set_wrprotect (k.copy_to_user s p v).0 p) p q,
      laws.view-wrprotect (k.copy_to_user s p v).0 p q,
      laws.view-copy s p v q m,
    )

    restored-view_self :
        (v : ℕ)
        → (view k s p).mapped ≡ true
        → view k (restored v) p
          ≡ record { absent = false; writable = false; anon = true; bytes = v; mapped = true }
    restored-view_self v m = rw (restored-view v p m, eq_refl p)

    recover_copied_lem :
        (v : ℕ)
        → sp.page_data ≡ some v
        → (view k s p).mapped ≡ true
        → recover_copied k d s p sp ≡ (unqueue d p cleaned, restored v)
    unfolding recover_copied
    recover_copied_lem v e m = ground (
      arith,
      walk_page_table-present (k.copy_to_user s p v).0 p
          (ap (λ w. w.absent) (laws.view-copy s p v p m) ∙ rw (eq_refl p)),
    )

    module _ (promise : ℕ → Option ℕ) (found : d.ss.ss_pages p ≡ some sp) where
      -- What a round leaves behind.
      pub record Round (r : TaskData × S) : Type 0 where
        pub only : OnlyPage k backing promise p d s r.0 r.1
        pub linked : Linked p (r.0.ss.ss_pages p) (elem p r.0.ss.dirty_pages)
        pub unlisted : elem p r.0.ss.dirty_pages ≡ false
        pub page :
            (c : ℕ)
            → PageOk (backing p) c (d.ss.ss_pages p) (view k s p)
            → PageOk (backing p) c (r.0.ss.ss_pages p) (view k r.1 p)
        pub mapped : (view k s p).mapped ≡ true → (view k r.1 p).mapped ≡ true

      -- Any page put in the place of `sp`, off the list, is linked.
      unqueue-Linked :
          (t : SnapshotPage)
          → t.page_base ≡ p
          → (t.has_been_copied ≡ true → is_some t.page_data ≡ true)
          → Linked p ((unqueue d p t).ss.ss_pages p) (elem p (unqueue d p t).ss.dirty_pages)
      unqueue-Linked t b h = record {
        unknown = ground (arith, eq_refl p, elem-remove p p d.ss.dirty_pages);
        based = ground (arith, eq_refl p);
        flag = ground (arith, eq_refl p, elem-remove p p d.ss.dirty_pages);
        data_kept = λ q e w. ground (arith, eq_refl p, h);
      }

      unqueue-OnlyPage :
          (t : SnapshotPage) (s' : S)
          → ((q : ℕ) → (p == q) ≡ false → view k s' q ≡ view k s q)
          → OnlyPage k backing promise p d s (unqueue d p t) s'
      unqueue-OnlyPage t s' v = record {
        status_same = refl;
        vmas_same = refl;
        page_same = λ q e. rw e;
        listed_same = λ q e. elem-remove q p d.ss.dirty_pages ∙ rw e;
        view_same = v;
        kept = ground (arith, eq_refl p);
      }

      unqueue-unlisted : (t : SnapshotPage) → elem p (unqueue d p t).ss.dirty_pages ≡ false
      unqueue-unlisted t = elem-remove p p d.ss.dirty_pages ∙ rw (eq_refl p)

      -- The state of `sp` in the invariant.
      saved_or_lazy :
          (c : ℕ)
          → PageOk (backing p) c (d.ss.ss_pages p) (view k s p)
          → ((c ≡ backing p) × LazyPage c sp (view k s p)) ⊎ SavedPage c sp (view k s p)
      saved_or_lazy c (untouched e b a w y) = absurd (cc)
      saved_or_lazy c (lazy t e b l) = inl (b, subst (λ x. LazyPage c x (view k s p)) (cc) l)
      saved_or_lazy c (saved t e v) = inr (subst (λ x. SavedPage c x (view k s p)) (cc) v)

      copied-SavedPage :
          (c v : ℕ)
          → sp.page_data ≡ some v
          → sp.has_been_copied ≡ true
          → (view k s p).mapped ≡ true
          → SavedPage c sp (view k s p)
          → SavedPage c
              (set_snapshot_page_private
                (record sp { dirty = false; has_had_pte = true; in_dirty_list = false }))
              (view k (restored v) p)
      copied-SavedPage c v e h m o =
          let data_is = o.copied h in
          let same : v ≡ c = cc in
          rw (restored-view_self v m) (record {
            plain = none_pte-set_private sp.page_prot ∙ o.plain;
            copied = o.copied;
            recorded = λ w. absurd (cc);
            clean = λ w. (refl, refl, same);
          })

      Round-copied :
          (v : ℕ)
          → sp.page_data ≡ some v
          → sp.has_been_copied ≡ true
          → sp.dirty ≡ true
          → (view k s p).mapped ≡ true
          → Round (recover_copied k d s p sp)
      Round-copied v e h t m = rw (recover_copied_lem v e m) (record {
        only = unqueue-OnlyPage cleaned (restored v) (λ q z. restored-view v q m ∙ rw z);
        linked = unqueue-Linked cleaned base (λ z. rw e);
        unlisted = unqueue-unlisted cleaned;
        page = λ c o. elim (saved_or_lazy c o) [
          | inl (b, l) ↦ absurd (let z : sp.dirty ≡ false = l.not_dirty in cc)
          | inr v' ↦ saved _ (rw (eq_refl p)) (copied-SavedPage c v e h m v')
        ];
        mapped = λ _. ap (λ w. w.mapped) (restored-view_self v m);
      })
