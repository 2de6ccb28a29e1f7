-- ===== src/Memory/Restore/Other.antt =====
-- The rounds of the loop of `recover_memory_snapshot`, src/memory.c, for pages that have not been
-- copied, and any round.
use afl_snapshot_lkm.Base.{
  ℕ, ◌≡◌, refl, true, false, Option, some, ◌&&◌, elem, arith, Bool-cases, inl, inr, subst, sym, ap,
  ◌∙◌, eq_refl, update, ◌⊎◌, is_some-witness,
}
use afl_snapshot_lkm.Page.{
  SnapshotPage, is_snapshot_page_none_pte, is_snapshot_page_private, set_snapshot_page_none_pte,
}
use afl_snapshot_lkm.Task.{TaskData}
use afl_snapshot_lkm.Mmu.{Mmu, MmuLaws, view}
use afl_snapshot_lkm.Memory.Recover.{recover_page, recover_other, do_recover_none_pte, unqueue}
use afl_snapshot_lkm.Memory.Invariant.{SavedPage, LazyPage, PageOk, lazy, saved, Linked}
use afl_snapshot_lkm.Memory.Restore.{
  Round, unqueue-Linked, unqueue-OnlyPage, unqueue-unlisted, saved_or_lazy, Round-copied,
}

module _ {S P : Type 0} (k : Mmu S P) (backing : ℕ → ℕ) (laws : MmuLaws k backing) where
  module _ (d : TaskData) (s : S) (p : ℕ) (sp : SnapshotPage) (base : sp.page_base ≡ p) where
    module _ (promise : ℕ → Option ℕ) (found : d.ss.ss_pages p ≡ some sp) where
      abbrev R : TaskData × S → Type 0
      R = Round k backing laws d s p sp base promise found

      -- The entry that a page taken off the list as it is leaves behind.
      abbrev plain : SnapshotPage
      plain = record sp { in_dirty_list = false }

      plain-PageOk :
          (c : ℕ)
          → (sp.dirty && sp.has_been_copied) ≡ false
          → (is_snapshot_page_private sp ≡ true)
            ⊎ ((is_snapshot_page_none_pte sp && sp.has_had_pte) ≡ false)
          → ((c ≡ backing p) × LazyPage c sp (view k s p)) ⊎ SavedPage c sp (view k s p)
          → ((c ≡ backing p) × LazyPage c plain (view k s p)) ⊎ SavedPage c plain (view k s p)
      plain-PageOk c n h (inl (b, l)) =
          let off : sp.in_dirty_list ≡ false = ground (arith, l.flagged, l.not_private, l.filled) in
          let v = l.idle off in
          inl (
            b,
            record {
              flagged = l.flagged;
              not_private = l.not_private;
              not_dirty = l.not_dirty;
              filled = λ z. absurd (cc);
              idle = λ _. v;
            },
          )
      plain-PageOk c n h (inr v) =
          let clean : sp.dirty ≡ false = ground (arith, v.recorded) in
          let w = v.clean clean in
          inr (record {
            plain = v.plain;
            copied = v.copied;
            recorded = λ z. absurd (cc);
            clean = λ _. w;
          })

      stored :
          (c : ℕ) (t : SnapshotPage) (s' : S)
          → ((c ≡ backing p) × LazyPage c t (view k s' p)) ⊎ SavedPage c t (view k s' p)
          → PageOk (backing p) c (update d.ss.ss_pages p (some t) p) (view k s' p)
      stored c t s' (inl (b, l)) = lazy t (rw (eq_refl p)) b l
      stored c t s' (inr v) = saved t (rw (eq_refl p)) v

      Round-plain :
          Linked p (d.ss.ss_pages p) (elem p d.ss.dirty_pages)
          → (sp.dirty && sp.has_been_copied) ≡ false
          → (is_snapshot_page_private sp ≡ true)
            ⊎ ((is_snapshot_page_none_pte sp && sp.has_had_pte) ≡ false)
          → R (unqueue d p sp, s)
      Round-plain l n h = record {
        only = unqueue-OnlyPage k backing laws d s p sp base promise found sp s (λ q z. refl);
        linked =
            unqueue-Linked k backing laws d s p sp base promise found sp base
              (l.data_kept sp found);
        unlisted = unqueue-unlisted k backing laws d s p sp base promise found sp;
        page = λ c o.
            stored c plain s
              (plain-PageOk c n h (saved_or_lazy k backing laws d s p sp base promise found c o));
        mapped = λ m. m;
      }

      -- The entry of a page without a PTE that has been dropped.
      abbrev dropped : SnapshotPage
      dropped = record (set_snapshot_page_none_pte sp) {
        has_had_pte = false;
        in_dirty_list = false;
      }

      zap-view_self :
          view k (k.zap_page s p) p
          ≡ record (view k s p) { absent = true; writable = false; anon = false; bytes = backing p }
      zap-view_self = rw (laws.view-zap s p p, eq_refl p)

      zap-PageOk :
          (c : ℕ)
          → is_snapshot_page_none_pte sp ≡ true
          → ((c ≡ backing p) × LazyPage c sp (view k s p)) ⊎ SavedPage c sp (view k s p)
          → ((c ≡ backing p) × LazyPage c dropped (view k (k.zap_page s p) p))
            ⊎ SavedPage c dropped (view k (k.zap_page s p) p)
      zap-PageOk c f (inl (b, l)) = inl (
        b,
        record {
          flagged = ground (arith, l.flagged);
          not_private = ground (arith, l.flagged, l.not_private);
          not_dirty = l.not_dirty;
          filled = λ z. absurd (cc);
          idle = λ _. (
            ap (λ w. w.anon) zap-view_self,
            ap (λ w. w.writable) zap-view_self,
            ap (λ w. w.bytes) zap-view_self ∙ sym b,
          );
        },
      )
      zap-PageOk c f (inr v) = absurd (let z = v.plain in cc)

      Round-zap :
          Linked p (d.ss.ss_pages p) (elem p d.ss.dirty_pages)
          → is_snapshot_page_none_pte sp ≡ true
          → R (
            unqueue d p (record (set_snapshot_page_none_pte sp) { has_had_pte = false }),
            k.zap_page s p,
          )
      Round-zap l f = record {
        only =
            unqueue-OnlyPage k backing laws d s p sp base promise found
              (record (set_snapshot_page_none_pte sp) { has_had_pte = false }) (k.zap_page s p)
              (λ q z. laws.view-zap s p q ∙ rw z);
        linked =
            unqueue-Linked k backing laws d s p sp base promise found
              (record (set_snapshot_page_none_pte sp) { has_had_pte = false }) base
              (l.data_kept sp found);
        unlisted =
            unqueue-unlisted k backing laws d s p sp base promise found
              (record (set_snapshot_page_none_pte sp) { has_had_pte = false });
        page = λ c o.
            stored c dropped (k.zap_page s p)
              (zap-PageOk c f (saved_or_lazy k backing laws d s p sp base promise found c o));
        mapped = λ m. ap (λ w. w.mapped) zap-view_self ∙ m;
      }

      Round-none_pte :
          Linked p (d.ss.ss_pages p) (elem p d.ss.dirty_pages)
          → is_snapshot_page_none_pte sp ≡ true
          → R (
            unqueue d p (record (set_snapshot_page_none_pte sp) { has_had_pte = false }),
            do_recover_none_pte k s sp,
          )
      unfolding do_recover_none_pte
      Round-none_pte l f =
          subst
            (λ a. R (
              unqueue d p (record (set_snapshot_page_none_pte sp) { has_had_pte = false }),
              k.zap_page s a,
            ))
            (sym base) (Round-zap l f)

      Round-other :
          Linked p (d.ss.ss_pages p) (elem p d.ss.dirty_pages)
          → (sp.dirty && sp.has_been_copied) ≡ false
          → R (recover_other k d s p sp)
      unfolding recover_other
      Round-other l n = elim (Bool-cases (is_snapshot_page_private sp)) [
        | inl h ↦ rw h (Round-plain l n (inl h))
        | inr h ↦ rw h (elim (Bool-cases (is_snapshot_page_none_pte sp && sp.has_had_pte)) [
          | inl z ↦ rw z (Round-none_pte l (ground arith))
          | inr z ↦ rw z (Round-plain l n (inr z))
        ])
      ]

      -- Any round, if the page may be written.
      pub recover_page-Round :
          Linked p (d.ss.ss_pages p) (elem p d.ss.dirty_pages)
          → (view k s p).mapped ≡ true
          → R (recover_page k d s p sp)
      unfolding recover_page
      recover_page-Round l m = elim (Bool-cases (sp.dirty && sp.has_been_copied)) [
        | inl h ↦
            let copied : sp.has_been_copied ≡ true = ground arith in
            let (v, e) = is_some-witness sp.page_data (l.data_kept sp found copied) in
            rw h
              (Round-copied k backing laws d s p sp base promise found v e copied (ground arith) m)
        | inr h ↦ rw h (Round-other l h)
      ]
