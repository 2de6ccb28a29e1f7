-- ===== src/Memory/Anon.antt =====
-- `page_add_new_anon_rmap_hook` of src/memory.c keeps track of pages that had no PTE.
use afl_snapshot_lkm.Base.{
  ℕ, ◌≡◌, refl, true, false, Option, none, some, ◌==◌, elem, elem-snoc, arith, if◌then◌else◌,
  Option-cases, inl, inr, ◌∙◌, eq_refl,
}
use afl_snapshot_lkm.Page.{SnapshotPage, is_snapshot_page_none_pte}
use afl_snapshot_lkm.Task.{TaskData, have_snapshot}
use afl_snapshot_lkm.Mmu.{Mmu, view, PageView}
use afl_snapshot_lkm.Memory.{ran, page_mask, is_snapshotted_address}
use afl_snapshot_lkm.Memory.Fault.{page_add_new_anon_rmap_hook}
use afl_snapshot_lkm.Memory.Invariant.{PageOk, untouched, lazy, saved, Linked, Inv, OnlyPage-Inv}

-- The entry of a page that a first touch adds.
abbrev first_touch : ℕ → SnapshotPage
first_touch p = record {
  page_base = p;
  page_prot = 16;
  page_data = none;
  has_been_copied = false;
  has_had_pte = true;
  dirty = false;
  in_dirty_list = true;
}

module _ (m : Option SnapshotPage) (d : TaskData) (a : ℕ) (d' : TaskData) where
  module _ (h : page_add_new_anon_rmap_hook m d a ≡ ran d') where
    hook-page :
        (q : ℕ)
        → (page_mask a == q) ≡ false
        → (d'.ss.ss_pages q ≡ d.ss.ss_pages q)
          × (elem q d'.ss.dirty_pages ≡ elem q d.ss.dirty_pages)
    unfolding page_add_new_anon_rmap_hook
    hook-page q e = ground (arith, elem-snoc q (page_mask a) d.ss.dirty_pages)

    hook-same : (d'.ss.status ≡ d.ss.status) × (d'.ss.snapshotted_vmas ≡ d.ss.snapshotted_vmas)
    unfolding page_add_new_anon_rmap_hook
    hook-same = ground arith

    hook-new :
        have_snapshot d ≡ true
        → d.ss.ss_pages (page_mask a) ≡ none
        → is_snapshotted_address d (page_mask a) ≡ true
        → d'.ss.ss_pages (page_mask a) ≡ some (first_touch (page_mask a))
    unfolding page_add_new_anon_rmap_hook
    hook-new s e v = ground (arith, eq_refl (page_mask a))

    hook-known :
        (sp : SnapshotPage)
        → have_snapshot d ≡ true
        → d.ss.ss_pages (page_mask a) ≡ some sp
        → d'.ss.ss_pages (page_mask a)
          ≡ some (
              if is_snapshot_page_none_pte sp
              then record sp { has_had_pte = true; in_dirty_list = true }
              else record sp { has_had_pte = true })
    unfolding page_add_new_anon_rmap_hook
    hook-known sp s e = ground (arith, eq_refl (page_mask a))

    hook-Linked :
        Linked (page_mask a) (d.ss.ss_pages (page_mask a)) (elem (page_mask a) d.ss.dirty_pages)
        → Linked (page_mask a) (d'.ss.ss_pages (page_mask a)) (elem (page_mask a) d'.ss.dirty_pages)
    unfolding page_add_new_anon_rmap_hook
    hook-Linked l = elim (Option-cases (d.ss.ss_pages (page_mask a))) [
      | inl e ↦ record {
        unknown = ground (arith, eq_refl (page_mask a), l.unknown e);
        based = ground (arith, eq_refl (page_mask a));
        flag =
            ground (
              arith,
              eq_refl (page_mask a),
              elem-snoc (page_mask a) (page_mask a) d.ss.dirty_pages,
            );
        data_kept = ground (arith, eq_refl (page_mask a));
      }
      | inr (sp, e) ↦ record {
        unknown = ground (
          arith,
          eq_refl (page_mask a),
          l.flag sp e,
          elem-snoc (page_mask a) (page_mask a) d.ss.dirty_pages,
        );
        based = ground (arith, eq_refl (page_mask a), l.based sp e);
        flag = ground (
          arith,
          eq_refl (page_mask a),
          l.flag sp e,
          elem-snoc (page_mask a) (page_mask a) d.ss.dirty_pages,
        );
        data_kept = ground (arith, eq_refl (page_mask a), l.data_kept sp e);
      }
    ]

    hook-kept :
        have_snapshot d ≡ true
        → d'.ss.ss_pages (page_mask a) ≡ none
        → d.ss.ss_pages (page_mask a) ≡ none
    hook-kept s e = elim (Option-cases (d.ss.ss_pages (page_mask a))) [
      | inl z ↦ z
      | inr (sp, z) ↦ absurd (let y = hook-known sp s z in cc)
    ]

    -- After the hook the page may be filled or written: what the snapshot needs of it is recorded, if
    -- a page that had an entry is recorded already.
    hook-PageOk :
        (b c : ℕ) (v v' : PageView)
        → have_snapshot d ≡ true
        → (d.ss.ss_pages (page_mask a) ≡ none → is_snapshotted_address d (page_mask a) ≡ true)
        → ((sp : SnapshotPage)
            → d.ss.ss_pages (page_mask a) ≡ some sp
            → is_snapshot_page_none_pte sp ≡ false
            → sp.dirty ≡ true)
        → PageOk b c (d.ss.ss_pages (page_mask a)) v
        → PageOk b c (d'.ss.ss_pages (page_mask a)) v'
    hook-PageOk b c v v' s r t (untouched e q _ w y) =
        lazy (first_touch (page_mask a)) (hook-new s e (r e)) q (record {
          flagged = refl;
          not_private = refl;
          not_dirty = refl;
          filled = λ _. refl;
          idle = λ z. absurd (cc);
        })
    hook-PageOk b c v v' s r t (lazy sp e q l) =
        lazy (record sp { has_had_pte = true; in_dirty_list = true })
          (hook-known sp s e ∙ rw l.flagged refl) q
          (record {
            flagged = l.flagged;
            not_private = l.not_private;
            not_dirty = l.not_dirty;
            filled = λ _. refl;
            idle = λ z. absurd (cc);
          })
    hook-PageOk b c v v' s r t (saved sp e o) =
        saved (record sp { has_had_pte = true }) (hook-known sp s e ∙ rw o.plain refl)
          (record {
            plain = o.plain;
            copied = o.copied;
            recorded = o.recorded;
            clean = λ z. absurd (let y = t sp e o.plain in cc);
          })

module _ {S P : Type 0} (k : Mmu S P) (backing : ℕ → ℕ) (promise : ℕ → Option ℕ) where
  -- If the hook returns, it keeps the invariant, whatever then happens to the page, if no other page
  -- changes and if a promised page whose entry is in the table and had a PTE is dirty already.
  pub page_add_new_anon_rmap_hook-Inv :
      (m : Option SnapshotPage) (d : TaskData) (a : ℕ) (d' : TaskData) (s s' : S)
      → page_add_new_anon_rmap_hook m d a ≡ ran d'
      → ((q : ℕ) → (page_mask a == q) ≡ false → view k s' q ≡ view k s q)
      → ((c : ℕ)
          → promise (page_mask a) ≡ some c
          → (sp : SnapshotPage) → d.ss.ss_pages (page_mask a) ≡ some sp
          → is_snapshot_page_none_pte sp ≡ false
          → sp.dirty ≡ true)
      → Inv k backing promise d s
      → Inv k backing promise d' s'
  page_add_new_anon_rmap_hook-Inv m d a d' s s' h v t i =
      OnlyPage-Inv k backing promise (page_mask a) d s d' s'
        (record {
          status_same = (hook-same m d a d' h).0;
          vmas_same = (hook-same m d a d' h).1;
          page_same = λ q e. (hook-page m d a d' h q e).0;
          listed_same = λ q e. (hook-page m d a d' h q e).1;
          view_same = v;
          kept = hook-kept m d a d' h i.made;
        })
        i (hook-Linked m d a d' h (i.linked (page_mask a)))
        (λ c w.
          hook-PageOk m d a d' h (backing (page_mask a)) c (view k s (page_mask a))
            (view k s' (page_mask a)) i.made (i.reachable (page_mask a) c w) (t c w)
            (i.pages (page_mask a) c w))
