-- ===== src/Memory/Take/Promise.antt =====
-- What the walk of `take_memory_snapshot`, src/memory.c, does to each page.
use afl_snapshot_lkm.Base.{
  ℕ, ◌≡◌, refl, true, false, Option, none, some, [], ◌==◌, arith, Bool-cases, Option-cases, ◌⊎◌,
  inl, inr, subst, sym, ap, ◌∙◌, ==_iff, eq_refl, has_flag,
}
use afl_snapshot_lkm.Page.{
  SnapshotPage, is_snapshot_page_none_pte, is_snapshot_page_private, set_snapshot_page_none_pte,
  set_snapshot_page_private, set_snapshot_page_cow,
}
use afl_snapshot_lkm.Task.{TaskData, have_snapshot}
use afl_snapshot_lkm.Mmu.{Mmu, MmuLaws, view, PageView}
use afl_snapshot_lkm.Memory.{
  make_snapshot_page, mark_page, add_snapshot_page, reset_page, put_page, page_mask,
}

-- An entry that the walk has made for page `p`, which looked like `v₀` before and looks like `v` now.
pub record Taken (p : ℕ) (v₀ v : PageView) (sp : SnapshotPage) : Type 0 where
  pub base : sp.page_base ≡ p
  pub fresh : (sp.has_been_copied ≡ false) × (sp.dirty ≡ false) × (sp.in_dirty_list ≡ false)
  pub bytes : v.bytes ≡ v₀.bytes
  pub protected : v.writable ≡ false
  pub presence : v.absent ≡ v₀.absent
  pub kind :
      ((is_snapshot_page_none_pte sp ≡ true)
        × (is_snapshot_page_private sp ≡ false)
        × (v₀.absent ≡ true)
        × (v.anon ≡ false))
      ⊎ ((is_snapshot_page_none_pte sp ≡ false) × (v.absent ≡ false))

-- The state of page `p` in the course of the walk.
abbrev pub Walked : ℕ → PageView → PageView → Option SnapshotPage → Type 0
Walked p v₀ v e = ((e ≡ none) × (v ≡ v₀)) ⊎ ((sp : SnapshotPage) × (e ≡ some sp) × Taken p v₀ v sp)

-- The three ways through `make_snapshot_page`, up to what it returns.
module _ {S P : Type 0} (k : Mmu S P) (kmalloc : Option SnapshotPage) (d : TaskData) (s : S)
    (p : ℕ) where
  abbrev marked : SnapshotPage → TaskData × S
  marked sp = mark_page k (put_page d p (reset_page sp)) s p (reset_page sp)

  abbrev outcome : TaskData × S
  outcome = let (d', s', ok) = make_snapshot_page k kmalloc d s p in (d', s')

  make_known : (sp : SnapshotPage) → d.ss.ss_pages p ≡ some sp → outcome ≡ marked sp
  unfolding make_snapshot_page add_snapshot_page
  make_known sp e = ground arith

  make_new :
      (m : SnapshotPage)
      → d.ss.ss_pages p ≡ none
      → kmalloc ≡ some m
      → outcome ≡ marked (record m { page_base = p; page_data = none })
  unfolding make_snapshot_page add_snapshot_page
  make_new m e z = ground arith

  make_failed : d.ss.ss_pages p ≡ none → kmalloc ≡ none → outcome ≡ (d, s)
  unfolding make_snapshot_page add_snapshot_page
  make_failed e z = ground arith

module _ {S P : Type 0} (k : Mmu S P) (backing : ℕ → ℕ) (laws : MmuLaws k backing) where
  protected-view :
      (s : S) (p : ℕ)
      → view k (k.flush_tlb_page (k.ptep_set_wrprotect s p) (page_mask p)) p
        ≡ record (view k s p) { writable = false }
  protected-view s p = laws.view-flush _ _ p ∙ laws.view-wrprotect s p p ∙ rw (eq_refl p)

  -- An entry that was reset and is marked anew.
  mark_page-Taken :
      (d : TaskData) (s : S) (p : ℕ) (v₀ : PageView) (sp : SnapshotPage)
      → sp.page_base ≡ p
      → (view k s p).bytes ≡ v₀.bytes
      → (view k s p).absent ≡ v₀.absent
      → let r = mark_page k d s p (reset_page sp) in
        (t : SnapshotPage) × (r.0.ss.ss_pages p ≡ some t) × Taken p v₀ (view k r.1 p) t
  unfolding mark_page
  mark_page-Taken d s p v₀ sp b y a = elim (Bool-cases (k.pte_none (k.pte_at s p))) [
    | inl e ↦
        rw (e, mark_page)
          (
            set_snapshot_page_none_pte (record (reset_page sp) { has_had_pte = false }),
            rw (eq_refl p),
            record {
              base = b;
              fresh = (refl, refl, refl);
              bytes = y;
              protected = (laws.absent_plain s p e).0;
              presence = a;
              kind = inl (refl, refl, sym a ∙ e, (laws.absent_plain s p e).1);
            },
          )
    | inr e ↦ elim (Bool-cases (k.pte_write (k.pte_at s p))) [
      | inl w ↦
          let now = protected-view s p in
          rw (e, mark_page)
            (rw (w, mark_page)
              (
                set_snapshot_page_private (record (reset_page sp) { has_had_pte = true }),
                rw (eq_refl p),
                record {
                  base = b;
                  fresh = (refl, refl, refl);
                  bytes = ap (λ x. x.bytes) now ∙ y;
                  protected = ap (λ x. x.writable) now;
                  presence = ap (λ x. x.absent) now ∙ a;
                  kind = inr (refl, ap (λ x. x.absent) now ∙ e);
                },
              ))
      | inr w ↦
          rw (e, mark_page)
            (rw (w, mark_page)
              (
                set_snapshot_page_cow (record (reset_page sp) { has_had_pte = true }),
                rw (eq_refl p),
                record {
                  base = b;
                  fresh = (refl, refl, refl);
                  bytes = y;
                  protected = w;
                  presence = a;
                  kind = inr (refl, e);
                },
              ))
    ]
  ]

  -- A page other than the one that is marked stays as it is.
  mark_page-other :
      (d : TaskData) (s : S) (p q : ℕ) (sp : SnapshotPage)
      → (p == q) ≡ false
      → let r = mark_page k d s p sp in
        (r.0.ss.ss_pages q ≡ d.ss.ss_pages q) × (view k r.1 q ≡ view k s q)
  unfolding mark_page
  mark_page-other d s p q sp e =
      let h =
        laws.view-flush (k.ptep_set_wrprotect s p) (page_mask p) q ∙ laws.view-wrprotect s p q in
      ground (arith, h)

  mark_page-same :
      (d : TaskData) (s : S) (p : ℕ) (sp : SnapshotPage)
      → let r = mark_page k d s p sp in
        (r.0.ss.status ≡ d.ss.status) × (r.0.ss.dirty_pages ≡ d.ss.dirty_pages)
  unfolding mark_page
  mark_page-same d s p sp = ground arith

  module _ (s₀ : S) where
    -- The state of all pages in the course of the walk over a process that looked like `s₀`.
    pub record Walking (d : TaskData) (s : S) : Type 0 where
      pub made : have_snapshot d ≡ true
      pub unlisted : d.ss.dirty_pages ≡ []
      pub pages : (p : ℕ) → Walked p (view k s₀ p) (view k s p) (d.ss.ss_pages p)

    Walked-seen :
        (p : ℕ) (v₀ v : PageView) (e : Option SnapshotPage)
        → Walked p v₀ v e
        → (v.bytes ≡ v₀.bytes) × (v.absent ≡ v₀.absent)
    Walked-seen p v₀ v e (inl (z, h)) = (ap (λ x. x.bytes) h, ap (λ x. x.absent) h)
    Walked-seen p v₀ v e (inr (sp, z, t)) = (t.bytes, t.presence)

    mark_page-Walking :
        (d : TaskData) (s : S) (p : ℕ) (sp : SnapshotPage)
        → sp.page_base ≡ p
        → Walking d s
        → let r = mark_page k (put_page d p (reset_page sp)) s p (reset_page sp) in Walking r.0 r.1
    mark_page-Walking d s p sp b w =
        let d₁ = put_page d p (reset_page sp) in
        let seen = Walked-seen p (view k s₀ p) (view k s p) _ (w.pages p) in
        let same = mark_page-same d₁ s p (reset_page sp) in
        record {
          made = ap (λ x. has_flag 1 x) same.0 ∙ w.made;
          unlisted = same.1 ∙ w.unlisted;
          pages = λ q. elim (Bool-cases (p == q)) [
            | inl e ↦
                subst
                  (λ x.
                    Walked x (view k s₀ x) (view k (mark_page k d₁ s p (reset_page sp)).1 x)
                      ((mark_page k d₁ s p (reset_page sp)).0.ss.ss_pages x))
                  ((==_iff p q).0 e) (inr (mark_page-Taken d₁ s p (view k s₀ p) sp b seen.0 seen.1))
            | inr e ↦
                let o = mark_page-other d₁ s p q (reset_page sp) e in
                rw (o.0, o.1) (rw e (w.pages q))
          ];
        }

    pub make_snapshot_page-Walking :
        (kmalloc : Option SnapshotPage) (d : TaskData) (s : S) (p : ℕ)
        → Walking d s
        → let r = make_snapshot_page k kmalloc d s p in Walking r.0 r.1
    make_snapshot_page-Walking kmalloc d s p w = elim (Option-cases (d.ss.ss_pages p)) [
      | inr (sp, e) ↦
          let m = mark_page-Walking d s p sp (base_of sp e (w.pages p)) w in
          subst (λ r. Walking r.0 r.1) (sym (make_known k kmalloc d s p sp e)) m
      | inl e ↦ elim (Option-cases kmalloc) [
        | inl z ↦ subst (λ r. Walking r.0 r.1) (sym (make_failed k kmalloc d s p e z)) w
        | inr (m, z) ↦
            subst (λ r. Walking r.0 r.1) (sym (make_new k kmalloc d s p m e z))
              (mark_page-Walking d s p (record m { page_base = p; page_data = none }) refl w)
      ]
    ]
      where
        base_of :
            (sp : SnapshotPage)
            → d.ss.ss_pages p ≡ some sp
            → Walked p (view k s₀ p) (view k s p) (d.ss.ss_pages p)
            → sp.page_base ≡ p
        base_of sp e (inl (z, v)) = absurd (cc)
        base_of sp e (inr (t, z, o)) = let y : t ≡ sp = cc in let x = o.base in cc
