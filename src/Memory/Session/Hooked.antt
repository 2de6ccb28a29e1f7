-- ===== src/Memory/Session/Hooked.antt =====
-- The events of a run that go through `do_wp_page_hook` and `__do_munmap_hook` of src/memory.c.
use afl_snapshot_lkm.Base.{
  ℕ, ◌≡◌, refl, true, false, Option, some, List, [], ◌∷◌, ◌==◌, elem, elem-cons, elem-nil, arith,
  Bool-cases, ◌⊎◌, inl, inr, subst, sym, ◌∙◌, ==_iff, eq_refl, is_some,
}
use afl_snapshot_lkm.Page.{SnapshotPage, is_snapshot_page_none_pte, is_snapshot_page_private}
use afl_snapshot_lkm.Task.{TaskData, have_snapshot}
use afl_snapshot_lkm.Mmu.{Mmu, MmuLaws, view, PageView}
use afl_snapshot_lkm.Memory.{page_mask, record_dirty_page}
use afl_snapshot_lkm.Memory.Fault.{do_wp_page_hook, munmap_ptes}
use afl_snapshot_lkm.Memory.Record.{
  record_dirty_page-Inv, record_dirty_page-dirty, record_dirty_page-some, record_dirty_page-page,
}
use afl_snapshot_lkm.Memory.Invariant.{
  PageOk, untouched, lazy, saved, LazyPage-view, SavedPage-view, Inv, OnlyPage-Inv,
}
use afl_snapshot_lkm.Memory.Session.{Becomes}

-- The page may change: it is to be dropped, or its bytes are saved.
abbrev pub IsFree : Option SnapshotPage → Type 0
IsFree e =
    (sp : SnapshotPage) × (e ≡ some sp)
    × ((is_snapshot_page_none_pte sp ≡ true) → (sp.in_dirty_list ≡ true))
    × ((is_snapshot_page_none_pte sp ≡ false) → (sp.dirty ≡ true))

pub IsFree-PageOk :
    (b c : ℕ) (e : Option SnapshotPage) (v v' : PageView)
    → IsFree e
    → PageOk b c e v
    → PageOk b c e v'
IsFree-PageOk b c e v v' (t, f, l, o) (untouched z q a w y) = absurd (cc)
IsFree-PageOk b c e v v' (t, f, l, o) (lazy sp z q r) =
    let same : sp ≡ t = cc in
    let on : sp.in_dirty_list ≡ true = ground (arith, r.flagged) in
    lazy sp z q (LazyPage-view c sp v v' (λ h _. absurd (cc)) r)
IsFree-PageOk b c e v v' (t, f, l, o) (saved sp z r) =
    let same : sp ≡ t = cc in
    let on : sp.dirty ≡ true = ground (arith, r.plain) in
    saved sp z (SavedPage-view c sp v v' (λ h _. absurd (cc)) r)

module _ {S P : Type 0} (k : Mmu S P) where
  hook_taken :
      (kmalloc : Option ℕ) (d : TaskData) (s : S) (a : ℕ) (pte : P) (d' : TaskData) (s' : S)
      → do_wp_page_hook k kmalloc d s a pte ≡ (d', s', true)
      → (d' ≡ (record_dirty_page k kmalloc d s (page_mask a) pte).0)
        × (s' ≡ k.flush_tlb_page (k.set_pte_at s (page_mask a) (k.pte_mkwrite pte)) (page_mask a))
        × (sp : SnapshotPage) × ((record_dirty_page k kmalloc d s (page_mask a) pte).1 ≡ some sp)
        × (is_snapshot_page_private sp ≡ true)
  unfolding do_wp_page_hook
  hook_taken kmalloc d s a pte d' s' h = ground arith

  hook_fell :
      (kmalloc : Option ℕ) (d : TaskData) (s : S) (a : ℕ) (pte : P) (d' : TaskData) (s' : S)
      → have_snapshot d ≡ true
      → do_wp_page_hook k kmalloc d s a pte ≡ (d', s', false)
      → (d' ≡ (record_dirty_page k kmalloc d s (page_mask a) pte).0) × (s' ≡ s)
  unfolding do_wp_page_hook
  hook_fell kmalloc d s a pte d' s' m h = ground arith

-- A page that had an entry is recorded.
abbrev pub Recorded : Option SnapshotPage → Type 0
Recorded e =
    (sp : SnapshotPage) → e ≡ some sp → is_snapshot_page_none_pte sp ≡ false → sp.dirty ≡ true

module _ {S P : Type 0} (k : Mmu S P) (backing : ℕ → ℕ) (laws : MmuLaws k backing)
    (promise : ℕ → Option ℕ) where
  -- A page that changes by itself keeps the invariant if it does so at that page.
  pub Becomes-Inv :
      (d : TaskData) (s s' : S) (p : ℕ) (v : PageView)
      → Becomes k s p v s'
      → ((c : ℕ)
          → promise p ≡ some c
          → PageOk (backing p) c (d.ss.ss_pages p) (view k s p)
          → PageOk (backing p) c (d.ss.ss_pages p) v)
      → Inv k backing promise d s
      → Inv k backing promise d s'
  Becomes-Inv d s s' p v b h i =
      OnlyPage-Inv k backing promise p d s d s'
        (record {
          status_same = refl;
          vmas_same = refl;
          page_same = λ q e. refl;
          listed_same = λ q e. refl;
          view_same = b.1;
          kept = λ e. e;
        })
        i (i.linked p)
        (λ c w.
          subst (λ x. PageOk (backing p) c (d.ss.ss_pages p) x) (sym b.0) (h c w (i.pages p c w)))

  -- What the hook does to a page that it makes writable.
  taken-Becomes :
      (s : S) (p : ℕ)
      → (view k s p).absent ≡ false
      → Becomes k s p
          (record (view k s p) { writable = true })
          (k.flush_tlb_page (k.set_pte_at s p (k.pte_mkwrite (k.pte_at s p))) p)
  taken-Becomes s p h = (
    laws.view-flush _ p p ∙ laws.view-mkwrite s p p h ∙ rw (eq_refl p),
    λ q e. laws.view-flush _ p q ∙ laws.view-mkwrite s p q h ∙ rw e,
  )

  pub taken-Inv :
      (kmalloc : Option ℕ) (d : TaskData) (s : S) (a : ℕ) (d' : TaskData) (s' : S)
      → is_some kmalloc ≡ true
      → (view k s (page_mask a)).absent ≡ false
      → do_wp_page_hook k kmalloc d s a (k.pte_at s (page_mask a)) ≡ (d', s', true)
      → Inv k backing promise d s
      → Inv k backing promise d' s'
  taken-Inv kmalloc d s a d' s' m h e i =
      let p = page_mask a in
      let r = hook_taken k kmalloc d s a (k.pte_at s p) d' s' e in
      let t = record_dirty_page-some k kmalloc d s p (k.pte_at s p) r.2 r.3 in
      subst (λ x. Inv k backing promise x s') (sym r.0)
        (subst (λ x. Inv k backing promise (record_dirty_page k kmalloc d s p (k.pte_at s p)).0 x)
          (sym r.1)
          (Becomes-Inv _ s _ p _ (taken-Becomes s p h)
            (λ c w.
              IsFree-PageOk (backing p) c _ _ _
                (r.2, t.0, (λ z. absurd (let y = t.2 in cc)), (λ z. t.1)))
            (record_dirty_page-Inv k backing promise laws kmalloc d s p m i)))

  pub fell-Inv :
      (kmalloc : Option ℕ) (d : TaskData) (s : S) (a : ℕ) (d' : TaskData) (s' : S)
      → is_some kmalloc ≡ true
      → do_wp_page_hook k kmalloc d s a (k.pte_at s (page_mask a)) ≡ (d', s', false)
      → Inv k backing promise d s
      → Inv k backing promise d' s × (s' ≡ s) × Recorded (d'.ss.ss_pages (page_mask a))
  fell-Inv kmalloc d s a d' s' m e i =
      let p = page_mask a in
      let r = hook_fell k kmalloc d s a (k.pte_at s p) d' s' i.made e in
      (
        subst (λ x. Inv k backing promise x s) (sym r.0)
            (record_dirty_page-Inv k backing promise laws kmalloc d s p m i),
        r.1,
        subst (λ x. Recorded (x.ss.ss_pages p)) (sym r.0)
            (λ sp. record_dirty_page-dirty k kmalloc d s p (k.pte_at s p) sp),
      )

  record_dirty_page-Recorded :
      (kmalloc : Option ℕ) (d : TaskData) (s : S) (p q : ℕ) (pte : P)
      → (p == q) ≡ true ⊎ Recorded (d.ss.ss_pages q)
      → Recorded ((record_dirty_page k kmalloc d s p pte).0.ss.ss_pages q)
  record_dirty_page-Recorded kmalloc d s p q pte h = elim (Bool-cases (p == q)) [
    | inl e ↦
        subst (λ x. Recorded ((record_dirty_page k kmalloc d s p pte).0.ss.ss_pages x))
          ((==_iff p q).0 e) (λ sp. record_dirty_page-dirty k kmalloc d s p pte sp)
    | inr e ↦ rw (record_dirty_page-page k kmalloc d s p q pte e) (other e h)
  ]
    where
      other :
          (p == q) ≡ false
          → (p == q) ≡ true ⊎ Recorded (d.ss.ss_pages q)
          → Recorded (d.ss.ss_pages q)
      other e (inl z) = absurd (cc)
      other e (inr r) = r

  -- After the walk of an unmap the invariant holds still, and every page that it met is recorded.
  pub munmap_ptes-Inv :
      (kmalloc : ℕ → Option ℕ) (d : TaskData) (s : S) (ps : List ℕ)
      → ((a : ℕ) → is_some (kmalloc a) ≡ true)
      → Inv k backing promise d s
      → Inv k backing promise (munmap_ptes k kmalloc d s ps) s
        × ((q : ℕ)
            → (elem q ps ≡ true) ⊎ Recorded (d.ss.ss_pages q)
            → Recorded ((munmap_ptes k kmalloc d s ps).ss.ss_pages q))
  unfolding munmap_ptes
  munmap_ptes-Inv kmalloc d s [] m i = (i, nothing)
    where
      nothing :
          (q : ℕ) → (elem q [] ≡ true) ⊎ Recorded (d.ss.ss_pages q) → Recorded (d.ss.ss_pages q)
      nothing q (inl h) = absurd (let z = elem-nil q in cc)
      nothing q (inr r) = r
  munmap_ptes-Inv kmalloc d s (p ∷ ps) m i =
      let d₁ = (record_dirty_page k (kmalloc p) d s p (k.pte_at s p)).0 in
      let rest =
        munmap_ptes-Inv kmalloc d₁ s ps m
          (record_dirty_page-Inv k backing promise laws (kmalloc p) d s p (m p) i) in
      (rest.0, λ q h. rest.1 q (split q h))
    where
      split :
          (q : ℕ)
          → (elem q (p ∷ ps) ≡ true) ⊎ Recorded (d.ss.ss_pages q)
          → (elem q ps ≡ true)
            ⊎ Recorded ((record_dirty_page k (kmalloc p) d s p (k.pte_at s p)).0.ss.ss_pages q)
      split q h = elim (Bool-cases (elem q ps)) [
        | inl e ↦ inl e
        | inr e ↦ inr (record_dirty_page-Recorded (kmalloc p) d s p q (k.pte_at s p) (first e h))
      ]
        where
          first :
              elem q ps ≡ false
              → (elem q (p ∷ ps) ≡ true) ⊎ Recorded (d.ss.ss_pages q)
              → (p == q) ≡ true ⊎ Recorded (d.ss.ss_pages q)
          first e (inl h) = inl (ground (arith, elem-cons q p ps))
          first e (inr r) = inr r
