-- ===== src/Memory/Restore/Loop.antt =====
-- The whole loop of `recover_memory_snapshot`, src/memory.c.
use afl_snapshot_lkm.Base.{
  ℕ, ◌≡◌, refl, true, false, Option, some, List, [], ◌∷◌, ◌==◌, elem, elem-cons, elem-nil,
  elem-tail, arith, Bool-cases, Option-cases, inl, inr, subst, ap, ◌∙◌, ==_iff, eq_refl,
}
use afl_snapshot_lkm.Page.{SnapshotPage}
use afl_snapshot_lkm.Task.{TaskData}
use afl_snapshot_lkm.Mmu.{Mmu, MmuLaws, view, AllMapped}
use afl_snapshot_lkm.Memory.Recover.{recover_page, recover_pages, recover_dirty}
use afl_snapshot_lkm.Memory.Invariant.{
  PageOk, untouched, lazy, saved, Linked, Inv, OnlyPage, OnlyPage-Inv,
}
use afl_snapshot_lkm.Memory.Restore.Other.{recover_page-Round}

module _ {S P : Type 0} (k : Mmu S P) (backing : ℕ → ℕ) (laws : MmuLaws k backing)
    (promise : ℕ → Option ℕ) where
  -- Page `p` is off the list and, if promised, has its bytes and is write-protected.
  pub record Back (d : TaskData) (s : S) (p : ℕ) : Type 0 where
    pub off_list : elem p d.ss.dirty_pages ≡ false
    pub bytes : (c : ℕ) → promise p ≡ some c → (view k s p).bytes ≡ c
    pub protected : (c : ℕ) → promise p ≡ some c → (view k s p).writable ≡ false

  -- A page that is not on the list is back.
  Inv-Back :
      (d : TaskData) (s : S) (p : ℕ)
      → Inv k backing promise d s
      → elem p d.ss.dirty_pages ≡ false
      → Back d s p
  Inv-Back d s p i o = record {
    off_list = o;
    bytes = λ c w. (go (d.ss.ss_pages p) (i.linked p) c (i.pages p c w)).0;
    protected = λ c w. (go (d.ss.ss_pages p) (i.linked p) c (i.pages p c w)).1;
  }
    where
      go :
          (e : Option SnapshotPage)
          → Linked p e (elem p d.ss.dirty_pages)
          → (c : ℕ) → PageOk (backing p) c e (view k s p)
          → ((view k s p).bytes ≡ c) × ((view k s p).writable ≡ false)
      go e l c (untouched _ b a w y) = (y, w)
      go e l c (lazy sp z b v) = let r = v.idle (l.flag sp z ∙ o) in (r.2, r.1)
      go e l c (saved sp z v) =
          let off = l.flag sp z ∙ o in
          let clean : sp.dirty ≡ false = ground (arith, v.recorded) in
          let r = v.clean clean in (r.2, r.1)

  -- What the rounds over the pages `ps` leave behind.
  record Rounds (d : TaskData) (s : S) (ps : List ℕ) (r : TaskData × S) : Type 0 where
    inv : Inv k backing promise r.0 r.1
    done : (p : ℕ) → elem p ps ≡ true → elem p r.0.ss.dirty_pages ≡ false
    others : (p : ℕ) → elem p d.ss.dirty_pages ≡ false → elem p r.0.ss.dirty_pages ≡ false

  rest-AllMapped :
      (s s' : S) (p : ℕ) (ps : List ℕ)
      → ((q : ℕ) → (p == q) ≡ false → view k s' q ≡ view k s q)
      → ((view k s p).mapped ≡ true → (view k s' p).mapped ≡ true)
      → AllMapped k s (p ∷ ps)
      → AllMapped k s' ps
  rest-AllMapped s s' p ps same kept m q h = elim (Bool-cases (p == q)) [
    | inl e ↦
        subst (λ a. (view k s' a).mapped ≡ true) ((==_iff p q).0 e)
          (kept (m p (rw (elem-cons p p ps, eq_refl p))))
    | inr e ↦ ap (λ w. w.mapped) (same q e) ∙ m q (rw (elem-cons q p ps, h) (ground arith))
  ]

  Rounds-cons :
      (d : TaskData) (s : S) (p : ℕ) (ps : List ℕ) (d' : TaskData) (s' : S) (r : TaskData × S)
      → OnlyPage k backing promise p d s d' s'
      → elem p d'.ss.dirty_pages ≡ false
      → Rounds d' s' ps r
      → Rounds d s (p ∷ ps) r
  Rounds-cons d s p ps d' s' r only off rest = record {
    inv = rest.inv;
    done = λ q h. elim (Bool-cases (p == q)) [
      | inl z ↦ rest.others q (here q z)
      | inr z ↦ rest.done q (elem-tail q p ps z h)
    ];
    others = λ q h. elim (Bool-cases (p == q)) [
      | inl z ↦ rest.others q (here q z)
      | inr z ↦ rest.others q (only.listed_same q z ∙ h)
    ];
  }
    where
      here : (q : ℕ) → (p == q) ≡ true → elem q d'.ss.dirty_pages ≡ false
      here q z = subst (λ a. elem a d'.ss.dirty_pages ≡ false) ((==_iff p q).0 z) off

  recover_pages-Rounds :
      (d : TaskData) (s : S) (ps : List ℕ)
      → Inv k backing promise d s
      → AllMapped k s ps
      → Rounds d s ps (recover_pages k d s ps)
  unfolding recover_pages
  recover_pages-Rounds d s [] i m = record {
    inv = i;
    done = λ p h. absurd (let z = elem-nil p in cc);
    others = λ p h. h;
  }
  recover_pages-Rounds d s (p ∷ ps) i m = elim (Option-cases (d.ss.ss_pages p)) [
    | inl e ↦
        let r = recover_pages-Rounds d s ps i (rest-AllMapped s s p ps (λ q _. refl) (λ z. z) m) in
        rw (e, recover_pages)
          (record {
            inv = r.inv;
            done = λ q h. elim (Bool-cases (p == q)) [
              | inl z ↦ r.others q (
                  subst (λ a. elem a d.ss.dirty_pages ≡ false) ((==_iff p q).0 z)
                    ((i.linked p).unknown e))
              | inr z ↦ r.done q (elem-tail q p ps z h)
            ];
            others = r.others;
          })
    | inr (sp, e) ↦
        let l = i.linked p in
        let o = recover_page-Round k backing laws d s p sp (l.based sp e) promise e l here in
        rw (e, recover_pages)
          (Rounds-cons d s p ps _ _ _ o.only o.unlisted (
            recover_pages-Rounds (recover_page k d s p sp).0 (recover_page k d s p sp).1 ps
              (OnlyPage-Inv k backing promise p d s _ _ o.only i o.linked
                (λ c w. o.page c (i.pages p c w)))
              (rest-AllMapped s (recover_page k d s p sp).1 p ps o.only.view_same o.mapped m)))
  ]
    where
      here : (view k s p).mapped ≡ true
      here = m p (rw (elem-cons p p ps, eq_refl p))

  -- From any state that the invariant allows, the loop over the dirty pages gives every page that the
  -- snapshot holds its bytes back and write-protects it, leaves no page on the list, and keeps the
  -- invariant, so that the snapshot can be restored again; the pages on the list are to be mapped for
  -- writing.
  pub recover_dirty_lem :
      (d : TaskData) (s : S)
      → Inv k backing promise d s
      → AllMapped k s d.ss.dirty_pages
      → Inv k backing promise (recover_dirty k d s).0 (recover_dirty k d s).1
        × ((p : ℕ) → Back (recover_dirty k d s).0 (recover_dirty k d s).1 p)
  unfolding recover_dirty
  recover_dirty_lem d s i m =
      let r = recover_pages-Rounds d s d.ss.dirty_pages i m in
      (
        r.inv,
        λ p. Inv-Back _ _ p r.inv (elim (Bool-cases (elem p d.ss.dirty_pages)) [
          | inl h ↦ r.done p h
          | inr h ↦ r.others p h
        ]),
      )
