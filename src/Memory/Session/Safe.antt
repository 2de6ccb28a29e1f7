-- ===== src/Memory/Session/Safe.antt =====
-- Whatever a process does between the taking of a snapshot and a restore, src/memory.c gives it back
-- the memory of the snapshot.
use afl_snapshot_lkm.Base.{
  Bool, none, ◌⊎◌, ℕ, ◌+◌, ◌%◌, ◌^◌, ◌≡◌, true, false, Option, some, List, ◌==◌, elem, Bool-cases,
  inl, inr, subst, sym, ◌∙◌,
}
use afl_snapshot_lkm.Page.{SnapshotPage, is_snapshot_page_none_pte}
use afl_snapshot_lkm.Task.{TaskData, have_snapshot}
use afl_snapshot_lkm.Mmu.{Mmu, MmuLaws, view, AllMapped, PageView}
use afl_snapshot_lkm.Memory.{ran, page_mask}
use afl_snapshot_lkm.Memory.Fault.{do_munmap_hook, munmap_ptes, page_add_new_anon_rmap_hook}
use afl_snapshot_lkm.Memory.Recover.{recover_dirty}
use afl_snapshot_lkm.Memory.Anon.{page_add_new_anon_rmap_hook-Inv}
use afl_snapshot_lkm.Memory.Invariant.{PageOk, untouched, lazy, saved, Inv}
use afl_snapshot_lkm.Memory.Restore.Loop.{recover_dirty_lem}
use afl_snapshot_lkm.Memory.Session.{
  is_lazy, Step, store, read_fault, write_fault_taken, write_fault_reused, write_fault_copied,
  anon_fault, unmap, remap, map_file, is_saved, restore, Reach, here, next,
}
use afl_snapshot_lkm.Memory.Session.Hooked.{
  Recorded, Becomes-Inv, taken-Inv, fell-Inv, munmap_ptes-Inv,
}
use afl_snapshot_lkm.Memory.Session.Pages.{
  store-PageOk, read-PageOk, reuse-PageOk, unmap-PageOk, remap-PageOk, saved-PageOk,
}

module _ {S P : Type 0} (k : Mmu S P) (backing : ℕ → ℕ) (laws : MmuLaws k backing)
    (promise : ℕ → Option ℕ) where
  -- Pages may change one by one.
  views-Inv :
      (d : TaskData) (s s' : S)
      → ((q c : ℕ)
          → promise q ≡ some c
          → PageOk (backing q) c (d.ss.ss_pages q) (view k s q)
          → PageOk (backing q) c (d.ss.ss_pages q) (view k s' q))
      → Inv k backing promise d s
      → Inv k backing promise d s'
  views-Inv d s s' h i = record {
    made = i.made;
    linked = i.linked;
    pages = λ q c w. h q c w (i.pages q c w);
    reachable = i.reachable;
  }

  -- A page that is promised and not saved stays as it is.
  mapped_over :
      {outside : Bool} (b c : ℕ) (e : Option SnapshotPage) (v v' : PageView)
      → (v' ≡ v) ⊎ (is_saved e ≡ true) ⊎ ((e ≡ none) × (outside ≡ false))
      → (e ≡ none → outside ≡ true)
      → PageOk b c e v
      → PageOk b c e v'
  mapped_over b c e v v' (inl same) r o = subst (λ x. PageOk b c e x) (sym same) o
  mapped_over b c e v v' (inr (inl t)) r o = saved-PageOk b c e v v' t o
  mapped_over b c e v v' (inr (inr n)) r o = absurd (let z = r n.0 in let y = n.1 in cc)

  -- The pages `ps` are recorded, and then unmapped.
  gone-Inv :
      (d : TaskData) (s s' : S) (ps : List ℕ)
      → ((q : ℕ) → elem q ps ≡ true → Recorded (d.ss.ss_pages q))
      → ((q : ℕ) → elem q ps ≡ false → view k s' q ≡ view k s q)
      → ((q : ℕ)
          → elem q ps ≡ true
          → ((view k s' q).writable ≡ false)
            × ((view k s' q).anon ≡ false)
            × (is_lazy (d.ss.ss_pages q) ≡ true
                → (view k s q).anon ≡ false
                → (view k s' q).bytes ≡ (view k s q).bytes))
      → Inv k backing promise d s
      → Inv k backing promise d s'
  gone-Inv d s s' ps t out gone i = views-Inv d s s' (λ q c w o. change q c o) i
    where
      change :
          (q c : ℕ)
          → PageOk (backing q) c (d.ss.ss_pages q) (view k s q)
          → PageOk (backing q) c (d.ss.ss_pages q) (view k s' q)
      change q c o = elim (Bool-cases (elem q ps)) [
        | inl h ↦
            let g = gone q h in
            unmap-PageOk (backing q) c _ (view k s q) (view k s' q) g.0 g.1 g.2 (t q h) o
        | inr h ↦ subst (λ x. PageOk (backing q) c (d.ss.ss_pages q) x) (sym (out q h)) o
      ]

  -- The filling of an absent page: one that had an entry is recorded already.
  anon_fault-Inv :
      (page : Option SnapshotPage) (a : ℕ) (d : TaskData) (s : S) (d' : TaskData) (s' : S)
      → (view k s (page_mask a)).absent ≡ true
      → page_add_new_anon_rmap_hook page d a ≡ ran d'
      → ((q : ℕ) → (page_mask a == q) ≡ false → view k s' q ≡ view k s q)
      → Inv k backing promise d s
      → Inv k backing promise d' s'
  anon_fault-Inv page a d s d' s' h r v i =
      page_add_new_anon_rmap_hook-Inv k backing promise page d a d' s s' r v
        (λ c w sp e f. recorded c sp e f (i.pages (page_mask a) c w)) i
    where
      recorded :
          (c : ℕ) (sp : SnapshotPage)
          → d.ss.ss_pages (page_mask a) ≡ some sp
          → is_snapshot_page_none_pte sp ≡ false
          → PageOk (backing (page_mask a)) c (d.ss.ss_pages (page_mask a)) (view k s (page_mask a))
          → sp.dirty ≡ true
      recorded c sp e f (untouched z q n u y) = absurd (cc)
      recorded c sp e f (lazy t z q l) = absurd (let y : t ≡ sp = cc in let x = l.flagged in cc)
      recorded c sp e f (saved t z o) =
          let y : t ≡ sp = cc in
          elim (Bool-cases sp.dirty) [
            | inl x ↦ x
            | inr x ↦ absurd (let x' : t.dirty ≡ false = cc in let w = (o.clean x').0 in cc)
          ]

  munmap-made :
      (kmalloc : ℕ → Option ℕ) (d : TaskData) (s : S) (start len : ℕ)
      → have_snapshot d ≡ true
      → do_munmap_hook k kmalloc d s start len
        ≡ munmap_ptes k kmalloc d s (k.walk_page_range s start ((start + len) % 2 ^ 64))
  unfolding do_munmap_hook
  munmap-made kmalloc d s start len h = rw h

  -- Each event keeps the invariant.
  Step-Inv :
      (d : TaskData) (s : S) (d' : TaskData) (s' : S)
      → Step k d s d' s'
      → Inv k backing promise d s
      → Inv k backing promise d' s'
  Step-Inv d s d' s' (store p v w b e) i = rw e (
      Becomes-Inv k backing laws promise d s s' p _ b (λ c q. store-PageOk (backing p) c v _ _ w) i)
  Step-Inv d s d' s' (read_fault p a b e) i =
      rw e
        (Becomes-Inv k backing laws promise d s s' p _ b (λ c q. read-PageOk (backing p) c _ _ a) i)
  Step-Inv d s d' s' (write_fault_taken kmalloc a m h e) i =
      taken-Inv k backing laws promise kmalloc d s a d' s' m h e i
  Step-Inv d s d' s' (write_fault_reused kmalloc a s₁ m h n e b) i =
      let r = fell-Inv k backing laws promise kmalloc d s a d' s₁ m e i in
      Becomes-Inv k backing laws promise d' s₁ s' (page_mask a) _ b
        (λ c q.
          reuse-PageOk (backing (page_mask a)) c _ _ _
            (subst (λ x. (view k x (page_mask a)).anon ≡ true) (sym r.1) n) r.2)
        (subst (λ x. Inv k backing promise d' x) (sym r.1) r.0)
  Step-Inv d s d' s' (write_fault_copied kmalloc page a d₁ s₁ m h e r b) i =
      let f = fell-Inv k backing laws promise kmalloc d s a d₁ s₁ m e i in
      page_add_new_anon_rmap_hook-Inv k backing promise page d₁ a d' s₁ s' r b.1 (λ c w. f.2)
        (subst (λ x. Inv k backing promise d₁ x) (sym f.1) f.0)
  Step-Inv d s d' s' (anon_fault page a w h r b) i = anon_fault-Inv page a d s d' s' h r b.1 i
  Step-Inv d s d' s' (unmap kmalloc start len m e out gone) i =
      let ps = k.walk_page_range s start ((start + len) % 2 ^ 64) in
      let r = munmap_ptes-Inv k backing laws promise kmalloc d s ps m i in
      let d-is : d' ≡ munmap_ptes k kmalloc d s ps = e ∙ munmap-made kmalloc d s start len i.made in
      gone-Inv d' s s' ps
        (λ q h. subst (λ x. Recorded (x.ss.ss_pages q)) (sym d-is) (r.1 q (inl h))) out gone
        (subst (λ x. Inv k backing promise x s) (sym d-is) r.0)
  Step-Inv d s d' s' (remap h e) i = rw e (
      views-Inv d s s'
        (λ q c w o.
          subst (λ x. PageOk (backing q) c (d.ss.ss_pages q) x) (sym (h q))
            (remap-PageOk (backing q) c _ _ _ _ o))
        i)
  Step-Inv d s d' s' (map_file h e) i = rw e (
      views-Inv d s s'
        (λ q c w o. mapped_over (backing q) c (d.ss.ss_pages q) _ _ (h q) (i.reachable q c w) o) i)
  Step-Inv d s d' s' (restore m e) i =
      subst (λ x. Inv k backing promise x.0 x.1) (sym e)
        (recover_dirty_lem k backing laws promise d s i m).0

  -- Any run keeps it.
  pub Reach-Inv :
      (d : TaskData) (s : S) {d' : TaskData} {s' : S}
      → Inv k backing promise d s
      → Reach k d s d' s'
      → Inv k backing promise d' s'
  Reach-Inv d s i here = i
  Reach-Inv d s i (next r t) = Step-Inv _ _ _ _ t (Reach-Inv d s i r)

  pub restore_exact :
      (d : TaskData) (s : S) (d' : TaskData) (s' : S) (p c : ℕ)
      → Inv k backing promise d s
      → Reach k d s d' s'
      → AllMapped k s' d'.ss.dirty_pages
      → promise p ≡ some c
      → let r = recover_dirty k d' s' in
        ((view k r.1 p).bytes ≡ c)
        × ((view k r.1 p).writable ≡ false)
        × (elem p r.0.ss.dirty_pages ≡ false)
  restore_exact d s d' s' p c i r m w =
      let b = (recover_dirty_lem k backing laws promise d' s' (Reach-Inv d s i r) m).1 p in
      (b.bytes c w, b.protected c w, b.off_list)
