-- ===== src/Memory/Take/Establish.antt =====
-- `take_memory_snapshot` of src/memory.c sets the invariant of the snapshot up.
use afl_snapshot_lkm.Base.{
  ℕ, ◌≡◌, refl, Bool, true, false, ◌&&◌, Option, none, some, List, [], ◌∷◌, elem-nil, arith,
  if◌then◌else◌, Bool-cases, ◌⊎◌, inl, inr, subst, sym, ap, ◌∙◌, is_some,
}
use afl_snapshot_lkm.Page.{SnapshotPage, is_snapshot_page_none_pte, is_snapshot_page_private}
use afl_snapshot_lkm.Task.{TaskData, SnapshotVma, have_snapshot}
use afl_snapshot_lkm.Ranges.{
  walk_start, Action, action_continue, action_subtree, snapshot_walk_check_range,
}
use afl_snapshot_lkm.Mmu.{Mmu, MmuLaws, view}
use afl_snapshot_lkm.Memory.{is_snapshotted_address}
use afl_snapshot_lkm.Memory.Take.{
  Vma, WalkState, snapshot_range_entry, snapshot_pte_entry, take_vma, take_vmas,
  take_memory_snapshot, add_snapshot_vma, is_skipped, list_snapshotted,
}
use afl_snapshot_lkm.Memory.Invariant.{PageOk, untouched, lazy, saved, Linked, Inv}
use afl_snapshot_lkm.Memory.Take.Promise.{Walked, Walking, make_snapshot_page-Walking}

module _ {S P : Type 0} (k : Mmu S P) where
  -- What a walk may do: it calls the entries of `snapshot_walk_ops`, for ranges of its choice.
  pub data Calls (st : WalkState S) : WalkState S → Type 0 where
    done : Calls st st
    range :
        (t st' : WalkState S) (addr next : ℕ)
        → Calls st t
        → st' ≡ (snapshot_range_entry t addr next).0
        → Calls st st'
    entry :
        (t st' : WalkState S) (kmalloc : Option SnapshotPage) (addr next : ℕ)
        → Calls st t
        → st' ≡ (snapshot_pte_entry k kmalloc t addr next).0
        → Calls st st'

  -- The bytes that a restore is to put back: those of the pages that the walk has entered in the
  -- table, and of the pages of the snapshotted regions that had no PTE.
  unfoldable pub promise_of : S → TaskData → ℕ → Option ℕ
  promise_of s₀ d p =
      if is_some (d.ss.ss_pages p)
      then some (k.content s₀ p)
      else if is_snapshotted_address d p && k.pte_none (k.pte_at s₀ p)
      then some (k.content s₀ p)
      else none

  pub promise_of-content :
      (s₀ : S) (d : TaskData) (p c : ℕ) → promise_of s₀ d p ≡ some c → c ≡ k.content s₀ p
  unfolding promise_of
  promise_of-content s₀ d p c e = ground arith

  promise_of-untouched :
      (s₀ : S) (d : TaskData) (p c : ℕ)
      → promise_of s₀ d p ≡ some c
      → d.ss.ss_pages p ≡ none
      → (is_snapshotted_address d p ≡ true) × (k.pte_none (k.pte_at s₀ p) ≡ true)
  unfolding promise_of
  promise_of-untouched s₀ d p c e z = ground arith

module _ {S P : Type 0} (k : Mmu S P) (backing : ℕ → ℕ) (laws : MmuLaws k backing) (s₀ : S) where
  abbrev Ok : WalkState S → Type 0
  Ok st = Walking k backing laws s₀ st.task st.space

  entry-Walking :
      (st : WalkState S) (kmalloc : Option SnapshotPage) (addr next : ℕ)
      → Ok st
      → Ok (snapshot_pte_entry k kmalloc st addr next).0
  unfolding snapshot_pte_entry
  entry-Walking st kmalloc addr next w =
      go (snapshot_walk_check_range st.task st.walk addr next).1 refl
    where
      go :
          (act : Action)
          → (snapshot_walk_check_range st.task st.walk addr next).1 ≡ act
          → Ok (snapshot_pte_entry k kmalloc st addr next).0
      go action_continue e = rw (e, snapshot_pte_entry) w
      go action_subtree e =
          rw (e, snapshot_pte_entry)
            (make_snapshot_page-Walking k backing laws s₀ kmalloc st.task st.space addr w)

  Calls-Walking : (st : WalkState S) {st' : WalkState S} → Calls k st st' → Ok st → Ok st'
  unfolding snapshot_range_entry
  Calls-Walking st done w = w
  Calls-Walking st (range t st' addr next c e) w =
      let o = Calls-Walking st c w in
      subst Ok (sym e) (record { made = o.made; unlisted = o.unlisted; pages = o.pages })
  Calls-Walking st (entry t st' kmalloc addr next c e) w =
      subst Ok (sym e) (entry-Walking t kmalloc addr next (Calls-Walking st c w))

  -- A region is entered in the lists.
  add_snapshot_vma-Walking :
      (kmalloc : Option SnapshotVma) (d : TaskData) (s : S) (vma : Vma)
      → Walking k backing laws s₀ d s
      → Walking k backing laws s₀ (add_snapshot_vma kmalloc d vma).0 s
  unfolding add_snapshot_vma
  add_snapshot_vma-Walking none d s vma w = w
  add_snapshot_vma-Walking (some m) d s vma w = record {
    made = w.made;
    unlisted = w.unlisted;
    pages = w.pages;
  }

  list_snapshotted-Walking :
      (d : TaskData) (s : S) (v : SnapshotVma)
      → Walking k backing laws s₀ d s
      → Walking k backing laws s₀ (list_snapshotted d v) s
  list_snapshotted-Walking d s v w = record {
    made = w.made;
    unlisted = w.unlisted;
    pages = w.pages;
  }

  module _ (kmalloc : ℕ → Option SnapshotVma)
      (walk_page_vma : WalkState S → Vma → WalkState S × Bool) (start_stack : ℕ)
      (calls : (st : WalkState S) (vma : Vma) → Calls k st (walk_page_vma st vma).0) where
    take_vma-Walking :
        (st : WalkState S) (vma : Vma)
        → Ok st
        → Ok (take_vma k (kmalloc vma.vm_start) walk_page_vma start_stack st vma).0
    unfolding take_vma
    take_vma-Walking st vma w = after (add_snapshot_vma (kmalloc vma.vm_start) st.task vma).1
      where
        d : TaskData
        d = (add_snapshot_vma (kmalloc vma.vm_start) st.task vma).0

        w' : Walking k backing laws s₀ d st.space
        w' = add_snapshot_vma-Walking (kmalloc vma.vm_start) st.task st.space vma w

        after :
            (found : Option SnapshotVma)
            → Ok
                (elim found as (λ _. WalkState S × Bool) [
                  | none ↦ (record st { task = d }, false)
                  | some v ↦
                      if is_skipped d vma start_stack
                      then (record st { task = d }, true)
                      else walk_page_vma (record st { task = list_snapshotted d v }) vma
                ]).0
        after none = w'
        after (some v) = elim (Bool-cases (is_skipped d vma start_stack)) [
          | inl e ↦ rw e w'
          | inr e ↦ rw e (
              Calls-Walking _ (calls (record st { task = list_snapshotted d v }) vma)
                (list_snapshotted-Walking d st.space v w'))
        ]

    take_vmas-Walking :
        (st : WalkState S) (vmas : List Vma)
        → Ok st
        → Ok (take_vmas k kmalloc walk_page_vma start_stack st vmas).0
    unfolding take_vmas
    take_vmas-Walking st [] w = w
    take_vmas-Walking st (vma ∷ vmas) w =
        let now = take_vma k (kmalloc vma.vm_start) walk_page_vma start_stack st vma in
        let w' = take_vma-Walking st vma w in
        elim (Bool-cases now.1) [
          | inl e ↦ rw (e, take_vmas) (take_vmas-Walking now.0 vmas w')
          | inr e ↦ rw (e, take_vmas) w'
        ]

  -- A page of a finished walk, with the bytes `c` before it.
  Walked-PageOk :
      (s : S) (p : ℕ) (e : Option SnapshotPage)
      → ((k.pte_none (k.pte_at s₀ p) ≡ true) → k.content s₀ p ≡ backing p)
      → (e ≡ none → k.pte_none (k.pte_at s₀ p) ≡ true)
      → Walked p (view k s₀ p) (view k s p) e
      → PageOk (backing p) (k.content s₀ p) e (view k s p)
  Walked-PageOk s p e b a (inl (z, v)) =
      let plain = laws.absent_plain s₀ p (a z) in
      untouched z (b (a z)) (ap (λ x. x.anon) v ∙ plain.1) (ap (λ x. x.writable) v ∙ plain.0)
        (ap (λ x. x.bytes) v)
  Walked-PageOk s p e b a (inr (sp, z, t)) = by_kind t.kind
    where
      by_kind :
          ((is_snapshot_page_none_pte sp ≡ true)
              × (is_snapshot_page_private sp ≡ false)
              × (k.pte_none (k.pte_at s₀ p) ≡ true)
              × ((view k s p).anon ≡ false))
            ⊎ ((is_snapshot_page_none_pte sp ≡ false) × ((view k s p).absent ≡ false))
          → PageOk (backing p) (k.content s₀ p) e (view k s p)
      by_kind (inl (f, o, y, n)) = lazy sp z (b y) (record {
        flagged = f;
        not_private = o;
        not_dirty = t.fresh.1;
        filled = λ h. absurd (let u = t.fresh.2 in cc);
        idle = λ h. (n, t.protected, t.bytes);
      })
      by_kind (inr (f, y)) = saved sp z (record {
        plain = f;
        copied = λ h. absurd (let u = t.fresh.0 in cc);
        recorded = λ h. absurd (let u = t.fresh.1 in cc);
        clean = λ h. (y, t.protected, t.bytes);
      })

  Walked-Linked :
      (s : S) (p : ℕ) (e : Option SnapshotPage)
      → Walked p (view k s₀ p) (view k s p) e
      → Linked p e false
  Walked-Linked s p e (inl (z, v)) = record {
    unknown = λ _. refl;
    based = λ sp y. absurd (cc);
    flag = λ sp y. absurd (cc);
    data_kept = λ sp y. absurd (cc);
  }
  Walked-Linked s p e (inr (sp, z, t)) = record {
    unknown = λ _. refl;
    based = λ t' y. let x : sp ≡ t' = cc in let b = t.base in cc;
    flag = λ t' y. let x : sp ≡ t' = cc in let b = t.fresh.2 in cc;
    data_kept = λ t' y h. absurd (let x : sp ≡ t' = cc in let b = t.fresh.0 in cc);
  }

  Walking-Inv :
      (d : TaskData) (s : S)
      → ((p : ℕ) → k.pte_none (k.pte_at s₀ p) ≡ true → k.content s₀ p ≡ backing p)
      → Walking k backing laws s₀ d s
      → Inv k backing (promise_of k s₀ d) d s
  Walking-Inv d s b w = record {
    made = w.made;
    linked = λ p. rw w.unlisted (rw (elem-nil p) (Walked-Linked s p (d.ss.ss_pages p) (w.pages p)));
    pages = λ p c h. rw (promise_of-content k s₀ d p c h) (
        Walked-PageOk s p (d.ss.ss_pages p) (b p) (λ z. (promise_of-untouched k s₀ d p c h z).1)
          (w.pages p));
    reachable = λ p c h z. (promise_of-untouched k s₀ d p c h z).0;
  }

  -- Taking a snapshot sets the invariant up for the promise, whatever allocations fail, if the task has
  -- the flag of a snapshot and no page in its table or on its dirty list, if the walk does nothing but
  -- call the entries, if the bytes of a page without a PTE are those of its backing, and if the
  -- operations on the page table have their documented effect.
  pub take_memory_snapshot-Inv :
      (kmalloc : ℕ → Option SnapshotVma) (walk_page_vma : WalkState S → Vma → WalkState S × Bool)
      (start_stack : ℕ) (vmas : List Vma) (d : TaskData)
      → ((st : WalkState S) (vma : Vma) → Calls k st (walk_page_vma st vma).0)
      → have_snapshot d ≡ true
      → d.ss.dirty_pages ≡ []
      → ((p : ℕ) → d.ss.ss_pages p ≡ none)
      → ((p : ℕ) → k.pte_none (k.pte_at s₀ p) ≡ true → k.content s₀ p ≡ backing p)
      → let r = take_memory_snapshot k kmalloc walk_page_vma start_stack vmas d s₀ in
        Inv k backing (promise_of k s₀ r.0) r.0 r.1
  unfolding take_memory_snapshot
  take_memory_snapshot-Inv kmalloc walk_page_vma start_stack vmas d calls m l t b =
      Walking-Inv _ _ b (
        take_vmas-Walking kmalloc walk_page_vma start_stack calls
          (record { task = d; walk = walk_start; space = s₀ }) vmas
          (record { made = m; unlisted = l; pages = λ p. inl (t p, refl) }))
