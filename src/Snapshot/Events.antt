-- ===== src/Snapshot/Events.antt =====
-- What `restore_brk` and `restore_vmas` of src/memory.c do to the memory of a process is among the events
-- of a run.
use afl_snapshot_lkm.Base.{
  by_if, ℕ, zero, suc, ◌+◌, ◌-◌, ◌%◌, ◌^◌, ◌≡◌, refl, ◌==◌, ◌&&◌, leb, not, Bool, true, false,
  Option, some, List, [], ◌∷◌, ◌∙◌, sym, arith, subst, Bool-cases, inl, inr, ◌⊎◌,
}
use afl_snapshot_lkm.Page.{page_size}
use afl_snapshot_lkm.Task.{TaskData, SnapshotVma}
use afl_snapshot_lkm.Mmu.{Mmu}
use afl_snapshot_lkm.Brk.{MmOps, restore_brk, page_align, is_below, end_brk}
use afl_snapshot_lkm.Regions.{
  VmaOps, Sweep, Verdict, goes_on, returns, fix_interval, map_missing, next_cursor, advance, sweep,
  restore_vmas, is_null, is_nil,
}
use afl_snapshot_lkm.Memory.Session.{Reach, here}
use afl_snapshot_lkm.Memory.Session.Kept.{Reach-then}

module _ {S P : Type 0} (k : Mmu S P) where
  -- The second state of a process comes from the first one by events of a run.
  abbrev pub Runs : TaskData × S → TaskData × S → Type 0
  Runs m m' = Reach k m.0 m.1 m'.0 m'.1

  -- The kernel's functions on the memory do nothing else to the pages, and with them the hooks that
  -- they call nothing else to the task data.
  pub record MmEvents (o : MmOps (TaskData × S)) : Type 0 where
    pub set_brk-Runs : (m : TaskData × S) (a : ℕ) → Runs m (o.set_brk m a)
    pub vm_munmap-Runs : (m : TaskData × S) (a n : ℕ) → Runs m (o.vm_munmap m a n).0
    pub vm_brk-Runs : (m : TaskData × S) (a n : ℕ) → Runs m (o.vm_brk m a n).0

  pub record VmaEvents (o : VmaOps (TaskData × S)) : Type 0 where
    pub vm_munmap-Runs : (m : TaskData × S) (a n : ℕ) → Runs m (o.vm_munmap m a n).0
    pub vm_mmap-Runs : (m : TaskData × S) (a n prot : ℕ) → Runs m (o.vm_mmap m a n prot).0

  module _ (o : MmOps (TaskData × S)) (events : MmEvents o) where
    end_brk-Runs :
        (m : TaskData × S) (r : (TaskData × S) × Bool) (a : ℕ)
        → Runs m r.0
        → Runs m (end_brk o r a).0
    end_brk-Runs m r a e =
        by_if {A = (TaskData × S) × Bool} (λ x. Runs m x.0) r.1 (o.set_brk r.0 a, true) (r.0, false)
          (Reach-then k e (events.set_brk-Runs r.0 a)) e

    pub restore_brk-Runs : (m : TaskData × S) (a : ℕ) → Runs m (restore_brk o m a).0
    unfolding restore_brk
    restore_brk-Runs m a =
        let F : (TaskData × S) × Bool → Type 0 = λ x. Runs m x.0 in
        by_if F (page_align (o.brk m) == page_align a) _ _ (events.set_brk-Runs m a) (
          by_if F (leb a (o.brk m)) _ _ (end_brk-Runs m _ a (events.vm_munmap-Runs m _ _)) (
            by_if F (is_below ((a + page_size) % 2 ^ 64) (o.find_vma m (o.brk m))) _ _ here
              (end_brk-Runs m _ a (events.vm_brk-Runs m _ _))))

  module _ (o : VmaOps (TaskData × S)) (events : VmaEvents o) where
    map_missing-Runs :
        (m : TaskData × S) (ss : List SnapshotVma) (a b : ℕ) → Runs m (map_missing o m ss a b).0
    map_missing-Runs m [] a b = here
    map_missing-Runs m (r ∷ rs) a b =
        by_if {A = (TaskData × S) × Verdict} (λ x. Runs m x.0) r.is_anonymous_private _ _
          (events.vm_mmap-Runs m a (b - a) r.prot) here

    fix_interval-Runs : (w : Sweep (TaskData × S)) (b : ℕ) → Runs w.mm (fix_interval o w b).0
    unfolding fix_interval
    fix_interval-Runs w b =
        let F : (TaskData × S) × Verdict → Type 0 = λ x. Runs w.mm x.0 in
        by_if F (not (b == w.cursor) && w.in_vmas && not w.in_ss_vmas) _ _
          (events.vm_munmap-Runs w.mm w.cursor (b - w.cursor))
          (by_if F (not (b == w.cursor) && not w.in_vmas && w.in_ss_vmas) _ _
            (map_missing-Runs w.mm w.ss_vmas w.cursor b) here)

    -- What becomes of the loop after a round.
    by_verdict :
        (v : Verdict) (m n : TaskData × S) (res : ℕ) (rest : Option ((TaskData × S) × ℕ))
        → elim v [ goes_on ↦ rest | returns z ↦ some (n, z) ] ≡ some (m, res)
        → (n ≡ m) ⊎ (rest ≡ some (m, res))
    by_verdict goes_on m n res rest e = inr e
    by_verdict (returns z) m n res rest e = inl (cc)

    sweep_round :
        (fuel : ℕ) (w : Sweep (TaskData × S)) (m : TaskData × S) (res : ℕ)
        → sweep o (suc fuel) w ≡ some (m, res)
        → (w.mm ≡ m)
          ⊎ ((fix_interval o w (next_cursor o w)).0 ≡ m)
          ⊎ (sweep o fuel (advance o w (next_cursor o w) (fix_interval o w (next_cursor o w)).0)
              ≡ some (m, res))
    unfolding sweep
    sweep_round fuel w m res e =
        let fixed = fix_interval o w (next_cursor o w) in
        let rest = sweep o fuel (advance o w (next_cursor o w) fixed.0) in
        elim (Bool-cases (is_null w.vma_iter && is_nil w.ss_vmas)) [
          | inl z ↦ inl (ground (arith, e, z))
          | inr z ↦ inr (by_verdict fixed.1 m fixed.0 res rest (sym (rw (sweep, z) refl) ∙ e))
        ]

    -- The loop, in whichever state it ends.
    sweep-Runs :
        (fuel : ℕ) (w : Sweep (TaskData × S)) (m : TaskData × S) (res : ℕ)
        → sweep o fuel w ≡ some (m, res)
        → Runs w.mm m
    unfolding sweep advance
    sweep-Runs zero w m res e = absurd (cc)
    sweep-Runs (suc fuel) w m res e =
        let fixed = fix_interval o w (next_cursor o w) in
        let first = fix_interval-Runs w (next_cursor o w) in
        elim (sweep_round fuel w m res e) [
          | inl z ↦ subst (Runs w.mm) z here
          | inr z ↦ elim z [
            | inl y ↦ subst (Runs w.mm) y first
            | inr y ↦
                Reach-then k first (sweep-Runs fuel (advance o w (next_cursor o w) fixed.0) m res y)
          ]
        ]

    pub restore_vmas-Runs :
        (fuel : ℕ) (ss : List SnapshotVma) (m m' : TaskData × S) (res : ℕ)
        → restore_vmas o fuel ss m ≡ some (m', res)
        → Runs m m'
    unfolding restore_vmas
    restore_vmas-Runs fuel ss m m' res e = sweep-Runs fuel _ m' res e
