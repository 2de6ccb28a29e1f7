-- ===== src/Snapshot/Recover.antt =====
-- A restore of the whole process: `recover_snapshot` of src/snapshot.c.
use afl_snapshot_lkm.Base.{
  ℕ, ◌≡◌, refl, if◌then◌else◌, some, ◌∙◌, sym, subst, Bool-cases, inl, inr, has_flag,
}
use afl_snapshot_lkm.Task.{TaskData, get_task_data}
use afl_snapshot_lkm.Task.Listed.{put_task_data}
use afl_snapshot_lkm.Ranges.{afl_snapshot_regs, afl_snapshot_mmap}
use afl_snapshot_lkm.Brk.{restore_brk}
use afl_snapshot_lkm.Threads.{recover_threads_snapshot}
use afl_snapshot_lkm.Memory.Recover.{recover_dirty}
use afl_snapshot_lkm.Memory.Session.{here}
use afl_snapshot_lkm.Memory.Session.Kept.{Reach-then}
use afl_snapshot_lkm.Memory.Take.Kept.{Kept}
use afl_snapshot_lkm.Files.{recover_files_snapshot}
use afl_snapshot_lkm.Snapshot.{
  World, Kernel, restore_regions, recover_memory_snapshot, recover_state, restore_snapshot,
  recover_snapshot,
}
use afl_snapshot_lkm.Snapshot.Events.{
  MmEvents, VmaEvents, Runs, restore_brk-Runs, restore_vmas-Runs,
}

module _ {K S P T : Type 0} (k : Kernel K S P T) where
  -- The task data and the memory after `restore_brk`.
  abbrev pub after_brk : World K S T → TaskData → TaskData × S
  after_brk w d = (restore_brk k.mm (d, w.space) d.ss.oldbrk).0

  restored_memory :
      (fuel : ℕ) (m m' : TaskData × S)
      → restore_regions k fuel m.0 m.1 ≡ some (m', 0)
      → let r = recover_dirty k.mmu m'.0 m'.1 in
        recover_memory_snapshot k fuel m.0 m.1 ≡ some (r.0, r.1, 0)
  unfolding recover_memory_snapshot
  restored_memory fuel m m' e = rw (recover_memory_snapshot, e) refl

  -- The state that a restore ends in.
  abbrev pub restored : World K S T → ℕ → TaskData → T → TaskData × S → World K S T
  restored w current d threads r = record w {
    tasks = put_task_data w.tasks r.0;
    files = (recover_files_snapshot k.file r.0 w.files current).0;
    space = r.1;
    threads = threads;
    regs = if has_flag afl_snapshot_regs d.config then d.ss.regs else w.regs;
  }

  pub recover_ends :
      (fuel : ℕ) (w : World K S T) (current : ℕ) (d : TaskData) (threads : T) (m' : TaskData × S)
      → get_task_data w.tasks current ≡ some d
      → recover_threads_snapshot k.thread fuel w.threads d.tsk ≡ some threads
      → restore_regions k fuel (after_brk w d).0 (after_brk w d).1 ≡ some (m', 0)
      → recover_snapshot k fuel w current
        ≡ some (restored w current d threads (recover_dirty k.mmu m'.0 m'.1), 0)
  unfolding recover_snapshot restore_snapshot recover_state
  recover_ends fuel w current d threads m' h t e =
      rw (recover_snapshot, h)
        (rw (restore_snapshot, t)
          (rw (restore_snapshot, restored_memory fuel (after_brk w d) m' e) refl))

  module _ (mm : MmEvents k.mmu k.mm) (vma : VmaEvents k.mmu k.vma) where
    regions-Runs :
        (fuel : ℕ) (m m' : TaskData × S)
        → restore_regions k fuel m.0 m.1 ≡ some (m', 0)
        → Runs k.mmu m m'
    regions-Runs fuel m m' e = elim (Bool-cases (has_flag afl_snapshot_mmap m.0.config)) [
      | inl z ↦ restore_vmas-Runs k.mmu k.vma vma fuel m.0.ss.all_vmas m m' 0 (sym (rw z refl) ∙ e)
      | inr z ↦
          subst (Runs k.mmu m) (let y : some (m, 0) ≡ some (m', 0) = sym (rw z refl) ∙ e in cc) here
    ]

    -- What the memory goes through before its dirty pages are restored.
    pub before_pages-Runs :
        (fuel : ℕ) (w : World K S T) (d : TaskData) (m' : TaskData × S)
        → restore_regions k fuel (after_brk w d).0 (after_brk w d).1 ≡ some (m', 0)
        → Runs k.mmu (d, w.space) m'
    before_pages-Runs fuel w d m' e =
        Reach-then k.mmu (restore_brk-Runs k.mmu k.mm mm (d, w.space) d.ss.oldbrk)
          (regions-Runs fuel (after_brk w d) m' e)
