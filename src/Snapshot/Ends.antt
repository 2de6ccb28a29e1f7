-- ===== src/Snapshot/Ends.antt =====
-- `recover_snapshot` of src/snapshot.c ends: its two loops that follow the kernel's pointers do.
use afl_snapshot_lkm.Base.{
  ℕ, ◌+◌, ◌<◌, ◌≡◌, refl, ◌==◌, if◌then◌else◌, Bool, true, false, some, List, Bool-cases, inl, inr,
  has_flag, length,
}
use afl_snapshot_lkm.Task.{TaskData, get_task_data}
use afl_snapshot_lkm.Ranges.{afl_snapshot_mmap}
use afl_snapshot_lkm.Regions.Spans.{Span, inside, Ascend, positions}
use afl_snapshot_lkm.Regions.Space.{Chain, VmaLaws, spans, bridges_free}
use afl_snapshot_lkm.Regions.Interval.{MapsMissing}
use afl_snapshot_lkm.Regions.Exact.{restore_vmas-wanted}
use afl_snapshot_lkm.Threads.{recover_threads_snapshot}
use afl_snapshot_lkm.Threads.Killed.{ThreadLaws, Follow, recover_threads_snapshot-kills}
use afl_snapshot_lkm.Memory.Recover.{recover_dirty}
use afl_snapshot_lkm.Snapshot.{
  World, Kernel, restore_regions, recover_memory_snapshot, recover_state, restore_snapshot,
  recover_snapshot,
}
use afl_snapshot_lkm.Snapshot.Recover.{after_brk, restored}

module _ {K S P T : Type 0} (k : Kernel K S P T) where
  memory_ends :
      (fuel : ℕ) (m m' : TaskData × S) (res : ℕ)
      → restore_regions k fuel m.0 m.1 ≡ some (m', res)
      → (x : TaskData × S × ℕ) × (recover_memory_snapshot k fuel m.0 m.1 ≡ some x)
  unfolding recover_memory_snapshot
  memory_ends fuel m m' res e =
      let r = recover_dirty k.mmu m'.0 m'.1 in
      (if res == 0 then (r.0, r.1, 0) else (m'.0, m'.1, res), rw (recover_memory_snapshot, e) refl)

  all_ends :
      (fuel : ℕ) (w : World K S T) (current : ℕ) (d : TaskData) (threads : T) (x : TaskData × S × ℕ)
      → get_task_data w.tasks current ≡ some d
      → recover_threads_snapshot k.thread fuel w.threads d.tsk ≡ some threads
      → recover_memory_snapshot k fuel (after_brk k w d).0 (after_brk k w d).1 ≡ some x
      → (w' : World K S T) × (recover_snapshot k fuel w current ≡ some (w', 0))
  unfolding recover_snapshot restore_snapshot recover_state
  all_ends fuel w current d threads x h t e = (
    restored k w current d threads (x.0, x.1),
    rw (recover_snapshot, h) (rw (restore_snapshot, t) (rw (restore_snapshot, e) refl)),
  )

  module _ (killed : T → ℕ → Bool) (refs : T → ℕ → ℕ) (threads : ThreadLaws k.thread killed refs)
      (mapped : TaskData × S → ℕ → Bool) (laws : VmaLaws k.vma mapped) where
    regions_end :
        (fuel : ℕ) (m : TaskData × S) (vs : List Span)
        → MapsMissing k.vma mapped laws
        → Chain k.vma m (k.vma.mmap m) vs
        → Ascend 0 vs
        → Ascend 0 (spans m.0.ss.all_vmas)
        → bridges_free vs m.0.ss.all_vmas ≡ true
        → ((a : ℕ) → mapped m a ≡ inside vs a)
        → positions false vs + positions false (spans m.0.ss.all_vmas) < fuel
        → (m' : TaskData × S) × (res : ℕ) × (restore_regions k fuel m.0 m.1 ≡ some (m', res))
    regions_end fuel m vs mem c a b f g l =
        let r = restore_vmas-wanted k.vma mapped laws fuel m.0.ss.all_vmas m vs mem c a b f g l in
        elim (Bool-cases (has_flag afl_snapshot_mmap m.0.config)) [
          | inl z ↦ (r.0, r.1, rw z r.2)
          | inr z ↦ (m, 0, rw z refl)
        ]

    -- `recover_snapshot` ends and returns 0, also where restoring the break, the regions or the
    -- files returns an error, on fuel above the number of the other threads of the process and above
    -- twice the number of its regions, as they are once the break has been restored, and those of
    -- the snapshot. The conditions are those of `recover_threads_snapshot-kills` for the threads and
    -- of `restore_vmas-wanted` for the regions.
    pub recover_snapshot-ends :
        (fuel : ℕ) (w : World K S T) (current : ℕ) (d : TaskData) (ts : List ℕ) (vs : List Span)
        → get_task_data w.tasks current ≡ some d
        → Follow k.thread w.threads (k.thread.group_leader w.threads d.tsk) ts
        → length ts < fuel
        → let m = after_brk k w d in
          MapsMissing k.vma mapped laws
          → Chain k.vma m (k.vma.mmap m) vs
          → Ascend 0 vs
          → Ascend 0 (spans m.0.ss.all_vmas)
          → bridges_free vs m.0.ss.all_vmas ≡ true
          → ((a : ℕ) → mapped m a ≡ inside vs a)
          → positions false vs + positions false (spans m.0.ss.all_vmas) < fuel
          → (w' : World K S T) × (recover_snapshot k fuel w current ≡ some (w', 0))
    recover_snapshot-ends fuel w current d ts vs h f l mem c a b g e n =
        let t =
          recover_threads_snapshot-kills k.thread killed refs threads fuel w.threads d.tsk ts f l in
        let r = regions_end fuel (after_brk k w d) vs mem c a b g e n in
        let x = memory_ends fuel (after_brk k w d) r.0 r.1 r.2 in
        all_ends fuel w current d t.0 x.0 h t.1 x.1
