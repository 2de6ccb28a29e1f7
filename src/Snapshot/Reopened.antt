-- ===== src/Snapshot/Reopened.antt =====
-- The open files from `take_snapshot` to `recover_snapshot`, src/snapshot.c.
use afl_snapshot_lkm.Base.{
  ℕ, ◌<◌, ◌≡◌, refl, Bool, true, false, Option, some, List, ◌∙◌, sym, ap, has_flag, length,
}
use afl_snapshot_lkm.Task.{TaskData, get_task_data, ensure_task_data, have_snapshot}
use afl_snapshot_lkm.Ranges.{afl_snapshot_fds}
use afl_snapshot_lkm.Files.{
  ℤ, pos, FilesState, FileOps, take_files_snapshot, recover_files_snapshot,
}
use afl_snapshot_lkm.Files.Seek.{SeekLaws, Once, Presented}
use afl_snapshot_lkm.Files.Offsets.{files_restored}
use afl_snapshot_lkm.Threads.Killed.{ThreadLaws, Follow, recover_threads_snapshot-kills}
use afl_snapshot_lkm.Memory.{ran}
use afl_snapshot_lkm.Memory.Recover.{recover_dirty}
use afl_snapshot_lkm.Memory.Session.{Reach}
use afl_snapshot_lkm.Memory.Session.Kept.{Reach-Kept, recover_dirty-Kept}
use afl_snapshot_lkm.Memory.Take.{Vma, WalkState}
use afl_snapshot_lkm.Memory.Take.Establish.{Calls}
use afl_snapshot_lkm.Memory.Take.Kept.{settings, take_memory_snapshot-Kept}
use afl_snapshot_lkm.Snapshot.{
  World, Kernel, Chances, take_parts, take_snapshot, restore_regions, recover_snapshot,
}
use afl_snapshot_lkm.Snapshot.Taken.{taken, new_found}
use afl_snapshot_lkm.Snapshot.Events.{MmEvents, VmaEvents}
use afl_snapshot_lkm.Snapshot.Recover.{after_brk, restored, recover_ends, before_pages-Runs}
use afl_snapshot_lkm.Snapshot.Whole.{memory_taken}

-- `recover_files_snapshot` reads the configuration and the two pointers only.
recover_files-settings :
    {K : Type 0} (o : FileOps K) (d e : TaskData) (s : FilesState K) (current : ℕ)
    → settings e ≡ settings d
    → recover_files_snapshot o e s current ≡ recover_files_snapshot o d s current
unfolding recover_files_snapshot
recover_files-settings o d e s current h = λ i.
    recover_files_snapshot o
      (record e { config = (h i).0.1; ss = record (e.ss) { ss_files = (h i).1 } }) s current

module _ {K S P T : Type 0} (k : Kernel K S P T) where
  -- The files' part of a new snapshot in the data `d`.
  abbrev pub files_taken : Chances S → World K S T → ℕ → ℕ → TaskData → TaskData × FilesState K × ℕ
  files_taken c w current config d =
      take_files_snapshot k.file c.array_memory (memory_taken k c w config d).0 w.files current

  taken_files :
      (c : Chances S) (w : World K S T) (current config : ℕ) (d : TaskData)
      → ((taken k c w current config d).0 ≡ (files_taken c w current config d).0)
        × ((taken k c w current config d).1.files ≡ (files_taken c w current config d).1)
  unfolding take_parts
  taken_files c w current config d = (refl, refl)

  module _ (c : Chances S)
      (calls : (st : WalkState S) (vma : Vma) → Calls k.mmu st (c.walk_page_vma st vma).0)
      (mm : MmEvents k.mmu k.mm) (vma : VmaEvents k.mmu k.vma) (killed : T → ℕ → Bool)
      (refs : T → ℕ → ℕ) (threads : ThreadLaws k.thread killed refs) (at : K → ℕ → ℤ)
      (seeks : SeekLaws k.file at) where
    -- The configuration of the data that the files are saved in.
    taken_config :
        (w : World K S T) (config : ℕ) (d : TaskData)
        → (memory_taken k c w config d).0.config ≡ config
    taken_config w config d =
        ap (λ x. x.0.1)
          (take_memory_snapshot-Kept k.mmu c.vma_memory c.walk_page_vma c.start_stack calls c.vmas _
            w.space)

    -- The open files are put back with the process: a new snapshot is taken, the process runs, with
    -- the events of `Reach` for its memory, in which every allocation succeeds, and its files and
    -- threads change in any way that leaves the saved table and the array of its offsets. If the
    -- restore of the regions, when it is asked for, ends and returns 0, `recover_snapshot` ends and
    -- returns 0, and if its part for the files succeeds, each file that was open and had a position
    -- has it again. The conditions are those of `files_restored` for the files, and of
    -- `recover_snapshot-restores` for the threads and the kernel's functions.
    pub take_recover-files :
        (w w₀ w₁ : World K S T) (current config res fuel : ℕ) (d d₀ d₁ : TaskData) (ts : List ℕ)
        (m' : TaskData × S) (array copy copied fd file n : ℕ)
        → (ensure_task_data c.data_memory w.tasks current).1 ≡ some d
        → have_snapshot d ≡ false
        → take_snapshot k c w current config ≡ ran (w₀, res)
        → get_task_data w₀.tasks current ≡ some d₀
        → Reach k.mmu d₀ w₀.space d₁ w₁.space
        → get_task_data w₁.tasks current ≡ some d₁
        → Follow k.thread w₁.threads (k.thread.group_leader w₁.threads d₁.tsk) ts
        → length ts < fuel
        → restore_regions k fuel (after_brk k w₁ d₁).0 (after_brk k w₁ d₁).1 ≡ some (m', 0)
        → has_flag afl_snapshot_fds config ≡ true
        → c.array_memory ≡ some array
        → (k.file.dup_fd w.files.kernel (k.file.files_of w.files.kernel current)).1 ≡ some copy
        → let saved =
            k.file.iterate_fd
              (k.file.dup_fd w.files.kernel (k.file.files_of w.files.kernel current)).0
              copy in
          Once saved
          → w₁.files.arrays array ≡ w₀.files.arrays array
          → (k.file.dup_fd w₁.files.kernel copy).1 ≡ some copied
          → k.file.iterate_fd (k.file.dup_fd w₁.files.kernel copy).0 copied ≡ saved
          → (recover_files_snapshot k.file d₁ w₁.files current).1 ≡ 0
          → Presented fd file saved
          → at w.files.kernel file ≡ pos n
          → (w₂ : World K S T) × (recover_snapshot k fuel w₁ current ≡ some (w₂, 0))
            × (at w₂.files.kernel file ≡ pos n)
    take_recover-files w w₀ w₁ current config res fuel d d₀ d₁ ts m' array copy copied fd file n e h
          r g reach g₁ f l s flag mem dup once same dup' again zero there position =
        let t =
          recover_threads_snapshot-kills k.thread killed refs threads fuel w₁.threads d₁.tsk ts f
            l in
        let back = recover_dirty k.mmu m'.0 m'.1 in
        let found = new_found k c calls w w₀ current config res d d₀ e h r g in
        let save : Option ℕ → TaskData × FilesState K × ℕ =
          λ x. take_files_snapshot k.file x (memory_taken k c w config d).0 w.files current in
        let parts = taken_files c w current config d in
        let fields = sym found.0 ∙ parts.0 ∙ ap (λ x. (save x).0) mem in
        let files = sym found.2 ∙ parts.1 ∙ ap (λ x. (save x).1) mem in
        let ran_on = Reach-Kept k.mmu d₀ w₀.space reach ∙ ap settings fields in
        let restored_on =
          recover_dirty-Kept k.mmu m'.0 m'.1
          ∙ Reach-Kept k.mmu d₁ w₁.space (before_pages-Runs k mm vma fuel w₁ d₁ m' s)
          ∙ ran_on in
        let read = λ (x : TaskData) (y : settings x ≡ settings (save (some array)).0).
          recover_files-settings k.file (save (some array)).0 x w₁.files current y in
        (
          restored k w₁ current d₁ t.0 back,
          recover_ends k fuel w₁ current d₁ t.0 m' g₁ t.1 s,
          ap (λ x. at x.0.kernel file) (read back.0 restored_on)
              ∙ files_restored k.file at seeks (memory_taken k c w config d).0 w.files w₁.files
                  current array copy copied fd file n
                  (ap (has_flag afl_snapshot_fds) (taken_config w config d) ∙ flag) dup once
                  (same ∙ ap (λ x. x.arrays array) files) dup' again
                  (sym (ap (λ x. x.1) (read d₁ ran_on)) ∙ zero) there position,
        )
