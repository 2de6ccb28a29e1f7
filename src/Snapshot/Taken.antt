-- ===== src/Snapshot/Taken.antt =====
-- The ways through `take_snapshot` of src/snapshot.c.
use afl_snapshot_lkm.Base.{
  ℕ, ◌≡◌, refl, ◌==◌, Bool, true, false, Option, none, some, some-injective, List, ◌∙◌, sym, ap,
  arith, has_flag, set_flag, eq_refl,
}
use afl_snapshot_lkm.Task.{
  TaskData, snapshot_made, snapshot_had, get_task_data, ensure_task_data, fresh_task_data,
  have_snapshot,
}
use afl_snapshot_lkm.Task.Listed.{
  put_task_data, put_current, get-ensure, get_task_data-tsk, get_task_data-cons,
}
use afl_snapshot_lkm.Files.{take_files_snapshot}
use afl_snapshot_lkm.Memory.{Run, ran, oops}
use afl_snapshot_lkm.Memory.Take.{Vma, WalkState}
use afl_snapshot_lkm.Memory.Take.Establish.{Calls}
use afl_snapshot_lkm.Memory.Take.Kept.{basics, take_memory_snapshot-Kept}
use afl_snapshot_lkm.Snapshot.{
  World, Kernel, Chances, initialize_snapshot, take_parts, take_snapshot,
}

-- A task data that is ensured is in the list.
pub ensured :
    (alloc : Bool) (ds : List TaskData) (t : ℕ) (d : TaskData)
    → (ensure_task_data alloc ds t).1 ≡ some d
    → get_task_data (ensure_task_data alloc ds t).0 t ≡ some d
unfolding ensure_task_data
ensured alloc ds t d h =
    let e = get_task_data-cons (fresh_task_data t) ds t in ground (arith, eq_refl t)

-- Data that is found is the data that was there, or new.
pub ensured_status :
    (alloc : Bool) (ds : List TaskData) (t : ℕ) (d : TaskData)
    → (ensure_task_data alloc ds t).1 ≡ some d
    → have_snapshot d ≡ true
    → (ensure_task_data alloc ds t).0 ≡ ds
unfolding ensure_task_data
ensured_status alloc ds t d h m = ground arith

pub made_flag : (x : ℕ) → has_flag snapshot_made (set_flag snapshot_made x) ≡ true
made_flag x = ground arith

pub had_flag :
    (x : ℕ) → has_flag snapshot_had (set_flag snapshot_made (set_flag snapshot_had x)) ≡ true
had_flag x = ground arith

pub ensure_known :
    (alloc : Bool) (ds : List TaskData) (t : ℕ) (d : TaskData)
    → get_task_data ds t ≡ some d
    → (ensure_task_data alloc ds t).1 ≡ some d
unfolding ensure_task_data
ensure_known alloc ds t d h = rw (ensure_task_data, h) refl

pub ensured_other :
    (alloc : Bool) (ds : List TaskData) (current q : ℕ)
    → (current == q) ≡ false
    → get_task_data (ensure_task_data alloc ds current).0 q ≡ get_task_data ds q
ensured_other alloc ds current q z = get-ensure alloc ds current q ∙ rw z refl

module _ {K S P T : Type 0} (k : Kernel K S P T) where
  take_files-basics :
      (array : Option ℕ) (d : TaskData) (w : World K S T) (current : ℕ)
      → basics (take_files_snapshot k.file array d w.files current).0 ≡ basics d
  unfolding take_files_snapshot
  take_files-basics array d w current = ground arith

  -- The data once the parts of the snapshot have been taken.
  abbrev pub taken : Chances S → World K S T → ℕ → ℕ → TaskData → TaskData × World K S T
  taken c w current config d =
      take_parts k c (record w { tasks = (ensure_task_data c.data_memory w.tasks current).0 })
        current (initialize_snapshot d config w.regs (k.mm.brk (d, w.space)))

  pub taken-basics :
      (c : Chances S) (w : World K S T) (current config : ℕ) (d : TaskData)
      → ((st : WalkState S) (vma : Vma) → Calls k.mmu st (c.walk_page_vma st vma).0)
      → basics (taken c w current config d).0
        ≡ basics (initialize_snapshot d config w.regs (k.mm.brk (d, w.space)))
  unfolding take_parts
  taken-basics c w current config d calls =
      let w' : World K S T = record w {
        tasks = (ensure_task_data c.data_memory w.tasks current).0;
      } in
      take_files-basics c.array_memory _ w' current
      ∙ ap (λ x. x.0)
          (take_memory_snapshot-Kept k.mmu c.vma_memory c.walk_page_vma c.start_stack calls c.vmas _
            w.space)

  -- The two ways through `take_snapshot` with a task data.
  pub take_known :
      (c : Chances S) (w : World K S T) (current config : ℕ) (d : TaskData)
      → (ensure_task_data c.data_memory w.tasks current).1 ≡ some d
      → have_snapshot d ≡ true
      → take_snapshot k c w current config ≡ ran (w, 0)
  unfolding take_snapshot
  take_known c w current config d e h =
      let same = ensured_status c.data_memory w.tasks current d e h in
      rw (take_snapshot, e)
        (rw (take_snapshot, h) (ap (λ ds. ran (record w { tasks = ds }, 0)) same))

  pub take_new :
      (c : Chances S) (w : World K S T) (current config : ℕ) (d : TaskData)
      → (ensure_task_data c.data_memory w.tasks current).1 ≡ some d
      → have_snapshot d ≡ false
      → take_snapshot k c w current config
        ≡ ran (
          record (taken c w current config d).1 {
            tasks =
                put_task_data
                  (ensure_task_data c.data_memory w.tasks current).0
                  (taken c w current config d).0;
          },
          1,
        )
  unfolding take_snapshot
  take_new c w current config d e h = rw (take_snapshot, e) (rw (take_snapshot, h) refl)

  pub take_null :
      (c : Chances S) (w : World K S T) (current config : ℕ)
      → (ensure_task_data c.data_memory w.tasks current).1 ≡ none
      → take_snapshot k c w current config ≡ oops
  unfolding take_snapshot
  take_null c w current config e = rw (take_snapshot, e) refl

  -- A new snapshot, found in the list.
  pub new_found :
      (c : Chances S)
      → ((st : WalkState S) (vma : Vma) → Calls k.mmu st (c.walk_page_vma st vma).0)
      → (w w₀ : World K S T) (current config res : ℕ) (d d₀ : TaskData)
      → (ensure_task_data c.data_memory w.tasks current).1 ≡ some d
      → have_snapshot d ≡ false
      → take_snapshot k c w current config ≡ ran (w₀, res)
      → get_task_data w₀.tasks current ≡ some d₀
      → let t = taken c w current config d in
        (t.0 ≡ d₀) × (t.1.space ≡ w₀.space) × (t.1.files ≡ w₀.files)
  new_found c calls w w₀ current config res d d₀ e h r g =
      let t = taken c w current config d in
      let own : t.0.tsk ≡ current =
        ap (λ x. x.0) (taken-basics c w current config d calls)
        ∙ get_task_data-tsk _ current d (ensured c.data_memory w.tasks current d e) in
      let same = sym (take_new c w current config d e h) ∙ r in
      let found = put_current _ current d t.0 (ensured c.data_memory w.tasks current d e) own in
      let lists = ap (λ x. get_task_data (world_of w x).tasks current) same in
      (
        some-injective _ _ (sym found ∙ lists ∙ g),
        ap (λ x. (world_of w x).space) same,
        ap (λ x. (world_of w x).files) same,
      )
    where
      world_of : World K S T → Run (World K S T × ℕ) → World K S T
      world_of w oops = w
      world_of w (ran x) = x.0
