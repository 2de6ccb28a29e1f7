-- ===== src/Snapshot/Take.antt =====
-- What `take_snapshot` of src/snapshot.c leaves in the task data, and what it returns.
use afl_snapshot_lkm.Base.{
  ℕ, ◌≡◌, refl, ◌==◌, true, false, if◌then◌else◌, none, some, ◌∙◌, ap, arith, subst, Bool-cases,
  Option-cases, inl, inr, has_flag, set_flag,
}
use afl_snapshot_lkm.Task.{
  TaskData, snapshot_made, snapshot_had, get_task_data, ensure_task_data, have_snapshot,
  had_snapshot,
}
use afl_snapshot_lkm.Task.Listed.{put_task_data, put_current, put_other, get_task_data-tsk}
use afl_snapshot_lkm.Memory.{ran, oops}
use afl_snapshot_lkm.Memory.Take.{Vma, WalkState}
use afl_snapshot_lkm.Memory.Take.Establish.{Calls}
use afl_snapshot_lkm.Snapshot.{World, Kernel, Chances, take_snapshot}
use afl_snapshot_lkm.Snapshot.Taken.{
  ensured, ensured_status, ensured_other, ensure_known, made_flag, had_flag, taken, taken-basics,
  take_known, take_new, take_null,
}

module _ {K S P T : Type 0} (k : Kernel K S P T) where
  -- `take_snapshot` with the task data `d`, which is found or allocated, ends and returns 1 if that has
  -- no snapshot and 0 if it has one. Afterwards the running task has a snapshot, and the data of every
  -- other task is as it was. A new snapshot has the configuration asked for, the registers and the break
  -- of the process, and both flags; the allowlist and the blocklist stay. The condition: the walk over a
  -- region does nothing but call the entries.
  pub take_snapshot-made :
      (c : Chances S) (w : World K S T) (current config : ℕ) (d : TaskData)
      → ((st : WalkState S) (vma : Vma) → Calls k.mmu st (c.walk_page_vma st vma).0)
      → (ensure_task_data c.data_memory w.tasks current).1 ≡ some d
      → (w' : World K S T) × (d' : TaskData) × (take_snapshot k c w current config
          ≡ ran (w', if have_snapshot d then 0 else 1))
        × (get_task_data w'.tasks current ≡ some d')
        × (have_snapshot d' ≡ true)
        × ((q : ℕ) → (current == q) ≡ false → get_task_data w'.tasks q ≡ get_task_data w.tasks q)
        × (have_snapshot d ≡ false
            → (had_snapshot d' ≡ true)
              × (d'.config ≡ config)
              × (d'.ss.regs ≡ w.regs)
              × (d'.ss.oldbrk ≡ k.mm.brk (d, w.space))
              × (d'.allowlist ≡ d.allowlist)
              × (d'.blocklist ≡ d.blocklist))
  take_snapshot-made c w current config d calls e = elim (Bool-cases (have_snapshot d)) [
    | inl h ↦
        let same = ensured_status c.data_memory w.tasks current d e h in
        (
          w,
          d,
          take_known k c w current config d e h ∙ rw h refl,
          subst (λ ds. get_task_data ds current ≡ some d) same
              (ensured c.data_memory w.tasks current d e),
          h,
          λ q z. refl,
          λ z. absurd (cc),
        )
    | inr h ↦
        let d' = (taken k c w current config d).0 in
        let kept = taken-basics k c w current config d calls in
        let found = ensured c.data_memory w.tasks current d e in
        let own : d'.tsk ≡ current = ap (λ x. x.0) kept ∙ get_task_data-tsk _ current d found in
        (
          record (taken k c w current config d).1 {
            tasks = put_task_data (ensure_task_data c.data_memory w.tasks current).0 d';
          },
          d',
          take_new k c w current config d e h ∙ rw h refl,
          put_current _ current d d' found own,
          ap (λ x. has_flag snapshot_made x.2) kept ∙ made_flag (set_flag snapshot_had d.ss.status),
          λ q z. put_other _ current q d' own z ∙ ensured_other c.data_memory w.tasks current q z,
          λ z. (
            ap (λ x. has_flag snapshot_had x.2) kept ∙ had_flag d.ss.status,
            ap (λ x. x.1) kept,
            ap (λ x. x.4) kept,
            ap (λ x. x.3) kept,
            ap (λ x. x.5) kept,
            ap (λ x. x.6) kept,
          ),
        )
  ]

  -- Once `take_snapshot` has returned, the next call of the same task returns 0 and changes nothing,
  -- whatever it asks for and whatever the allocations return. The condition: the walk over a region
  -- does nothing but call the entries.
  pub take_snapshot-twice :
      (c c' : Chances S) (w w' : World K S T) (current config config' res : ℕ)
      → ((st : WalkState S) (vma : Vma) → Calls k.mmu st (c.walk_page_vma st vma).0)
      → take_snapshot k c w current config ≡ ran (w', res)
      → take_snapshot k c' w' current config' ≡ ran (w', 0)
  take_snapshot-twice c c' w w' current config config' res calls r =
      elim (Option-cases (ensure_task_data c.data_memory w.tasks current).1) [
        | inl e ↦ absurd (let z = take_null k c w current config e in cc)
        | inr (d, e) ↦
            let m = take_snapshot-made c w current config d calls e in
            let same : m.0 ≡ w' = let z = m.2 in cc in
            let found = subst (λ x. get_task_data x.tasks current ≡ some m.1) same m.3 in
            take_known k c' w' current config' m.1
              (ensure_known c'.data_memory w'.tasks current m.1 found) m.4
      ]

  -- `take_snapshot` uses a null pointer exactly if the task has no data and none can be allocated. The
  -- condition: the walk over a region does nothing but call the entries.
  pub take_snapshot-oops :
      (c : Chances S) (w : World K S T) (current config : ℕ)
      → ((st : WalkState S) (vma : Vma) → Calls k.mmu st (c.walk_page_vma st vma).0)
      → (take_snapshot k c w current config ≡ oops
          → (get_task_data w.tasks current ≡ none) × (c.data_memory ≡ false))
        × ((get_task_data w.tasks current ≡ none) × (c.data_memory ≡ false)
            → take_snapshot k c w current config ≡ oops)
  unfolding ensure_task_data
  take_snapshot-oops c w current config calls = (
    λ o. elim (Option-cases (ensure_task_data c.data_memory w.tasks current).1) [
      | inl e ↦ ground (arith, e)
      | inr (d, e) ↦ absurd (let m = (take_snapshot-made c w current config d calls e).2 in cc)
    ],
    λ h. take_null k c w current config (ground (arith, h.0, h.1)),
  )
