-- ===== src/System/Operations.antt =====
-- What the operations of src/snapshot.c do to the list of task data and to the caches.
use afl_snapshot_lkm.Base.{
  ℕ, ◌≡◌, refl, ◌==◌, true, false, if◌then◌else◌, none, some, some-injective, List, ◌∙◌, sym, ap,
  arith, subst, Bool-cases, Option-cases, inl, inr, has_flag, set_flag,
}
use afl_snapshot_lkm.Task.{
  TaskData, get_task_data, ensure_task_data, remove_task_data, have_snapshot, had_snapshot,
  clear_snapshot, snapshot_made, snapshot_had,
}
use afl_snapshot_lkm.Task.Listed.{put_task_data, get_task_data-tsk}
use afl_snapshot_lkm.Cache.{Cache, invalidate_task_data_cache}
use afl_snapshot_lkm.Ranges.{afl_snapshot_mmap}
use afl_snapshot_lkm.Threads.{recover_threads_snapshot}
use afl_snapshot_lkm.Cache.Coherent.{is_snapshotted}
use afl_snapshot_lkm.Memory.{ran}
use afl_snapshot_lkm.Memory.Recover.{recover_dirty}
use afl_snapshot_lkm.Memory.Take.{Vma, WalkState}
use afl_snapshot_lkm.Memory.Take.Establish.{Calls}
use afl_snapshot_lkm.Snapshot.{
  World, Kernel, Chances, take_parts, take_snapshot, restore_regions, recover_memory_snapshot,
  recover_state, restore_snapshot, recover_snapshot, exit_snapshot, do_exit_hook, clean_snapshot,
  cleaned_data, clean_memory_snapshot,
}
use afl_snapshot_lkm.Snapshot.Taken.{taken, taken-basics, take_known, take_new, take_null, ensured}
use afl_snapshot_lkm.Snapshot.Clean.{cleaned-tasks, cleaned-tsk}
use afl_snapshot_lkm.Snapshot.Recover.{after_brk, restored}
use afl_snapshot_lkm.Snapshot.Events.{MmEvents, VmaEvents, restore_brk-Runs, restore_vmas-Runs}
use afl_snapshot_lkm.Files.{clean_files_snapshot}
use afl_snapshot_lkm.Snapshot.Exit.{restores_on_exit, exit_snapshot-agrees}
use afl_snapshot_lkm.System.Lived.{
  Lived, Follows, Follows-Lived, Follows-refl, Follows-trans, Reach-Follows, recover_dirty-Follows,
}
use afl_snapshot_lkm.System.Tasks.{
  Consistent, ensure-Consistent, write-Consistent, take-Consistent, clean-Consistent,
}

made_status :
    (d : TaskData)
    → Lived d
    → have_snapshot d ≡ false
    → set_flag snapshot_made (set_flag snapshot_had d.ss.status) ≡ 3
made_status d (inl e) n = ap (λ x. set_flag snapshot_made (set_flag snapshot_had x.status)) e
made_status d (inr e) n =
    absurd (let z : have_snapshot d ≡ true = ap (has_flag snapshot_made) e in cc)

cleared : (d : TaskData) → have_snapshot (clear_snapshot d) ≡ false
cleared d = ground arith

-- The data is written with what hooks or a restore have made of it.
pub follow-Consistent :
    (ds : List TaskData) (c : Cache) (current : ℕ) (d d' : TaskData)
    → get_task_data ds current ≡ some d
    → Follows d d'
    → Consistent ds c
    → Consistent (put_task_data ds d') c
follow-Consistent ds c current d d' g f h =
    let own : d'.tsk ≡ current = f.tsk_same ∙ get_task_data-tsk ds current d g in
    let same : have_snapshot d' ≡ have_snapshot d = ap (has_flag snapshot_made) f.status_same in
    write-Consistent ds c d' (Follows-Lived d d' f (h.lived current d g))
      (λ e. ap (λ x. is_snapshotted (get_task_data ds x)) own ∙ ap is_snapshotted g ∙ sym same ∙ e)
      h

module _ {K S P T : Type 0} (k : Kernel K S P T) where
  abbrev pub Sane : World K S T → Type 0
  Sane w = Consistent w.tasks w.cache

  taken-cache :
      (c : Chances S) (w : World K S T) (current config : ℕ) (d : TaskData)
      → (taken k c w current config d).1.cache ≡ invalidate_task_data_cache w.cache d.tsk
  unfolding take_parts
  taken-cache c w current config d = refl

  pub take-Sane :
      (c : Chances S) (w w' : World K S T) (current config res : ℕ)
      → ((st : WalkState S) (vma : Vma) → Calls k.mmu st (c.walk_page_vma st vma).0)
      → take_snapshot k c w current config ≡ ran (w', res)
      → Sane w
      → Sane w'
  take-Sane c w w' current config res calls r h =
      let ds = ensure_task_data c.data_memory w.tasks current in
      elim (Option-cases ds.1) [
        | inl e ↦ absurd (let z = take_null k c w current config e in cc)
        | inr (d, e) ↦ elim (Bool-cases (have_snapshot d)) [
          | inl m ↦
              let same : w ≡ w' = let z = take_known k c w current config d e m in cc in
              subst Sane same h
          | inr m ↦
              let t = taken k c w current config d in
              let made = taken-basics k c w current config d calls in
              let z = ensure-Consistent c.data_memory w.tasks w.cache current h in
              let l = z.lived current d (ensured c.data_memory w.tasks current d e) in
              let after =
                take-Consistent ds.0 w.cache t.0 (inr (ap (λ x. x.2) made ∙ made_status d l m)) z in
              let same : record t.1 { tasks = put_task_data ds.0 t.0 } ≡ w' =
                let y = take_new k c w current config d e m in cc in
              subst Sane same (
                subst (Consistent (put_task_data ds.0 t.0))
                  (ap (invalidate_task_data_cache w.cache) (ap (λ x. x.0) made)
                    ∙ sym (taken-cache c w current config d))
                  after)
        ]
      ]

  pub clean-Sane : (w : World K S T) (current : ℕ) → Sane w → Sane (clean_snapshot k w current)
  unfolding clean_snapshot
  clean-Sane w current h = elim (Option-cases (get_task_data w.tasks current)) [
    | inl g ↦ rw (clean_snapshot, g) h
    | inr (d, g) ↦
        let r = cleaned-tasks k w current d g in
        let c = cleaned_data k w d in
        let after =
          clean-Consistent w.tasks w.cache c
            (cleared (clean_files_snapshot k.file (clean_memory_snapshot w.cache d).1 w.files).0)
            h in
        subst (λ x. Consistent x (clean_snapshot k w current).cache) (sym r.0)
          (subst (Consistent (remove_task_data (put_task_data w.tasks c) c))
            (ap (invalidate_task_data_cache w.cache) (cleaned-tsk k w d) ∙ sym r.1) after)
  ]

  pub do_exit-Sane : (w : World K S T) (current : ℕ) → Sane w → Sane (do_exit_hook k w current)
  unfolding do_exit_hook
  do_exit-Sane w current h = elim (Option-cases (get_task_data w.tasks current)) [
    | inl g ↦ rw (do_exit_hook, g) h
    | inr (d, g) ↦ elim (Bool-cases (had_snapshot d)) [
      | inl e ↦ rw (do_exit_hook, g, e) (clean-Sane w current h)
      | inr e ↦ rw (do_exit_hook, g, e) h
    ]
  ]

  module _ (mm : MmEvents k.mmu k.mm) (vma : VmaEvents k.mmu k.vma) where
    regions-Follows :
        (fuel : ℕ) (m m' : TaskData × S) (res : ℕ)
        → restore_regions k fuel m.0 m.1 ≡ some (m', res)
        → Follows m.0 m'.0
    regions-Follows fuel m m' res e = elim (Bool-cases (has_flag afl_snapshot_mmap m.0.config)) [
      | inl z ↦
          Reach-Follows k.mmu m.0 m.1
            (restore_vmas-Runs k.mmu k.vma vma fuel m.0.ss.all_vmas m m' res (sym (rw z refl) ∙ e))
      | inr z ↦
          let y : some (m, 0) ≡ some (m', res) = sym (rw z refl) ∙ e in
          let same = ap (λ p. p.0) (some-injective _ _ y) in
          subst (λ x. Follows m.0 x.0) same (Follows-refl m.0)
    ]

    memory-Follows :
        (fuel : ℕ) (d : TaskData) (s : S) (x : TaskData × S × ℕ)
        → recover_memory_snapshot k fuel d s ≡ some x
        → Follows d x.0
    unfolding recover_memory_snapshot
    memory-Follows fuel d s x e = elim (Option-cases (restore_regions k fuel d s)) [
      | inl z ↦
          absurd (let y : none ≡ some x = sym (rw (recover_memory_snapshot, z) refl) ∙ e in cc)
      | inr ((m, res), z) ↦
          let r = recover_dirty k.mmu m.0 m.1 in
          let same : (if res == 0 then (r.0, r.1, 0) else (m.0, m.1, res)) ≡ x =
            some-injective _ _ (sym (rw (recover_memory_snapshot, z) refl) ∙ e) in
          subst (λ y. Follows d y.0) same
            (by_res res r.0 r.1 m.0 m.1 (regions-Follows fuel (d, s) m res z)
              (recover_dirty-Follows k.mmu m.0 m.1))
    ]
      where
        by_res :
            (res : ℕ) (d₂ : TaskData) (s₂ : S) (d₁ : TaskData) (s₁ : S)
            → Follows d d₁
            → Follows d₁ d₂
            → Follows d
                (if◌then◌else◌ {A = TaskData × S × ℕ} (res == 0) (d₂, s₂, 0) (d₁, s₁, res)).0
        by_res res d₂ s₂ d₁ s₁ f g = elim (Bool-cases (res == 0)) [
          | inl y ↦ rw y (Follows-trans d d₁ d₂ f g)
          | inr y ↦ rw y f
        ]

    pub recover-Sane :
        (fuel : ℕ) (w w' : World K S T) (current res : ℕ)
        → recover_snapshot k fuel w current ≡ some (w', res)
        → Sane w
        → Sane w'
    unfolding recover_snapshot restore_snapshot recover_state
    recover-Sane fuel w w' current res e h = elim (Option-cases (get_task_data w.tasks current)) [
      | inl g ↦
          let y : some (w, 1) ≡ some (w', res) = sym (rw (recover_snapshot, g) refl) ∙ e in
          subst Sane (ap (λ p. p.0) (some-injective _ _ y)) h
      | inr (d, g) ↦ elim (Option-cases (recover_threads_snapshot k.thread fuel w.threads d.tsk)) [
        | inl t ↦ absurd (
            let y : none ≡ some (w', res) =
              sym (rw (recover_snapshot, g) (rw (restore_snapshot, t) refl)) ∙ e in
            cc)
        | inr (threads, t) ↦
            let b = after_brk k w d in
            elim (Option-cases (recover_memory_snapshot k fuel b.0 b.1)) [
              | inl z ↦ absurd (
                  let y : none ≡ some (w', res) =
                    sym (
                      rw (recover_snapshot, g)
                        (rw (restore_snapshot, t) (rw (restore_snapshot, z) refl)))
                    ∙ e in
                  cc)
              | inr (x, z) ↦
                  let y : some (restored k w current d threads (x.0, x.1), 0) ≡ some (w', res) =
                    sym (
                      rw (recover_snapshot, g)
                        (rw (restore_snapshot, t) (rw (restore_snapshot, z) refl)))
                    ∙ e in
                  subst Sane (ap (λ p. p.0) (some-injective _ _ y)) (
                    follow-Consistent w.tasks w.cache current d x.0 g
                      (Follows-trans d b.0 x.0
                        (Reach-Follows k.mmu d w.space
                          (restore_brk-Runs k.mmu k.mm mm (d, w.space) d.ss.oldbrk))
                        (memory-Follows fuel b.0 b.1 x z))
                      h)
            ]
      ]
    ]

    pub exit_group-Sane :
        (fuel : ℕ) (w w' : World K S T) (current res : ℕ)
        → exit_snapshot k fuel w current ≡ some (w', res)
        → Sane w
        → Sane w'
    exit_group-Sane fuel w w' current res e h =
        let a = exit_snapshot-agrees k fuel w current in
        elim (Bool-cases (restores_on_exit (get_task_data w.tasks current))) [
          | inl z ↦ recover-Sane fuel w w' current res (sym (a ∙ rw z refl) ∙ e) h
          | inr z ↦
              let y : some (do_exit_hook k w current, 1) ≡ some (w', res) =
                sym (a ∙ rw z refl) ∙ e in
              subst Sane (ap (λ p. p.0) (some-injective _ _ y)) (do_exit-Sane w current h)
        ]
