-- ===== src/System/Device.antt =====
-- The commands of the device, `mod_dev_ioctl` of src/module.c, keep the list of task data and the
-- caches consistent.
use afl_snapshot_lkm.Base.{
  by_if, ℕ, ◌≡◌, refl, ◌==◌, ◌%◌, ◌^◌, Bool, Option, none, some, List, ◌∙◌, sym, ap, subst,
  Bool-cases, Option-cases, inl, inr,
}
use afl_snapshot_lkm.Task.{TaskData, ensure_task_data}
use afl_snapshot_lkm.Task.Listed.{put_task_data}
use afl_snapshot_lkm.Cache.{Cache}
use afl_snapshot_lkm.Files.{ℤ, pos, negsuc}
use afl_snapshot_lkm.Ranges.{exclude_range, include_range}
use afl_snapshot_lkm.Vmranges.{change_vmranges}
use afl_snapshot_lkm.Memory.{Run, ran, oops}
use afl_snapshot_lkm.Memory.Take.{Vma, WalkState}
use afl_snapshot_lkm.Memory.Take.Establish.{Calls}
use afl_snapshot_lkm.Snapshot.{World, Kernel, take_snapshot, clean_snapshot}
use afl_snapshot_lkm.Snapshot.Taken.{ensured}
use afl_snapshot_lkm.Snapshot.Events.{MmEvents, VmaEvents}
use afl_snapshot_lkm.Device.{
  IoctlMacros, Caller, Reply, replied, crashed, unfinished, mod_dev_ioctl, reply_tasks, reply_run,
  reply_option, reply_range, afl_snapshot_ioctl_exclude, afl_snapshot_ioctl_include,
  afl_snapshot_ioctl_take, afl_snapshot_ioctl_do, afl_snapshot_ioctl_restore,
  afl_snapshot_ioctl_clean,
}
use afl_snapshot_lkm.System.Lived.{Follows}
use afl_snapshot_lkm.System.Tasks.{Consistent, ensure-Consistent}
use afl_snapshot_lkm.System.Operations.{
  Sane, follow-Consistent, take-Sane, clean-Sane, recover-Sane,
}

change-Consistent :
    (change : TaskData → TaskData) (alloc kmalloc : Bool) (ds ds' : List TaskData) (c : Cache)
    (current : ℕ)
    → ((d : TaskData) → Follows d (change d))
    → change_vmranges change alloc kmalloc ds current ≡ ran ds'
    → Consistent ds c
    → Consistent ds' c
unfolding change_vmranges
change-Consistent change alloc kmalloc ds ds' c current f e h =
    let r = ensure_task_data alloc ds current in
    let h' = ensure-Consistent alloc ds c current h in
    elim (Bool-cases kmalloc) [
      | inr z ↦
          let y : ran r.0 ≡ ran ds' = sym (rw (change_vmranges, z) refl) ∙ e in
          let same : r.0 ≡ ds' = cc in subst (λ x. Consistent x c) same h'
      | inl z ↦ elim (Option-cases r.1) [
        | inl n ↦ absurd (let y : oops ≡ ran ds' = sym (rw (change_vmranges, z, n) refl) ∙ e in cc)
        | inr (d, n) ↦
            let y : ran (put_task_data r.0 (change d)) ≡ ran ds' =
              sym (rw (change_vmranges, z, n) refl) ∙ e in
            let same : put_task_data r.0 (change d) ≡ ds' = cc in
            subst (λ x. Consistent x c) same
              (follow-Consistent r.0 c current d (change d) (ensured alloc ds current d n) (f d) h')
      ]
    ]

module _ {K S P T : Type 0} (m : IoctlMacros) (k : Kernel K S P T) (mm : MmEvents k.mmu k.mm)
    (vma : VmaEvents k.mmu k.vma) where
  -- A reply with a consistent state, if there is one.
  abbrev Good : Reply (World K S T) → Type 0
  Good r = (w' : World K S T) (z : ℤ) → r ≡ replied w' z → Sane k w'

  abbrev world_of : World K S T → Reply (World K S T) → World K S T
  world_of w (replied w' z) = w'
  world_of w crashed = w
  world_of w unfinished = w

  replied-Good : (w : World K S T) (z : ℤ) → Sane k w → Good (replied w z)
  replied-Good w z h w' z' e = subst (Sane k) (ap (world_of w) e) h

  tasks-Good :
      (w : World K S T) (r : Run (List TaskData))
      → ((ds' : List TaskData) → r ≡ ran ds' → Consistent ds' w.cache)
      → Good (reply_tasks w r)
  tasks-Good w oops f = λ w' z e. absurd (cc)
  tasks-Good w (ran ds) f = replied-Good (record w { tasks = ds }) (pos 0) (f ds refl)

  range-Good :
      (w : World K S T) (change : ℕ → ℕ → Run (List TaskData)) (args : Option (ℕ × ℕ))
      → Sane k w
      → ((a b : ℕ) (ds' : List TaskData) → change a b ≡ ran ds' → Consistent ds' w.cache)
      → Good (reply_range w change args)
  range-Good w change none h f = replied-Good w (negsuc 21) h
  range-Good w change (some a) h f = tasks-Good w (change a.0 a.1) (f a.0 a.1)

  run-Good :
      (r : Run (World K S T × ℕ))
      → ((w' : World K S T) (n : ℕ) → r ≡ ran (w', n) → Sane k w')
      → Good (reply_run r)
  run-Good oops f = λ w' z e. absurd (cc)
  run-Good (ran x) f = replied-Good x.0 (pos x.1) (f x.0 x.1 refl)

  option-Good :
      (r : Option (World K S T × ℕ))
      → ((w' : World K S T) (n : ℕ) → r ≡ some (w', n) → Sane k w')
      → Good (reply_option r)
  option-Good none f = λ w' z e. absurd (cc)
  option-Good (some x) f = replied-Good x.0 (pos x.1) (f x.0 x.1 refl)

  pub ioctl-Sane :
      (fuel : ℕ) (c : Caller S) (w w' : World K S T) (current cmd arg : ℕ) (res : ℤ)
      → ((st : WalkState S) (v : Vma) → Calls k.mmu st (c.chances.walk_page_vma st v).0)
      → mod_dev_ioctl m k fuel c w current cmd arg ≡ replied w' res
      → Sane k w
      → Sane k w'
  unfolding mod_dev_ioctl
  ioctl-Sane fuel c w w' current cmd arg res calls e h = all w' res e
    where
      alloc : Bool
      alloc = c.chances.data_memory

      taking : (config : ℕ) → Good (reply_run (take_snapshot k c.chances w current config))
      taking config = run-Good _ (λ w' n y. take-Sane k c.chances w w' current config n calls y h)

      changing :
          (change : ℕ → ℕ → TaskData → TaskData)
          → ((a b : ℕ) (d : TaskData) → Follows d (change a b d))
          → Good (
              reply_range w
                (λ a b. change_vmranges (change a b) alloc c.range_memory w.tasks current)
                (c.copy_from_user arg))
      changing change f = range-Good w _ (c.copy_from_user arg) h (λ a b ds' y.
          change-Consistent (change a b) alloc c.range_memory w.tasks ds' w.cache current (f a b) y
            h)

      all : Good (mod_dev_ioctl m k fuel c w current cmd arg)
      all =
          by_if Good (cmd == afl_snapshot_ioctl_exclude m) _ _
            (changing (λ a b d. exclude_range d a b)
              (λ a b d. record { tsk_same = refl; status_same = refl; unmade_stays = λ y. y }))
            (by_if Good (cmd == afl_snapshot_ioctl_include m) _ _
              (changing (λ a b d. include_range d a b)
                (λ a b d. record { tsk_same = refl; status_same = refl; unmade_stays = λ y. y }))
              (by_if Good (cmd == afl_snapshot_ioctl_take m) _ _ (taking (arg % 2 ^ 32)) (
                by_if Good (cmd == afl_snapshot_ioctl_do m) _ _ (taking 29) (
                  by_if Good (cmd == afl_snapshot_ioctl_restore m) _ _
                    (option-Good _ (λ w' n y. recover-Sane k mm vma fuel w w' current n y h))
                    (by_if Good (cmd == afl_snapshot_ioctl_clean m) _ _
                      (replied-Good (clean_snapshot k w current) (pos 0) (clean-Sane k w current h))
                      (replied-Good w (negsuc 21) h))))))
