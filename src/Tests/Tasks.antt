-- ===== src/Tests/Tasks.antt =====
-- The task data of two processes and a heap that has grown by two pages.
use afl_snapshot_lkm.Base.{
  ℕ, ◌%◌, ◌≡◌, refl, true, false, none, some, List, [], ◌∷◌, ◌==◌, leb, if◌then◌else◌, arith, ◌⊎◌,
}
use afl_snapshot_lkm.Page.{page_size}
use afl_snapshot_lkm.Task.{TaskData, fresh_task_data, set_snapshot, get_task_data}
use afl_snapshot_lkm.Task.Listed.{Distinct}
use afl_snapshot_lkm.Cache.{Cache}
use afl_snapshot_lkm.Ranges.{exclude_range, include_range}
use afl_snapshot_lkm.Memory.{ran}
use afl_snapshot_lkm.Vmranges.{exclude_vmrange, include_vmrange, data_or_fresh, vmrange_changed}
use afl_snapshot_lkm.Brk.{
  MmOps, MmLaws, restore_brk, restore_brk-brk, restore_brk-aligned, page_align,
}

-- Task 7 excludes a page; task 8 has a snapshot.
vmrange_changed_example :
    let ds = set_snapshot (fresh_task_data 8) ∷ [] in
    ((x : List TaskData) × (exclude_vmrange true true ds 7 0x1000 0x2000 ≡ ran x)
      × ((q : ℕ)
          → get_task_data x q ≡ (
              if 7 == q
              then some (exclude_range (data_or_fresh ds 7) 0x1000 0x2000)
              else get_task_data ds q)))
    × ((x : List TaskData) × (include_vmrange true true ds 7 0x1000 0x2000 ≡ ran x)
        × ((q : ℕ)
            → get_task_data x q ≡ (
                if 7 == q
                then some (include_range (data_or_fresh ds 7) 0x1000 0x2000)
                else get_task_data ds q)))
vmrange_changed_example = vmrange_changed (set_snapshot (fresh_task_data 8) ∷ []) 7 0x1000 0x2000

abbrev empty : Cache
empty = record { last_task = λ i. none; last_task_data = λ i. none }

abbrev snapshotted : TaskData
snapshotted = set_snapshot (fresh_task_data 7)

only_one : Distinct (snapshotted ∷ [])
unfolding Distinct get_task_data
only_one = (refl, tt)

first : get_task_data (snapshotted ∷ []) 7 ≡ some snapshotted
unfolding get_task_data
first = refl

-- A process of which only the break is kept; the operations refuse an address inside a page.
abbrev mm : MmOps ℕ
mm = record {
  brk = λ m. m;
  set_brk = λ m a. a;
  vm_munmap = λ m a n. (m, a % page_size == 0);
  vm_brk = λ m a n. (m, a % page_size == 0);
  find_vma = λ m a. none;
}

mm_laws : MmLaws mm
mm_laws = record {
  brk-set_brk = λ m a. refl;
  brk-vm_munmap = λ m a n. refl;
  brk-vm_brk = λ m a n. refl;
  vm_munmap-aligned = λ m a n h. ground arith;
  vm_brk-aligned = λ m a n h. ground arith;
}

restore_brk-brk_example :
    (restore_brk mm 0x5000 0x3000).0 ≡ (if (restore_brk mm 0x5000 0x3000).1 then 0x3000 else 0x5000)
restore_brk-brk_example = restore_brk-brk mm mm_laws 0x5000 0x3000

shrinks : (restore_brk mm 0x5000 0x3000).1 ≡ true
unfolding restore_brk
shrinks = refl

restore_brk-aligned_example :
    (page_align 0x5000 ≡ page_align 0x3000)
    ⊎ ((leb 0x3000 0x5000 ≡ true) × (0x3000 % page_size ≡ 0))
    ⊎ ((leb 0x3000 0x5000 ≡ false) × (0x5000 % page_size ≡ 0))
restore_brk-aligned_example = restore_brk-aligned mm mm_laws 0x5000 0x3000 shrinks
