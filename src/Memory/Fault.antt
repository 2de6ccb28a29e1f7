-- ===== src/Memory/Fault.antt =====
-- The hooks of src/memory.c on `do_wp_page`, `page_add_new_anon_rmap` and `__do_munmap`, for the
-- task data that the per-CPU cache has returned (a null pointer is `none` there).
use afl_snapshot_lkm.Base.{
  ℕ, ◌+◌, ◌%◌, ◌^◌, Bool, true, false, not, if◌then◌else◌, Option, none, some, List, [], ◌∷◌,
}
use afl_snapshot_lkm.Page.{
  SnapshotPage, is_snapshot_page_none_pte, is_snapshot_page_private, set_snapshot_page_none_pte,
}
use afl_snapshot_lkm.Task.{TaskData, have_snapshot}
use afl_snapshot_lkm.Mmu.{Mmu}
use afl_snapshot_lkm.Memory.{
  Run, ran, oops, page_mask, put_page, get_snapshot_page, is_snapshotted_address, add_snapshot_page,
  queue_dirty, record_dirty_page,
}

-- `page_add_new_anon_rmap_hook` from "HAVE PTE NOW" on.
unfoldable pub note_pte : TaskData → ℕ → SnapshotPage → TaskData
note_pte d p sp =
    if is_snapshot_page_none_pte sp
    then put_page (queue_dirty d p sp) p (record sp { has_had_pte = true; in_dirty_list = true })
    else put_page d p (record sp { has_had_pte = true })

unfoldable pub page_add_new_anon_rmap_hook : Option SnapshotPage → TaskData → ℕ → Run TaskData
unfolding note_pte add_snapshot_page
page_add_new_anon_rmap_hook kmalloc d address =
    let p = page_mask address in
    if not (have_snapshot d) then ran d else elim (get_snapshot_page d p) [
      | some sp ↦ ran (note_pte d p sp)
      | none ↦
          if not (is_snapshotted_address d p)
          then ran d
          else let (d', found) = add_snapshot_page kmalloc d p false in
            elim found [
              | none ↦ oops
              | some sp ↦ ran (note_pte d' p (set_snapshot_page_none_pte sp))
            ]
    ]

module _ {S P : Type 0} (k : Mmu S P) where
  -- The last part of the result is whether the original `do_wp_page` is skipped.
  unfoldable pub do_wp_page_hook : Option ℕ → TaskData → S → ℕ → P → TaskData × S × Bool
  do_wp_page_hook kmalloc d s address orig_pte =
      let p = page_mask address in
      if not (have_snapshot d)
      then (d, s, false)
      else let (d', found) = record_dirty_page k kmalloc d s p orig_pte in
        elim found [
          | none ↦ (d', s, false)
          | some sp ↦
              if not (is_snapshot_page_private sp)
              then (d', s, false)
              else (d', k.flush_tlb_page (k.set_pte_at s p (k.pte_mkwrite orig_pte)) p, true)
        ]

  -- `munmap_pte_entry` for each entry that the walk presents; `kmalloc` says what the allocation
  -- for each address returns.
  unfoldable pub munmap_ptes : (ℕ → Option ℕ) → TaskData → S → List ℕ → TaskData
  munmap_ptes kmalloc d s [] = d
  munmap_ptes kmalloc d s (addr ∷ addrs) =
      munmap_ptes kmalloc (record_dirty_page k (kmalloc addr) d s addr (k.pte_at s addr)).0 s addrs

  unfoldable pub do_munmap_hook : (ℕ → Option ℕ) → TaskData → S → ℕ → ℕ → TaskData
  do_munmap_hook kmalloc d s start len =
      if not (have_snapshot d)
      then d
      else munmap_ptes kmalloc d s (k.walk_page_range s start ((start + len) % 2 ^ 64))
