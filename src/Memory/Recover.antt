-- ===== src/Memory/Recover.antt =====
-- `do_recover_page`, `do_recover_none_pte` and the loop of `recover_memory_snapshot`, src/memory.c.
use afl_snapshot_lkm.Base.{ℕ, true, false, ◌&&◌, if◌then◌else◌, none, some, List, [], ◌∷◌, remove}
use afl_snapshot_lkm.Page.{
  SnapshotPage, is_snapshot_page_none_pte, is_snapshot_page_private, set_snapshot_page_none_pte,
  set_snapshot_page_private,
}
use afl_snapshot_lkm.Task.{TaskData}
use afl_snapshot_lkm.Mmu.{Mmu}
use afl_snapshot_lkm.Memory.{with_dirty, put_page, get_snapshot_page, walk_page_table}

-- `in_dirty_list = false` and `list_del`, at the end of a round.
abbrev pub unqueue : TaskData → ℕ → SnapshotPage → TaskData
unqueue d p sp =
    put_page (with_dirty d (remove p d.ss.dirty_pages)) p (record sp { in_dirty_list = false })

module _ {S P : Type 0} (k : Mmu S P) where
  -- A page that has been copied has its data: `SavedPage.copied` of Invariant.
  unfoldable pub do_recover_page : S → SnapshotPage → S × SnapshotPage
  do_recover_page s sp = elim sp.page_data [
    | none ↦ (s, record sp { dirty = false })
    | some v ↦ ((k.copy_to_user s sp.page_base v).0, record sp { dirty = false })
  ]

  unfoldable pub do_recover_none_pte : S → SnapshotPage → S
  do_recover_none_pte s sp = k.zap_page s sp.page_base

  -- The first branch of a round: a page that a fault or an unmap has recorded. The `continue` leaves
  -- it on the list.
  unfoldable pub recover_copied : TaskData → S → ℕ → SnapshotPage → TaskData × S
  unfolding do_recover_page
  recover_copied d s p sp =
      let (s', sp') = do_recover_page s sp in
      let sp'' = record sp' { has_had_pte = true } in
      if walk_page_table k s' sp''.page_base
      then (
        unqueue d p (set_snapshot_page_private sp''),
        k.flush_tlb_page (k.ptep_set_wrprotect s' sp''.page_base) sp''.page_base,
      )
      else (put_page d p sp'', s')

  -- The other branches.
  unfoldable pub recover_other : TaskData → S → ℕ → SnapshotPage → TaskData × S
  recover_other d s p sp =
      if is_snapshot_page_private sp
      then (unqueue d p sp, s)
      else if is_snapshot_page_none_pte sp && sp.has_had_pte
      then (
        unqueue d p (record (set_snapshot_page_none_pte sp) { has_had_pte = false }),
        do_recover_none_pte s sp,
      )
      else (unqueue d p sp, s)

  unfoldable pub recover_page : TaskData → S → ℕ → SnapshotPage → TaskData × S
  recover_page d s p sp =
      if sp.dirty && sp.has_been_copied then recover_copied d s p sp else recover_other d s p sp

  -- The loop, over the entries that the list has when it starts.
  unfoldable pub recover_pages : TaskData → S → List ℕ → TaskData × S
  recover_pages d s [] = (d, s)
  recover_pages d s (p ∷ ps) = elim (get_snapshot_page d p) [
    | none ↦ recover_pages d s ps
    | some sp ↦ let (d', s') = recover_page d s p sp in recover_pages d' s' ps
  ]

  unfoldable pub recover_dirty : TaskData → S → TaskData × S
  unfolding recover_pages
  recover_dirty d s = recover_pages d s d.ss.dirty_pages
