-- ===== src/Memory.antt =====
-- The snapshot of a process's memory, src/memory.c: the table of pages, the page-fault and unmap
-- hooks that record the pages which change, and the loop that puts them back.
-- `Fault` has the hooks, `Recover` the loop, `Take` the walk that takes the snapshot.
-- A pointer to a page of the table is the page's address. What `kmalloc` returns is an argument:
-- `none` where it fails, and otherwise memory with any contents. Messages are left out.
pub mod Fault
pub mod Recover
pub mod Invariant
pub mod Record
pub mod Restore
pub mod Anon
pub mod Session
pub mod Take
pub mod RoundTrip
use afl_snapshot_lkm.Base.{
  ℕ, ◌+◌, ◌-◌, ◌%◌, ◌^◌, Bool, true, false, not, ◌&&◌, ◌||◌, ltb, leb, ◌==◌, if◌then◌else◌, Option,
  none, some, List, [], ◌∷◌, ◌++◌, update, remove,
}
use afl_snapshot_lkm.Page.{
  SnapshotPage, page_size, is_snapshot_page_none_pte, is_snapshot_page_private,
  set_snapshot_page_none_pte, set_snapshot_page_private, set_snapshot_page_cow,
}
use afl_snapshot_lkm.Task.{SnapshotVma, Snapshot, TaskData, have_snapshot}
use afl_snapshot_lkm.Mmu.{Mmu, pgd, p4d, pud, pmd}

-- `oops` is a write through a null pointer.
pub data Run {ℓ} (A : Type ℓ) : Type ℓ where
  ran : A → Run A
  oops : Run A

abbrev pub page_mask : ℕ → ℕ
page_mask a = a - a % page_size

abbrev pub with_pages : TaskData → (ℕ → Option SnapshotPage) → TaskData
with_pages d f = record d { ss = record (d.ss) { ss_pages = f } }

abbrev pub with_dirty : TaskData → List ℕ → TaskData
with_dirty d l = record d { ss = record (d.ss) { dirty_pages = l } }

-- Writes the page that `p` points to.
abbrev pub put_page : TaskData → ℕ → SnapshotPage → TaskData
put_page d p sp = with_pages d (update d.ss.ss_pages p (some sp))

abbrev pub get_snapshot_page : TaskData → ℕ → Option SnapshotPage
get_snapshot_page d page_base = d.ss.ss_pages page_base

-- The list is in the order of the addresses, so the search stops at a region above the address.
unfoldable pub is_snapshotted_in : List SnapshotVma → ℕ → Bool
is_snapshotted_in [] page_base = false
is_snapshotted_in (v ∷ vs) page_base =
    if leb v.vm_start page_base && ltb page_base v.vm_end
    then true
    else if ltb page_base v.vm_start
    then false
    else is_snapshotted_in vs page_base

abbrev pub is_snapshotted_address : TaskData → ℕ → Bool
is_snapshotted_address d page_base = is_snapshotted_in d.ss.snapshotted_vmas page_base

-- The fields that `add_snapshot_page` resets in a new page and in one that it reuses.
abbrev pub reset_page : SnapshotPage → SnapshotPage
reset_page sp = record sp {
  page_prot = 0;
  has_been_copied = false;
  dirty = false;
  in_dirty_list = false;
}

unfoldable pub add_snapshot_page :
    Option SnapshotPage → TaskData → ℕ → Bool → TaskData × Option SnapshotPage
add_snapshot_page kmalloc d page_base attempt_reuse =
    elim (if attempt_reuse then get_snapshot_page d page_base else none) [
      | some sp ↦ (put_page d page_base (reset_page sp), some (reset_page sp))
      | none ↦ elim kmalloc [
        | none ↦ (d, none)
        | some m ↦
            let sp = reset_page (record m { page_base = page_base; page_data = none }) in
            (put_page d page_base sp, some sp)
      ]
    ]

-- `list_add_tail` on the list of dirty pages, unless the page is on it.
abbrev pub queue_dirty : TaskData → ℕ → SnapshotPage → TaskData
queue_dirty d p sp = if sp.in_dirty_list then d else with_dirty d (d.ss.dirty_pages ++ p ∷ [])

-- The buffer that a page is saved to: the one it has, or a new one.
abbrev pub page_buffer : Option ℕ → SnapshotPage → Option ℕ
page_buffer kmalloc sp = elim sp.page_data [ some buf ↦ some buf | none ↦ kmalloc ]

module _ {S P : Type 0} (k : Mmu S P) where
  -- The `pte_t *` that is found is the one of the address: only whether there is one is told.
  unfoldable pub walk_page_table : S → ℕ → Bool
  walk_page_table s addr =
      if k.entry_bad s pgd addr
      then false
      else if k.entry_bad s p4d addr
      then false
      else if k.entry_bad s pud addr
      then false
      else if k.entry_bad s pmd addr
      then false
      else k.pte_offset_map s addr

  -- What `make_snapshot_page` writes to the page that it has added.
  unfoldable pub mark_page : TaskData → S → ℕ → SnapshotPage → TaskData × S
  mark_page d s addr sp =
      if k.pte_none (k.pte_at s addr)
      then (put_page d addr (set_snapshot_page_none_pte (record sp { has_had_pte = false })), s)
      else if k.pte_write (k.pte_at s addr)
      then (
        put_page d addr (set_snapshot_page_private (record sp { has_had_pte = true })),
        k.flush_tlb_page (k.ptep_set_wrprotect s addr) (page_mask addr),
      )
      else (put_page d addr (set_snapshot_page_cow (record sp { has_had_pte = true })), s)

  -- The last part of the result is whether the function returns 0 (and not -ENOMEM).
  unfoldable pub make_snapshot_page : Option SnapshotPage → TaskData → S → ℕ → TaskData × S × Bool
  make_snapshot_page kmalloc d s addr =
      let (d', found) = add_snapshot_page kmalloc d addr true in
      elim found [
        | none ↦ (d', s, false)
        | some sp ↦ let (d'', s') = mark_page d' s addr sp in (d'', s', true)
      ]

  -- `record_dirty_page` from "copy the page if necessary" on.
  unfoldable pub save_page :
      Option ℕ → TaskData → S → ℕ → P → SnapshotPage → TaskData × Option SnapshotPage
  save_page kmalloc d s page_addr pte sp =
      if sp.has_been_copied
      then (put_page d page_addr sp, some sp)
      else elim (page_buffer kmalloc sp) [
        | none ↦ (put_page d page_addr sp, none)
        | some buf ↦
            let sp' = record sp { page_data = some (k.read_frame s pte); has_been_copied = true } in
            (put_page d page_addr sp', some sp')
      ]

  unfoldable pub record_dirty_page :
      Option ℕ → TaskData → S → ℕ → P → TaskData × Option SnapshotPage
  unfolding save_page
  record_dirty_page kmalloc d s page_addr pte = elim (get_snapshot_page d page_addr) [
    | none ↦ (d, none)
    | some sp ↦
        if sp.dirty || is_snapshot_page_none_pte sp
        then (d, none)
        else save_page kmalloc (queue_dirty d page_addr sp) s page_addr pte
            (record sp { dirty = true; in_dirty_list = true })
  ]
