-- ===== src/Regions.antt =====
-- `restore_vmas`, src/memory.c: a sweep over the regions of the process and those of the snapshot, in the
-- order of their addresses, that unmaps what is new and maps what is missing.
-- The address space is a parameter `M`: the kernel changes its list of regions when it maps or unmaps,
-- and the sweep reads that list as it goes. A `struct vm_area_struct` is named by its address. Messages
-- are left out. `Spans` has the positions of a sweep over one list, `Space` what is asked of the
-- kernel, `Round`, `Interval`, `Fix` and `After` one round, and `Exact` the whole sweep; `Logged` and
-- `Requests` have what it asks the kernel for.
pub mod Spans
pub mod Space
pub mod Round
pub mod Interval
pub mod Fix
pub mod After
pub mod Exact
pub mod Logged
pub mod Requests
use afl_snapshot_lkm.Base.{
  ℕ, zero, suc, ◌-◌, ◌==◌, ◌&&◌, not, Bool, true, false, leb, if◌then◌else◌, Option, none, some,
  List, [], ◌∷◌,
}
use afl_snapshot_lkm.Task.{SnapshotVma}

abbrev pub ulong_max : ℕ
ulong_max = 0xffffffffffffffff

pub record VmaOps (M : Type 0) : Type 0 where
  -- `mm->mmap`, and three fields of a region
  pub mmap : M → Option ℕ
  pub vm_next : M → ℕ → Option ℕ
  pub vm_start : M → ℕ → ℕ
  pub vm_end : M → ℕ → ℕ
  -- from an address and for a length: the new state, and 0 or an error
  pub vm_munmap : M → ℕ → ℕ → M × ℕ
  -- private at this very address, with a protection: the new state, and the address or an error
  pub vm_mmap : M → ℕ → ℕ → ℕ → M × Option ℕ

-- The variables of the loop; the second list is the part of `all_vmas` from `ss_vma_iter` on.
pub record Sweep (M : Type 0) : Type 0 where
  pub mm : M
  pub vma_iter : Option ℕ
  pub ss_vmas : List SnapshotVma
  pub cursor : ℕ
  pub in_vmas : Bool
  pub in_ss_vmas : Bool

-- Whether the loop goes on, or the function returns a number.
pub data Verdict : Type 0 where
  goes_on : Verdict
  returns : ℕ → Verdict

abbrev pub next_ss_vma_pos : Bool → List SnapshotVma → ℕ
next_ss_vma_pos b [] = ulong_max
next_ss_vma_pos b (r ∷ rs) = if b then r.vm_end else r.vm_start

abbrev pub is_nil {ℓ} : {A : Type ℓ} → List A → Bool
is_nil [] = true
is_nil (x ∷ xs) = false

abbrev pub is_null : Option ℕ → Bool
is_null none = true
is_null (some p) = false

-- `list_next_entry`, which is not called at the head of the list.
abbrev pub list_next : List SnapshotVma → List SnapshotVma
list_next [] = []
list_next (r ∷ rs) = rs

module _ {M : Type 0} (o : VmaOps M) where
  abbrev pub next_vma_pos : M → Bool → Option ℕ → ℕ
  next_vma_pos m b none = ulong_max
  next_vma_pos m b (some p) = if b then o.vm_end m p else o.vm_start m p

  abbrev pub next_vma_iter : M → Option ℕ → Option ℕ
  next_vma_iter m none = none
  next_vma_iter m (some p) = o.vm_next m p

  -- After `vm_munmap`, and after `vm_mmap`, where `res` is 0 whether or not it has failed.
  abbrev pub unmapped : M × ℕ → M × Verdict
  unmapped r = (r.0, if r.1 == 0 then goes_on else returns r.1)

  abbrev pub mapped_at : M × Option ℕ → ℕ → M × Verdict
  mapped_at r cursor =
      (r.0, elim r.1 [ none ↦ returns 0 | some a ↦ if a == cursor then goes_on else returns 0 ])

  -- The mapping of a part of the region at the head of the list; another one is only reported.
  abbrev pub map_missing : M → List SnapshotVma → ℕ → ℕ → M × Verdict
  map_missing m [] cursor next_cursor = (m, goes_on)
  map_missing m (r ∷ rs) cursor next_cursor =
      if r.is_anonymous_private
      then mapped_at (o.vm_mmap m cursor (next_cursor - cursor) r.prot) cursor
      else (m, goes_on)

  -- What happens to `[cursor, next_cursor)`.
  unfoldable pub fix_interval : Sweep M → ℕ → M × Verdict
  fix_interval w next_cursor =
      if not (next_cursor == w.cursor) && w.in_vmas && not w.in_ss_vmas
      then unmapped (o.vm_munmap w.mm w.cursor (next_cursor - w.cursor))
      else if not (next_cursor == w.cursor) && not w.in_vmas && w.in_ss_vmas
      then map_missing w.mm w.ss_vmas w.cursor next_cursor
      else (w.mm, goes_on)

  unfoldable pub next_cursor : Sweep M → ℕ
  next_cursor w =
      let vma = next_vma_pos w.mm w.in_vmas w.vma_iter in
      let ss = next_ss_vma_pos w.in_ss_vmas w.ss_vmas in if leb vma ss then vma else ss

  -- The end of a round, after the interval has been seen to, in the address space `m`.
  unfoldable pub advance : Sweep M → ℕ → M → Sweep M
  advance w next m =
      let at_vma = next == next_vma_pos w.mm w.in_vmas w.vma_iter in
      let at_ss = next == next_ss_vma_pos w.in_ss_vmas w.ss_vmas in
      record {
        mm = m;
        vma_iter = if at_vma && w.in_vmas then next_vma_iter w.mm w.vma_iter else w.vma_iter;
        ss_vmas = if at_ss && w.in_ss_vmas then list_next w.ss_vmas else w.ss_vmas;
        cursor = next;
        in_vmas = if at_vma then not w.in_vmas else w.in_vmas;
        in_ss_vmas = if at_ss then not w.in_ss_vmas else w.in_ss_vmas;
      }

  -- The loop: `none` where the fuel runs out.
  unfoldable pub sweep : ℕ → Sweep M → Option (M × ℕ)
  sweep zero w = none
  sweep (suc fuel) w =
      let (m, verdict) = fix_interval w (next_cursor w) in
      let rest = sweep fuel (advance w (next_cursor w) m) in
      if is_null w.vma_iter && is_nil w.ss_vmas
      then some (w.mm, 0)
      else elim verdict [ goes_on ↦ rest | returns res ↦ some (m, res) ]

  unfoldable pub restore_vmas : ℕ → List SnapshotVma → M → Option (M × ℕ)
  restore_vmas fuel all_vmas m = sweep fuel (record {
    mm = m;
    vma_iter = o.mmap m;
    ss_vmas = all_vmas;
    cursor = 0;
    in_vmas = false;
    in_ss_vmas = false;
  })
