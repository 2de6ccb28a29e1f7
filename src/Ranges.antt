-- ===== src/Ranges.antt =====
-- The blocklist and the allowlist of a task (src/memory.c), and the decision that the page-table
-- walk of `take_memory_snapshot` makes from them for each range of addresses.
pub mod Policy
pub mod Cache
pub mod Walk
pub mod Links
use afl_snapshot_lkm.Base.{
  ℕ, Bool, true, false, ◌&&◌, ltb, leb, if◌then◌else◌, Option, none, some, List, [], ◌∷◌, has_flag,
}
use afl_snapshot_lkm.Task.{Vmrange, TaskData}

-- include/afl_snapshot.h
abbrev pub afl_snapshot_mmap : ℕ
afl_snapshot_mmap = 1

abbrev pub afl_snapshot_block : ℕ
afl_snapshot_block = 2

abbrev pub afl_snapshot_fds : ℕ
afl_snapshot_fds = 4

abbrev pub afl_snapshot_regs : ℕ
afl_snapshot_regs = 8

abbrev pub afl_snapshot_exit : ℕ
afl_snapshot_exit = 16

abbrev pub afl_snapshot_nostack : ℕ
afl_snapshot_nostack = 64

unfoldable pub intersect : List Vmrange → ℕ → ℕ → Option Vmrange
intersect [] start end = none
intersect (n ∷ ns) start end =
    if ltb n.start end && ltb start n.end then some n else intersect ns start end

abbrev pub intersect_blocklist : TaskData → ℕ → ℕ → Option Vmrange
intersect_blocklist d start end = intersect d.blocklist start end

abbrev pub intersect_allowlist : TaskData → ℕ → ℕ → Option Vmrange
intersect_allowlist d start end = intersect d.allowlist start end

-- The two addresses of `struct snapshot_walk_data`; the walk starts with both zero.
pub record WalkData : Type 0 where
  pub next_allowed_address : ℕ
  pub next_blocked_address : ℕ

abbrev pub walk_start : WalkData
walk_start = record { next_allowed_address = 0; next_blocked_address = 0 }

-- `enum page_walk_action`, as far as the code uses it.
pub data Action : Type 0 where
  action_subtree action_continue : Action

-- `n` holds all of `[addr, next)`.
abbrev pub contains : Vmrange → ℕ → ℕ → Bool
contains n addr next = leb n.start addr && leb next n.end

-- From "Skip all non whitelisted mappings" to the end of the function.
unfoldable pub check_default : TaskData → WalkData → ℕ → Option Vmrange → WalkData × Action
check_default d w next blocked =
    if has_flag afl_snapshot_block d.config
    then (record w { next_blocked_address = next }, action_continue)
    else elim blocked [
      | none ↦ (record w { next_allowed_address = next }, action_subtree)
      | some b ↦ (w, action_subtree)
    ]

-- From the second `intersect` to the end of the function.
unfoldable pub check_allowed : TaskData → WalkData → ℕ → ℕ → Option Vmrange → WalkData × Action
unfolding check_default
check_allowed d w addr next blocked = elim (intersect_allowlist d addr next) [
  | none ↦ check_default d w next blocked
  | some a ↦ (
    if contains a addr next then record w { next_allowed_address = a.end } else w,
    action_subtree,
  )
]

-- From the first `intersect` to the end of the function.
unfoldable pub check_slow : TaskData → WalkData → ℕ → ℕ → WalkData × Action
unfolding check_allowed
check_slow d w addr next = elim (intersect_blocklist d addr next) [
  | none ↦ check_allowed d w addr next none
  | some b ↦
      if contains b addr next
      then (record w { next_blocked_address = b.end }, action_continue)
      else check_allowed d w addr next (some b)
]

unfoldable pub snapshot_walk_check_range : TaskData → WalkData → ℕ → ℕ → WalkData × Action
unfolding check_slow
snapshot_walk_check_range d w addr next =
    if ltb next w.next_blocked_address
    then (w, action_continue)
    else if ltb next w.next_allowed_address
    then (w, action_subtree)
    else check_slow d w addr next

-- The decisions for the ranges that one walk presents in turn: `walk_page_vma` calls the `*_entry`
-- functions for each range, and they share one `struct snapshot_walk_data`.
unfoldable pub walk_decisions : TaskData → WalkData → List (ℕ × ℕ) → List Action
walk_decisions d w [] = []
walk_decisions d w ((addr, next) ∷ rs) =
    let (w', act) = snapshot_walk_check_range d w addr next in act ∷ walk_decisions d w' rs

-- What `exclude_vmrange` and `include_vmrange` leave in the list of a task data once its node is
-- allocated. They pass the list as the new entry and the node as the head to `list_add`, so the
-- list is left with that node alone (`Ranges.Links`).
abbrev pub exclude_range : TaskData → ℕ → ℕ → TaskData
exclude_range d start end = record d { blocklist = record { start = start; end = end } ∷ [] }

abbrev pub include_range : TaskData → ℕ → ℕ → TaskData
include_range d start end = record d { allowlist = record { start = start; end = end } ∷ [] }
