-- ===== src/Tests/Ranges.antt =====
-- The blocklist and the allowlist on concrete inputs.
use afl_snapshot_lkm.Base.{
  if◌then◌else◌, ◌==◌, eq_false, Once, ℕ, ◌≡◌, refl, List, [], ◌∷◌, arith, map, update, some, elem,
  false,
}
use afl_snapshot_lkm.Task.{TaskData, fresh_task_data}
use afl_snapshot_lkm.Ranges.{
  walk_start, walk_decisions, action_subtree, action_continue, exclude_range, include_range,
  intersect, snapshot_walk_check_range, check_slow, check_allowed, check_default,
}
use afl_snapshot_lkm.Ranges.Policy.{policy}
use afl_snapshot_lkm.Ranges.Walk.{skipped_subtree, walk_decisions-policy, allowed_shadows_blocked}
use afl_snapshot_lkm.Task.Freed.{task_data_free_callback, task_data_free_callback_lem}
use afl_snapshot_lkm.Ranges.Links.{
  stop, visit, ListOps, ListLaws, Nodes, Holds, list_with, list_with-Holds,
}

-- Pages of 4096 bytes: the second is excluded, the fourth included.
abbrev listed : TaskData
listed = include_range (exclude_range (fresh_task_data 7) 0x1000 0x2000) 0x3000 0x4000

abbrev ranges : List (ℕ × ℕ)
ranges = (0, 0x4000) ∷ (0, 0x1000) ∷ (0x1000, 0x2000) ∷ (0x2000, 0x3000) ∷ (0x3000, 0x4000) ∷ []

listed_decisions :
    walk_decisions listed walk_start ranges
    ≡ action_subtree ∷ action_subtree ∷ action_continue ∷ action_subtree ∷ action_subtree ∷ []
unfolding walk_decisions snapshot_walk_check_range intersect
listed_decisions = refl

walk_decisions-policy_example :
    walk_decisions listed walk_start ranges ≡ map (λ r. policy listed r.0 r.1) ranges
walk_decisions-policy_example =
    walk_decisions-policy listed ranges (omega arith) (omega arith) (omega arith)

skipped : (snapshot_walk_check_range listed walk_start 0x1000 0x2000).1 ≡ action_continue
unfolding snapshot_walk_check_range check_slow check_allowed check_default intersect
skipped = refl

skipped_subtree_example :
    let w = (snapshot_walk_check_range listed walk_start 0x1000 0x2000).0 in
    (snapshot_walk_check_range listed w 0x1800 0x1900).1 ≡ action_continue
skipped_subtree_example =
    skipped_subtree listed 0x1000 0x2000 0x1800 0x1900 (omega arith) (omega arith) (omega arith)
      (omega arith) (omega arith) (omega arith) skipped

-- The second page is excluded from an included region of four.
abbrev shadowed : TaskData
shadowed = include_range (exclude_range (fresh_task_data 7) 0x1000 0x2000) 0 0x4000

allowed_shadows_blocked_example :
    (policy shadowed 0x1000 0x2000 ≡ action_continue)
    × (walk_decisions shadowed walk_start ((0, 0x1000) ∷ (0x1000, 0x2000) ∷ [])
        ≡ action_subtree ∷ action_subtree ∷ [])
allowed_shadows_blocked_example =
    allowed_shadows_blocked shadowed (record { start = 0; end = 0x4000 })
      (record { start = 0x1000; end = 0x2000 }) 0 0x1000 0x1000 0x2000 refl refl (omega arith)
      (omega arith) (omega arith) (omega arith) (omega arith) (omega arith) (omega arith)

-- Lists whose links are a function from a node to the next one.
abbrev links : ListOps (ℕ → ℕ)
links = record {
  next = λ l n. l n;
  init_list_head = λ l n. update l n n;
  list_add = λ l new head. update (update l new (l head)) head new;
  list_del = λ l n q. if q == n then 0 else if l q == n then l n else l q;
}

links_laws : ListLaws links
links_laws = record {
  next-init_list_head = λ l n q. refl;
  next-list_add = λ l new head q ne. refl;
  next-list_del = λ l n q e f. rw (eq_false q n e, eq_false (l q) n f) refl;
}

-- A list at 100 with the node 1, to which the node 2 is added.
abbrev one_node : Nodes (ℕ → ℕ)
one_node = record {
  links = update (update (λ n. n) 100 1) 1 100;
  range = λ n. record { start = 0; end = 0x1000 };
}

list_with-Holds_example :
    Holds links
      (list_with links one_node 100 2 0x1000 0x2000)
      100
      (exclude_range listed 0x1000 0x2000).blocklist
    × Holds links
        (list_with links one_node 100 2 0x1000 0x2000)
        100
        (include_range listed 0x1000 0x2000).allowlist
list_with-Holds_example =
    list_with-Holds links links_laws one_node 100 2 0x1000 0x2000 listed (omega arith)

-- A task data at 300 with the ranges 1 and 2 in its blocklist, and the range 3 in its allowlist.
abbrev three_ranges : ℕ → ℕ
three_ranges = update (update (update (update (update (λ q. 0) 100 1) 1 2) 2 100) 200 3) 3 200

all-Once : Once (1 ∷ 2 ∷ 3 ∷ 300 ∷ [])
unfolding Once elem
all-Once = (refl, (refl, (refl, (refl, tt))))

head_apart : elem 200 (1 ∷ 2 ∷ []) ≡ false
unfolding elem
head_apart = refl

task_data_free_callback_lem_example :
    task_data_free_callback links 3 three_ranges 100 200 300 ≡ some (1 ∷ 2 ∷ 3 ∷ 300 ∷ [])
task_data_free_callback_lem_example =
    task_data_free_callback_lem links links_laws 3 three_ranges 100 200 300 (1 ∷ 2 ∷ []) (3 ∷ [])
      (visit (omega arith) (visit (omega arith) stop)) (visit (omega arith) stop) all-Once
      head_apart (omega arith) (omega arith)
