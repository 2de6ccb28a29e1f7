-- ===== src/Tests/Ends.antt =====
-- A restore of a process whose one region has grown at both ends, while another one has gone.
use afl_snapshot_lkm.Base.{ℕ, ◌≡◌, refl, true, false, none, some, [], ◌∷◌, arith}
use afl_snapshot_lkm.Task.{TaskData, get_task_data}
use afl_snapshot_lkm.Mmu.{Mmu}
use afl_snapshot_lkm.Brk.{MmOps, restore_brk}
use afl_snapshot_lkm.Snapshot.{World, Kernel, recover_snapshot}
use afl_snapshot_lkm.Snapshot.Ends.{recover_snapshot-ends}
use afl_snapshot_lkm.Tests.Files.{Positions, ops, opened}
use afl_snapshot_lkm.Tests.Threads.{
  Group, group, running, group_laws, was_killed, references, rest-Follow,
}
use afl_snapshot_lkm.Tests.Regions.{
  Single, single, mapped, single_laws, task, grown, free, grown-inside, enough,
}

-- No page is dirty, so nothing is done to the pages.
abbrev no_pages : Mmu Single ℕ
no_pages = record {
  pte_at = λ s p. 0;
  pte_none = λ v. true;
  pte_write = λ v. false;
  pte_mkwrite = λ v. v;
  page_anon = λ v. false;
  entry_bad = λ s l p. true;
  pte_offset_map = λ s p. false;
  read_frame = λ s v. 0;
  set_pte_at = λ s p v. s;
  ptep_set_wrprotect = λ s p. s;
  flush_tlb_page = λ s p. s;
  copy_to_user = λ s p v. (s, 1);
  zap_page = λ s p. s;
  walk_page_range = λ s a b. [];
  content = λ s p. 0;
  can_write = λ s p. false;
}

abbrev no_heap : MmOps (TaskData × Single)
no_heap = record {
  brk = λ m. 0;
  set_brk = λ m a. m;
  vm_munmap = λ m a n. (m, false);
  vm_brk = λ m a n. (m, false);
  find_vma = λ m a. none;
}

abbrev one_region : Kernel Positions Single ℕ Group
one_region = record { mmu = no_pages; mm = no_heap; vma = single; file = ops; thread = group }

abbrev grown_world : World Positions Single Group
grown_world = record {
  tasks = task ∷ [];
  cache = record { last_task = λ cpu. none; last_task_data = λ cpu. none };
  files = opened;
  space = grown.1;
  threads = running;
  regs = 5;
}

task_found : get_task_data grown_world.tasks 4 ≡ some task
unfolding get_task_data
task_found = refl

recover_snapshot-ends_example :
    (w' : World Positions Single Group) × (recover_snapshot one_region 10 grown_world 4
      ≡ some (w', 0))
unfolding restore_brk
recover_snapshot-ends_example =
    recover_snapshot-ends one_region was_killed references group_laws mapped single_laws 10
      grown_world 4 task (4 ∷ 5 ∷ []) ((0x1000, 0x5000) ∷ []) task_found rest-Follow (omega arith)
      (λ m a n prot p q r s t. refl) (1, refl, refl, refl, refl) (omega arith) (omega arith) free
      grown-inside enough
