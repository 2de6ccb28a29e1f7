-- ===== src/Memory/RoundTrip.antt =====
-- From `take_memory_snapshot` to `recover_memory_snapshot`, src/memory.c.
use afl_snapshot_lkm.Base.{ℕ, ◌≡◌, ◌∙◌, Bool, true, false, Option, none, some, List, [], elem}
use afl_snapshot_lkm.Task.{TaskData, SnapshotVma, have_snapshot}
use afl_snapshot_lkm.Mmu.{Mmu, MmuLaws, AllMapped}
use afl_snapshot_lkm.Memory.Recover.{recover_dirty}
use afl_snapshot_lkm.Memory.Take.{Vma, WalkState, take_memory_snapshot}
use afl_snapshot_lkm.Memory.Take.Establish.{
  Calls, promise_of, promise_of-content, take_memory_snapshot-Inv,
}
use afl_snapshot_lkm.Memory.Session.{Reach}
use afl_snapshot_lkm.Memory.Session.Safe.{restore_exact}

pub take_restore :
    {S P : Type 0} (k : Mmu S P) (backing : ℕ → ℕ) (kmalloc : ℕ → Option SnapshotVma)
    (walk_page_vma : WalkState S → Vma → WalkState S × Bool) (start_stack : ℕ) (vmas : List Vma)
    (d : TaskData) (s : S) (d' : TaskData) (s' : S) (p c : ℕ)
    → MmuLaws k backing
    → ((st : WalkState S) (vma : Vma) → Calls k st (walk_page_vma st vma).0)
    → have_snapshot d ≡ true
    → d.ss.dirty_pages ≡ []
    → ((q : ℕ) → d.ss.ss_pages q ≡ none)
    → ((q : ℕ) → k.pte_none (k.pte_at s q) ≡ true → k.content s q ≡ backing q)
    → let taken = take_memory_snapshot k kmalloc walk_page_vma start_stack vmas d s in
      Reach k taken.0 taken.1 d' s'
      → AllMapped k s' d'.ss.dirty_pages
      → promise_of k s taken.0 p ≡ some c
      → let r = recover_dirty k d' s' in
        (k.content r.1 p ≡ k.content s p)
        × (k.pte_write (k.pte_at r.1 p) ≡ false)
        × (elem p r.0.ss.dirty_pages ≡ false)
take_restore k backing kmalloc walk start_stack vmas d s d' s' p c laws calls m l t b reach mapped
      w =
    let taken = take_memory_snapshot k kmalloc walk start_stack vmas d s in
    let i =
      take_memory_snapshot-Inv k backing laws s kmalloc walk start_stack vmas d calls m l t b in
    let r =
      restore_exact k backing laws (promise_of k s taken.0) taken.0 taken.1 d' s' p c i reach mapped
        w in
    (r.0 ∙ promise_of-content k s taken.0 p c w, r.1, r.2)
