-- ===== src/Memory/Take/Selected.antt =====
-- Which regions `take_memory_snapshot` of src/memory.c notes and which it snapshots.
use afl_snapshot_lkm.Base.{
  ℕ, ◌≡◌, refl, sym, ap, ◌∙◌, subst, Bool, true, false, not, ◌&&◌, if◌then◌else◌, Option, List, [],
  ◌∷◌, ◌++◌, has_flag, is_some, arith, Bool-cases, Option-cases, inl, inr,
}
use afl_snapshot_lkm.Task.{SnapshotVma, Snapshot, TaskData}
use afl_snapshot_lkm.Ranges.{intersect_allowlist, afl_snapshot_block, afl_snapshot_nostack}
use afl_snapshot_lkm.Ranges.Policy.{overlapping, intersect-none, intersect-some}
use afl_snapshot_lkm.Mmu.{Mmu}
use afl_snapshot_lkm.Memory.Take.{
  Vma, WalkState, take_vma, take_vmas, take_memory_snapshot, add_snapshot_vma, is_skipped, is_stack,
  vm_write, vm_shared, recorded_prot, list_snapshotted,
}
use afl_snapshot_lkm.Memory.Take.Establish.{Calls}
use afl_snapshot_lkm.Memory.Take.Kept.{Kept, Calls-WalkKept, take_vma-Kept}

-- The regions that a snapshot is to have: those that meet a range of the allowlist; and without
-- AFL_SNAPSHOT_BLOCK the private writable ones, with AFL_SNAPSHOT_NOSTACK except for the stack.
unfoldable pub is_selected : TaskData → ℕ → Vma → Bool
is_selected d start_stack v =
    if overlapping d.allowlist v.vm_start v.vm_end
    then true
    else if has_flag afl_snapshot_block d.config
    then false
    else if has_flag afl_snapshot_nostack d.config && is_stack v start_stack
    then false
    else has_flag vm_write v.vm_flags && not (has_flag vm_shared v.vm_flags)

is_skipped-selected :
    (d : TaskData) (start_stack : ℕ) (v : Vma)
    → is_skipped d v start_stack ≡ not (is_selected d start_stack v)
unfolding is_skipped is_selected
is_skipped-selected d start_stack v =
    elim (Option-cases (intersect_allowlist d v.vm_start v.vm_end)) [
      | inl e ↦ ground (arith, intersect-none d.allowlist v.vm_start v.vm_end e)
      | inr e ↦ ground (arith, intersect-some d.allowlist v.vm_start v.vm_end e.0 e.1)
    ]

pub is_selected-Kept :
    (start_stack : ℕ) (d e : TaskData) (v : Vma)
    → Kept d e
    → is_selected e start_stack v ≡ is_selected d start_stack v
unfolding is_selected
is_selected-Kept start_stack d e v h =
    let config = ap (λ x. x.0.1) h in
    let allowlist = ap (λ x. x.0.5) h in rw (config, allowlist) refl

pub skipped-selected :
    (d : TaskData) (x : Snapshot) (start_stack : ℕ) (v : Vma)
    → is_skipped (record d { ss = x }) v start_stack ≡ not (is_selected d start_stack v)
unfolding is_selected
skipped-selected d x start_stack v = is_skipped-selected (record d { ss = x }) start_stack v

abbrev pub bounds : List SnapshotVma → List (ℕ × ℕ)
bounds [] = []
bounds (r ∷ rs) = (r.vm_start, r.vm_end) ∷ bounds rs

abbrev pub vma_bounds : List Vma → List (ℕ × ℕ)
vma_bounds [] = []
vma_bounds (v ∷ vs) = (v.vm_start, v.vm_end) ∷ vma_bounds vs

abbrev pub selected : TaskData → ℕ → List Vma → List Vma
selected d start_stack [] = []
selected d start_stack (v ∷ vs) =
    if is_selected d start_stack v then v ∷ selected d start_stack vs else selected d start_stack vs

bounds-nil : (bs : List (ℕ × ℕ)) → bs ++ [] ≡ bs
bounds-nil [] = refl
bounds-nil (b ∷ bs) = ap (λ x. b ∷ x) (bounds-nil bs)

bounds-snoc :
    (rs : List SnapshotVma) (r : SnapshotVma) (bs : List (ℕ × ℕ))
    → bounds (rs ++ r ∷ []) ++ bs ≡ bounds rs ++ (r.vm_start, r.vm_end) ∷ bs
bounds-snoc [] r bs = refl
bounds-snoc (q ∷ rs) r bs = ap (λ x. (q.vm_start, q.vm_end) ∷ x) (bounds-snoc rs r bs)

module _ {S P : Type 0} (k : Mmu S P) (kmalloc : ℕ → Option SnapshotVma)
    (walk_page_vma : WalkState S → Vma → WalkState S × Bool) (start_stack : ℕ)
    (calls : (st : WalkState S) (vma : Vma) → Calls k st (walk_page_vma st vma).0)
    (walked : (st : WalkState S) (vma : Vma) → (walk_page_vma st vma).1 ≡ true)
    (memory : (a : ℕ) → is_some (kmalloc a) ≡ true) where
  -- What a round puts in the two lists for a region.
  abbrev Listed : WalkState S → Vma → WalkState S × Bool → Type 0
  Listed st vma r =
      (v : SnapshotVma) × (v.vm_start ≡ vma.vm_start)
      × (v.vm_end ≡ vma.vm_end)
      × (r.1 ≡ true)
      × (r.0.task.ss.all_vmas ≡ st.task.ss.all_vmas ++ v ∷ [])
      × (r.0.task.ss.snapshotted_vmas ≡ (
          if is_selected st.task start_stack vma
          then st.task.ss.snapshotted_vmas ++ v ∷ []
          else st.task.ss.snapshotted_vmas))

  take_vma-Listed :
      (st : WalkState S) (vma : Vma)
      → Listed st vma (take_vma k (kmalloc vma.vm_start) walk_page_vma start_stack st vma)
  unfolding take_vma add_snapshot_vma
  take_vma-Listed st vma = elim (Option-cases (kmalloc vma.vm_start)) [
    | inl e ↦ absurd (let m = memory vma.vm_start in ground arith)
    | inr e ↦
        subst (λ x. Listed st vma (take_vma k x walk_page_vma start_stack st vma)) (sym e.1)
          (elim (Bool-cases (is_selected st.task start_stack vma)) [
            | inl s ↦
                let q : is_skipped (noted e.0) vma start_stack ≡ false =
                  skipped-selected st.task (noted e.0).ss start_stack vma ∙ ap not s in
                let w = record st { task = list_snapshotted (noted e.0) (entered e.0) } in
                let c = Calls-WalkKept k w (calls w vma) in
                (
                  entered e.0,
                  refl,
                  refl,
                  rw q (walked w vma),
                  rw q (ap (λ x. x.1) c),
                  rw (s, q) (ap (λ x. x.2) c),
                )
            | inr s ↦
                let q : is_skipped (noted e.0) vma start_stack ≡ true =
                  skipped-selected st.task (noted e.0).ss start_stack vma ∙ ap not s in
                (entered e.0, refl, refl, rw q refl, rw q refl, rw (s, q) refl)
          ])
  ]
    where
      entered : SnapshotVma → SnapshotVma
      entered m = record {
        vm_start = vma.vm_start;
        vm_end = vma.vm_end;
        is_anonymous_private = vma.is_anonymous && not (has_flag vm_shared vma.vm_flags);
        prot = recorded_prot vma.vm_flags m.prot;
      }

      noted : SnapshotVma → TaskData
      noted m = record (st.task) {
        ss = record (st.task.ss) { all_vmas = st.task.ss.all_vmas ++ entered m ∷ [] };
      }

  selected-Kept :
      (d e : TaskData) (vs : List Vma)
      → Kept d e
      → selected e start_stack vs ≡ selected d start_stack vs
  selected-Kept d e [] h = refl
  selected-Kept d e (v ∷ vs) h =
      rw (is_selected-Kept start_stack d e v h, selected-Kept d e vs h) refl

  -- What the loop puts in the two lists.
  abbrev AllListed : WalkState S → List Vma → WalkState S × Bool → Type 0
  AllListed st vmas r =
      (r.1 ≡ true)
      × (bounds r.0.task.ss.all_vmas ≡ bounds st.task.ss.all_vmas ++ vma_bounds vmas)
      × (bounds r.0.task.ss.snapshotted_vmas
          ≡ bounds st.task.ss.snapshotted_vmas ++ vma_bounds (selected st.task start_stack vmas))

  take_vmas-Listed :
      (st : WalkState S) (vmas : List Vma)
      → AllListed st vmas (take_vmas k kmalloc walk_page_vma start_stack st vmas)
  unfolding take_vmas
  take_vmas-Listed st [] = (refl, sym (bounds-nil _), sym (bounds-nil _))
  take_vmas-Listed st (vma ∷ vmas) =
      let r = take_vma k (kmalloc vma.vm_start) walk_page_vma start_stack st vma in
      let (v, start, end, ok, all, snapshotted) = take_vma-Listed st vma in
      let kept = take_vma-Kept k kmalloc walk_page_vma start_stack calls st vma in
      let step : take_vmas k kmalloc walk_page_vma start_stack st (vma ∷ vmas)
          ≡ take_vmas k kmalloc walk_page_vma start_stack r.0 vmas =
        rw (take_vmas, ok) refl in
      let later = take_vmas-Listed r.0 vmas in
      let same = selected-Kept st.task r.0.task vmas kept in
      (
        ap (λ x. x.1) step ∙ later.0,
        ap (λ x. bounds x.0.task.ss.all_vmas) step
            ∙ later.1
            ∙ rw all (bounds-snoc st.task.ss.all_vmas v (vma_bounds vmas) ∙ rw (start, end) refl),
        ap (λ x. bounds x.0.task.ss.snapshotted_vmas) step
            ∙ later.2
            ∙ elim (Bool-cases (is_selected st.task start_stack vma)) [
              | inl e ↦
                  rw (snapshotted, same, e)
                    (bounds-snoc st.task.ss.snapshotted_vmas v
                        (vma_bounds (selected st.task start_stack vmas))
                      ∙ rw (start, end) refl)
              | inr e ↦ rw (snapshotted, same, e) refl
            ],
      )

  -- `take_memory_snapshot` notes every region of the process, in order, and snapshots exactly those that
  -- are selected: the regions that meet a range of the allowlist, and without AFL_SNAPSHOT_BLOCK the
  -- private writable ones, with AFL_SNAPSHOT_NOSTACK but for the stack. The conditions: memory for
  -- every region can be had, every walk over a region returns 0, and a walk does nothing but call the
  -- entries.
  pub take_memory_snapshot-Listed :
      (vmas : List Vma) (d : TaskData) (s : S)
      → let r = take_memory_snapshot k kmalloc walk_page_vma start_stack vmas d s in
        (r.2 ≡ true)
        × (bounds r.0.ss.all_vmas ≡ bounds d.ss.all_vmas ++ vma_bounds vmas)
        × (bounds r.0.ss.snapshotted_vmas
            ≡ bounds d.ss.snapshotted_vmas ++ vma_bounds (selected d start_stack vmas))
  unfolding take_memory_snapshot
  take_memory_snapshot-Listed vmas d s = take_vmas-Listed _ vmas
