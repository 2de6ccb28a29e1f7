-- ===== src/System/Tasks.antt =====
-- The list of task data under the operations of src/task_data.c.
use afl_snapshot_lkm.Base.{
  ℕ, ◌≡◌, refl, ◌==◌, Bool, true, false, if◌then◌else◌, none, some, some-injective, List, ◌∙◌, sym,
  ap, arith, subst, Bool-cases, Option-cases, ◌⊎◌, inl, inr, ==_iff,
}
use afl_snapshot_lkm.Task.{
  TaskData, fresh_task_data, get_task_data, ensure_task_data, remove_task_data, have_snapshot,
}
use afl_snapshot_lkm.Task.Listed.{
  Distinct, put_task_data, get-put, get-remove, get-remove-other, ensure-Distinct, put-Distinct,
  remove-Distinct, get_task_data-cons,
}
use afl_snapshot_lkm.Cache.{Cache, invalidate_task_data_cache}
use afl_snapshot_lkm.Cache.Coherent.{
  Coherent, ensured, written, taken, cleaned, Event-Coherent, is_snapshotted,
}
use afl_snapshot_lkm.System.Lived.{Lived}

-- Each task has one data at most, which has no snapshot or a whole one, and no CPU has another
-- pointer in its cache.
pub record Consistent (ds : List TaskData) (c : Cache) : Type 0 where
  pub distinct : Distinct ds
  pub coherent : Coherent ds c
  pub lived : (t : ℕ) (d : TaskData) → get_task_data ds t ≡ some d → Lived d

-- What is found after `ensure_task_data` was there, or is new.
ensured_is :
    (alloc : Bool) (ds : List TaskData) (t q : ℕ) (d : TaskData)
    → get_task_data (ensure_task_data alloc ds t).0 q ≡ some d
    → (get_task_data ds q ≡ some d) ⊎ (d ≡ fresh_task_data t)
unfolding ensure_task_data
ensured_is alloc ds t q d e =
    let added = get_task_data-cons (fresh_task_data t) ds q in
    elim (Option-cases (get_task_data ds t)) [
      | inr (x, y) ↦ inl (sym (rw (ensure_task_data, y) refl) ∙ e)
      | inl n ↦ elim (Bool-cases alloc) [
        | inr a ↦ inl (sym (rw (ensure_task_data, n, a) refl) ∙ e)
        | inl a ↦
            by_task (Bool-cases (t == q)) (sym added ∙ sym (rw (ensure_task_data, n, a) refl) ∙ e)
      ]
    ]
  where
    by_task :
        ((t == q) ≡ true) ⊎ ((t == q) ≡ false)
        → (if t == q then some (fresh_task_data t) else get_task_data ds q) ≡ some d
        → (get_task_data ds q ≡ some d) ⊎ (d ≡ fresh_task_data t)
    by_task (inl y) g = inr (sym (some-injective _ _ (sym (rw y refl) ∙ g)))
    by_task (inr y) g = inl (sym (rw y refl) ∙ g)

pub ensure-Consistent :
    (alloc : Bool) (ds : List TaskData) (c : Cache) (t : ℕ)
    → Consistent ds c
    → Consistent (ensure_task_data alloc ds t).0 c
ensure-Consistent alloc ds c t h = record {
  distinct = ensure-Distinct alloc ds t h.distinct;
  coherent = Event-Coherent ds c _ c (ensured alloc t refl refl) h.coherent;
  lived = λ q d e. elim (ensured_is alloc ds t q d e) [
    | inl y ↦ h.lived q d y
    | inr y ↦ inl (ap (λ x. x.ss) y)
  ];
}

put-Lived :
    (ds : List TaskData) (d : TaskData)
    → Lived d
    → ((t : ℕ) (e : TaskData) → get_task_data ds t ≡ some e → Lived e)
    → (t : ℕ) (e : TaskData) → get_task_data (put_task_data ds d) t ≡ some e
    → Lived e
put-Lived ds d l h t e g =
    let p = get-put ds d t in
    elim (Bool-cases (d.tsk == t)) [
      | inr y ↦ h t e (sym (p ∙ rw y refl) ∙ g)
      | inl y ↦ elim (Option-cases (get_task_data ds t)) [
        | inl n ↦ absurd (ground arith)
        | inr (x, n) ↦
            let same : d ≡ e = some-injective _ _ (sym (p ∙ rw y (rw n refl)) ∙ g) in
            subst Lived same l
      ]
    ]

-- A write to the data of a task that makes no snapshot,
pub write-Consistent :
    (ds : List TaskData) (c : Cache) (d : TaskData)
    → Lived d
    → (have_snapshot d ≡ true → is_snapshotted (get_task_data ds d.tsk) ≡ true)
    → Consistent ds c
    → Consistent (put_task_data ds d) c
write-Consistent ds c d l w h = record {
  distinct = put-Distinct ds d h.distinct;
  coherent = Event-Coherent ds c _ c (written d w refl refl) h.coherent;
  lived = put-Lived ds d l h.lived;
}

-- and one that does, with the caches cleared of the task.
pub take-Consistent :
    (ds : List TaskData) (c : Cache) (d : TaskData)
    → Lived d
    → Consistent ds c
    → Consistent (put_task_data ds d) (invalidate_task_data_cache c d.tsk)
take-Consistent ds c d l h = record {
  distinct = put-Distinct ds d h.distinct;
  coherent = Event-Coherent ds c _ _ (taken d refl refl) h.coherent;
  lived = put-Lived ds d l h.lived;
}

-- The data of a task is dropped, which need not be as it was found.
pub clean-Consistent :
    (ds : List TaskData) (c : Cache) (d : TaskData)
    → have_snapshot d ≡ false
    → Consistent ds c
    → Consistent (remove_task_data (put_task_data ds d) d) (invalidate_task_data_cache c d.tsk)
clean-Consistent ds c d n h =
    let ds' = put_task_data ds d in
    let u = put-Distinct ds d h.distinct in
    record {
      distinct = remove-Distinct ds' d u;
      coherent =
          Event-Coherent ds' c _ _ (cleaned d refl refl)
            (Event-Coherent ds c _ c (written d (λ z. absurd (cc)) refl refl) h.coherent);
      lived = λ t e g. by_task t e g (Bool-cases (d.tsk == t)) (get-remove ds' d u);
    }
  where
    by_task :
        (t : ℕ) (e : TaskData)
        → get_task_data (remove_task_data (put_task_data ds d) d) t ≡ some e
        → ((d.tsk == t) ≡ true) ⊎ ((d.tsk == t) ≡ false)
        → get_task_data (remove_task_data (put_task_data ds d) d) d.tsk ≡ none
        → Lived e
    by_task t e g (inl y) z = absurd (
        let z' =
          subst (λ x. get_task_data (remove_task_data (put_task_data ds d) d) x ≡ none)
            ((==_iff d.tsk t).0 y) z in
        cc)
    by_task t e g (inr y) z =
        h.lived t e
          (sym (get-remove-other (put_task_data ds d) d t y ∙ get-put ds d t ∙ rw y refl) ∙ g)
