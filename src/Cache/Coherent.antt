-- ===== src/Cache/Coherent.antt =====
-- Coherence of the per-CPU cache of src/memory.c with the list of src/task_data.c.
use afl_snapshot_lkm.Base.{
  ℕ, ◌≡◌, refl, Bool, true, false, Option, none, some, List, some-injective, ◌==◌, if◌then◌else◌,
  arith, ==_iff, ap, ◌∙◌, sym, ◌⊎◌, inl, inr, Bool-cases, subst,
}
use afl_snapshot_lkm.Task.{
  TaskData, get_task_data, ensure_task_data, remove_task_data, have_snapshot, fresh_task_data,
}
use afl_snapshot_lkm.Task.Listed.{
  put_task_data, get-put, get-remove-other, get-ensure, get_task_data-tsk,
}
use afl_snapshot_lkm.Cache.{
  Cache, is_task, pointer, get_task_data_with_cache, invalidate_task_data_cache,
}

-- Whether the task has a snapshot, which is what a hook asks before it does anything.
abbrev pub is_snapshotted : Option TaskData → Bool
is_snapshotted none = false
is_snapshotted (some d) = have_snapshot d

-- A cached pointer is the one of the list, or null where the data has no snapshot.
abbrev pub Sound : Option TaskData → Option ℕ → Type 0
Sound found r = (r ≡ pointer found) ⊎ ((r ≡ none) × (is_snapshotted found ≡ false))

abbrev pub Coherent : List TaskData → Cache → Type 0
Coherent ds c =
    (cpu task : ℕ)
    → c.last_task cpu ≡ some task
    → Sound (get_task_data ds task) (c.last_task_data cpu)

-- What happens to the list and the cache, in the order in which the functions of the module do it.
pub data Event (ds : List TaskData) (c : Cache) (ds' : List TaskData) (c' : Cache) : Type 0 where
  -- a hook runs on a CPU
  looked_up :
      (cpu task : ℕ)
      → ds' ≡ ds
      → c' ≡ (get_task_data_with_cache ds c cpu task).0
      → Event ds c ds' c'
  -- `take_snapshot`, `exclude_vmrange` and `include_vmrange` begin with this
  ensured :
      (alloc : Bool) (task : ℕ)
      → ds' ≡ (ensure_task_data alloc ds task).0
      → c' ≡ c
      → Event ds c ds' c'
  -- the data is written, and its snapshot is not newly made
  written :
      (d : TaskData)
      → (have_snapshot d ≡ true → is_snapshotted (get_task_data ds d.tsk) ≡ true)
      → ds' ≡ put_task_data ds d
      → c' ≡ c
      → Event ds c ds' c'
  -- `initialize_snapshot` and `take_memory_snapshot`: the data is written, then the task is dropped
  -- from the caches
  taken :
      (d : TaskData)
      → ds' ≡ put_task_data ds d
      → c' ≡ invalidate_task_data_cache c d.tsk
      → Event ds c ds' c'
  -- `clean_snapshot`: the task is dropped from the caches and its data from the list
  cleaned :
      (d : TaskData)
      → ds' ≡ remove_task_data ds d
      → c' ≡ invalidate_task_data_cache c d.tsk
      → Event ds c ds' c'

-- A task that the cache still has after it has been dropped is another one, and was there before.
invalidate-kept :
    (c : Cache) (t cpu task : ℕ)
    → (invalidate_task_data_cache c t).last_task cpu ≡ some task
    → ((t == task) ≡ false)
      × (c.last_task cpu ≡ some task)
      × ((invalidate_task_data_cache c t).last_task_data cpu ≡ c.last_task_data cpu)
unfolding invalidate_task_data_cache
invalidate-kept c t cpu task h = ground arith

is_task-is : (o : Option ℕ) (t : ℕ) → is_task o t ≡ true → o ≡ some t
is_task-is none t h = absurd (cc)
is_task-is (some u) t h = ap (λ x. some x) ((==_iff u t).0 h)

-- What a cached lookup returns is sound,
pub lookup-result :
    (ds : List TaskData) (c : Cache) (cpu task : ℕ)
    → Coherent ds c
    → Sound (get_task_data ds task) (get_task_data_with_cache ds c cpu task).1
unfolding get_task_data_with_cache
lookup-result ds c cpu task h = elim (Bool-cases (is_task (c.last_task cpu) task)) [
  | inl y ↦ rw (y, get_task_data_with_cache) (h cpu task (is_task-is _ task y))
  | inr n ↦ rw (n, get_task_data_with_cache) (inl refl)
]

-- and what it caches is.
lookup-Coherent :
    (ds : List TaskData) (c : Cache) (cpu task : ℕ)
    → Coherent ds c
    → Coherent ds (get_task_data_with_cache ds c cpu task).0
unfolding get_task_data_with_cache
lookup-Coherent ds c cpu task h i q = elim (Bool-cases (is_task (c.last_task cpu) task)) [
  | inl y ↦ rw (y, get_task_data_with_cache) (h i q)
  | inr n ↦ elim (Bool-cases (cpu == i)) [
    | inl e ↦
        rw (n, get_task_data_with_cache, e)
          (λ z. inl (ap (λ t. pointer (get_task_data ds t)) (some-injective _ _ z)))
    | inr e ↦ rw (n, get_task_data_with_cache, e) (h i q)
  ]
]

-- A new task data has no snapshot.
ensured-Sound :
    (alloc : Bool) (o : Option TaskData) (t : ℕ) (r : Option ℕ)
    → Sound o r
    → Sound (elim o [ some d ↦ some d | none ↦ if alloc then some (fresh_task_data t) else none ]) r
ensured-Sound alloc (some d) t r h = h
ensured-Sound true none t r (inl x) = inr (x, refl)
ensured-Sound true none t r (inr x) = inr (x.0, refl)
ensured-Sound false none t r h = h

ensure-Coherent :
    (alloc : Bool) (ds : List TaskData) (c : Cache) (t : ℕ)
    → Coherent ds c
    → Coherent (ensure_task_data alloc ds t).0 c
ensure-Coherent alloc ds c t h i q e =
    let g = get-ensure alloc ds t q in
    elim (Bool-cases (t == q)) [
      | inl y ↦
          let same : get_task_data ds q ≡ get_task_data ds t =
            sym (ap (get_task_data ds) ((==_iff t q).0 y)) in
          subst (λ x. Sound x (c.last_task_data i)) (sym (g ∙ rw y refl))
            (ensured-Sound alloc (get_task_data ds t) t _ (rw (← same) (h i q e)))
      | inr y ↦ subst (λ x. Sound x (c.last_task_data i)) (sym (g ∙ rw y refl)) (h i q e)
    ]

written-Sound :
    (o : Option TaskData) (d : TaskData) (r : Option ℕ)
    → (have_snapshot d ≡ true → is_snapshotted o ≡ true)
    → ((e : TaskData) → o ≡ some e → e.tsk ≡ d.tsk)
    → Sound o r
    → Sound (elim o [ some e ↦ some d | none ↦ none ]) r
written-Sound none d r w t h = h
written-Sound (some e) d r w t (inl x) = inl (x ∙ ap (λ n. some n) (t e refl))
written-Sound (some e) d r w t (inr (n, u)) = elim (Bool-cases (have_snapshot d)) [
  | inl y ↦ absurd (let z = w y in cc)
  | inr y ↦ inr (n, y)
]

written-Coherent :
    (ds : List TaskData) (c : Cache) (d : TaskData)
    → (have_snapshot d ≡ true → is_snapshotted (get_task_data ds d.tsk) ≡ true)
    → Coherent ds c
    → Coherent (put_task_data ds d) c
written-Coherent ds c d w h i q e =
    let g = get-put ds d q in
    elim (Bool-cases (d.tsk == q)) [
      | inl y ↦
          let same = ap (get_task_data ds) ((==_iff d.tsk q).0 y) in
          subst (λ x. Sound x (c.last_task_data i)) (sym (g ∙ rw y refl))
            (written-Sound (get_task_data ds q) d _ (λ z. ap is_snapshotted (sym same) ∙ w z)
              (λ t z. get_task_data-tsk ds q t z ∙ sym ((==_iff d.tsk q).0 y)) (h i q e))
      | inr y ↦ subst (λ x. Sound x (c.last_task_data i)) (sym (g ∙ rw y refl)) (h i q e)
    ]

taken-Coherent :
    (ds : List TaskData) (c : Cache) (d : TaskData)
    → Coherent ds c
    → Coherent (put_task_data ds d) (invalidate_task_data_cache c d.tsk)
taken-Coherent ds c d h i q e =
    let k = invalidate-kept c d.tsk i q e in
    let g : get_task_data (put_task_data ds d) q ≡ get_task_data ds q =
      get-put ds d q ∙ rw k.0 refl in
    rw (g, k.2) (h i q k.1)

cleaned-Coherent :
    (ds : List TaskData) (c : Cache) (d : TaskData)
    → Coherent ds c
    → Coherent (remove_task_data ds d) (invalidate_task_data_cache c d.tsk)
cleaned-Coherent ds c d h i q e =
    let k = invalidate-kept c d.tsk i q e in rw (get-remove-other ds d q k.0, k.2) (h i q k.1)

pub Event-Coherent :
    (ds : List TaskData) (c : Cache) (ds' : List TaskData) (c' : Cache)
    → Event ds c ds' c'
    → Coherent ds c
    → Coherent ds' c'
Event-Coherent ds c ds' c' (looked_up cpu task d e) h = rw (d, e) (lookup-Coherent ds c cpu task h)
Event-Coherent ds c ds' c' (ensured alloc task d e) h =
    rw (d, e) (ensure-Coherent alloc ds c task h)
Event-Coherent ds c ds' c' (written t w d e) h = rw (d, e) (written-Coherent ds c t w h)
Event-Coherent ds c ds' c' (taken t d e) h = rw (d, e) (taken-Coherent ds c t h)
Event-Coherent ds c ds' c' (cleaned t d e) h = rw (d, e) (cleaned-Coherent ds c t h)
