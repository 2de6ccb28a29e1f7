-- ===== src/Task/Listed.antt =====
-- The list of task data of src/task_data.c as a map from tasks to their data.
use afl_snapshot_lkm.Base.{
  ℕ, ◌≡◌, refl, Bool, true, false, none, some, List, [], ◌∷◌, ◌==◌, if◌then◌else◌, arith, ==_iff,
  eq_refl, ap, Option-cases, Bool-cases, sym, ◌∙◌, inl, inr,
}
use afl_snapshot_lkm.Task.{
  TaskData, fresh_task_data, get_task_data, ensure_task_data, remove_task_data,
}

-- A write through a pointer to the data of `d.tsk`.
unfoldable pub put_task_data : List TaskData → TaskData → List TaskData
put_task_data [] d = []
put_task_data (e ∷ ds) d = if e.tsk == d.tsk then d ∷ ds else e ∷ put_task_data ds d

pub get_task_data-cons :
    (d : TaskData) (ds : List TaskData) (t : ℕ)
    → get_task_data (d ∷ ds) t ≡ (if d.tsk == t then some d else get_task_data ds t)
unfolding get_task_data
get_task_data-cons d ds t = refl

-- What is found belongs to the task.
pub get_task_data-tsk :
    (ds : List TaskData) (t : ℕ) (d : TaskData) → get_task_data ds t ≡ some d → d.tsk ≡ t
unfolding get_task_data
get_task_data-tsk [] t d h = absurd (cc)
get_task_data-tsk (e ∷ ds) t d h = ground (arith, get_task_data-tsk ds t d)

pub get-put :
    (ds : List TaskData) (d : TaskData) (t : ℕ)
    → get_task_data (put_task_data ds d) t ≡ (
        if d.tsk == t
        then elim (get_task_data ds t) [ some e ↦ some d | none ↦ none ]
        else get_task_data ds t)
unfolding get_task_data put_task_data
get-put [] d t = ground arith
get-put (e ∷ ds) d t = ground (arith, get-put ds d t)

-- The list after a write to the data of `current`.
pub put_current :
    (ds : List TaskData) (current : ℕ) (d d' : TaskData)
    → get_task_data ds current ≡ some d
    → d'.tsk ≡ current
    → get_task_data (put_task_data ds d') current ≡ some d'
put_current ds current d d' h e =
    get-put ds d' current ∙ rw (ap (λ x. x == current) e ∙ eq_refl current) (rw h refl)

pub put_other :
    (ds : List TaskData) (current q : ℕ) (d' : TaskData)
    → d'.tsk ≡ current
    → (current == q) ≡ false
    → get_task_data (put_task_data ds d') q ≡ get_task_data ds q
put_other ds current q d' e z = get-put ds d' q ∙ rw (ap (λ x. x == q) e ∙ z) refl

pub get-remove-other :
    (ds : List TaskData) (d : TaskData) (t : ℕ)
    → (d.tsk == t) ≡ false
    → get_task_data (remove_task_data ds d) t ≡ get_task_data ds t
unfolding get_task_data remove_task_data
get-remove-other [] d t h = refl
get-remove-other (e ∷ ds) d t h = ground (arith, get-remove-other ds d t h)

pub get-ensure :
    (alloc : Bool) (ds : List TaskData) (t q : ℕ)
    → get_task_data (ensure_task_data alloc ds t).0 q ≡ (
        if t == q
        then elim (get_task_data ds t) [
          | some d ↦ some d
          | none ↦ if alloc then some (fresh_task_data t) else none
        ]
        else get_task_data ds q)
unfolding ensure_task_data
get-ensure alloc ds t q =
    let known : (t == q) ≡ true → get_task_data ds t ≡ get_task_data ds q =
      λ e. ap (get_task_data ds) ((==_iff t q).0 e) in
    let added = get_task_data-cons (fresh_task_data t) ds q in
    elim (Option-cases (get_task_data ds t)) [
      | inl n ↦ rw n ground arith
      | inr (d, y) ↦ rw y ground arith
    ]

-- Each task has one entry at most.
unfoldable pub Distinct : List TaskData → Type 0
Distinct [] = Unit
Distinct (d ∷ ds) = (get_task_data ds d.tsk ≡ none) × Distinct ds

pub ensure-Distinct :
    (alloc : Bool) (ds : List TaskData) (t : ℕ)
    → Distinct ds
    → Distinct (ensure_task_data alloc ds t).0
unfolding ensure_task_data Distinct
ensure-Distinct alloc ds t u = elim (Option-cases (get_task_data ds t)) [
  | inl n ↦ elim (Bool-cases alloc) [
    | inl a ↦ rw (ensure_task_data, n, a, Distinct) (n, u)
    | inr a ↦ rw (ensure_task_data, n, a) u
  ]
  | inr (d, y) ↦ rw (ensure_task_data, y) u
]

-- A task data that is removed is not found any more.
pub get-remove :
    (ds : List TaskData) (d : TaskData)
    → Distinct ds
    → get_task_data (remove_task_data ds d) d.tsk ≡ none
unfolding Distinct get_task_data remove_task_data
get-remove [] d u = refl
get-remove (e ∷ ds) d u = elim (Bool-cases (e.tsk == d.tsk)) [
  | inl y ↦ rw y (ap (get_task_data ds) (sym ((==_iff e.tsk d.tsk).0 y)) ∙ u.0)
  | inr y ↦ rw (y, get_task_data, y) (get-remove ds d u.1)
]

pub put-Distinct : (ds : List TaskData) (d : TaskData) → Distinct ds → Distinct (put_task_data ds d)
unfolding Distinct put_task_data
put-Distinct [] d u = u
put-Distinct (e ∷ ds) d u = elim (Bool-cases (e.tsk == d.tsk)) [
  | inl y ↦
      rw (put_task_data, y, Distinct)
        (ap (get_task_data ds) (sym ((==_iff e.tsk d.tsk).0 y)) ∙ u.0, u.1)
  | inr y ↦
      let apart : (d.tsk == e.tsk) ≡ false = ground (arith, y) in
      rw (put_task_data, y, Distinct)
        (get-put ds d e.tsk ∙ rw (apart, u.0) refl, put-Distinct ds d u.1)
]

pub remove-Distinct :
    (ds : List TaskData) (d : TaskData) → Distinct ds → Distinct (remove_task_data ds d)
unfolding Distinct remove_task_data
remove-Distinct [] d u = u
remove-Distinct (e ∷ ds) d u = elim (Bool-cases (e.tsk == d.tsk)) [
  | inl y ↦ rw (remove_task_data, y) u.1
  | inr y ↦
      let apart : (d.tsk == e.tsk) ≡ false = ground (arith, y) in
      rw (remove_task_data, y, Distinct)
        (get-remove-other ds d e.tsk apart ∙ u.0, remove-Distinct ds d u.1)
]
