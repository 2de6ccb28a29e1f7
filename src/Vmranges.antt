-- ===== src/Vmranges.antt =====
-- `exclude_vmrange` and `include_vmrange`, src/memory.c, on the list of task data.
use afl_snapshot_lkm.Base.{
  ℕ, ◌≡◌, refl, Bool, true, none, some, List, ◌==◌, if◌then◌else◌, Option-cases, Bool-cases, inl,
  inr, ap, subst, ==_iff, ◌∙◌, eq_refl,
}
use afl_snapshot_lkm.Task.{TaskData, fresh_task_data, get_task_data, ensure_task_data}
use afl_snapshot_lkm.Task.Listed.{put_task_data, get-put, get-ensure, get_task_data-tsk}
use afl_snapshot_lkm.Ranges.{exclude_range, include_range}
use afl_snapshot_lkm.Memory.{Run, ran, oops}

-- What the two functions do once `change` is what they do to the data. `alloc` and `kmalloc` are
-- whether the allocations of a task data and of a range succeed; the data is used unchecked.
unfoldable pub change_vmranges :
    (TaskData → TaskData) → Bool → Bool → List TaskData → ℕ → Run (List TaskData)
change_vmranges change alloc kmalloc ds current =
    let (ds', found) = ensure_task_data alloc ds current in
    if kmalloc
    then elim found [ none ↦ oops | some d ↦ ran (put_task_data ds' (change d)) ]
    else ran ds'

abbrev pub exclude_vmrange : Bool → Bool → List TaskData → ℕ → ℕ → ℕ → Run (List TaskData)
exclude_vmrange alloc kmalloc ds current start end =
    change_vmranges (λ d. exclude_range d start end) alloc kmalloc ds current

abbrev pub include_vmrange : Bool → Bool → List TaskData → ℕ → ℕ → ℕ → Run (List TaskData)
include_vmrange alloc kmalloc ds current start end =
    change_vmranges (λ d. include_range d start end) alloc kmalloc ds current

abbrev pub data_or_fresh : List TaskData → ℕ → TaskData
data_or_fresh ds t = elim (get_task_data ds t) [ none ↦ fresh_task_data t | some d ↦ d ]

data_or_fresh-tsk : (ds : List TaskData) (t : ℕ) → (data_or_fresh ds t).tsk ≡ t
data_or_fresh-tsk ds t = elim (Option-cases (get_task_data ds t)) [
  | inl n ↦ rw (data_or_fresh, n) refl
  | inr (d, y) ↦ rw (data_or_fresh, y) (get_task_data-tsk ds t d y)
]

ensure-data :
    (ds : List TaskData) (t : ℕ) → (ensure_task_data true ds t).1 ≡ some (data_or_fresh ds t)
unfolding ensure_task_data
ensure-data ds t = elim (Option-cases (get_task_data ds t)) [
  | inl n ↦ rw (data_or_fresh, ensure_task_data, n) refl
  | inr (d, y) ↦ rw (data_or_fresh, ensure_task_data, y) refl
]

ensure-get :
    (ds : List TaskData) (t : ℕ)
    → get_task_data (ensure_task_data true ds t).0 t ≡ some (data_or_fresh ds t)
ensure-get ds t = elim (Option-cases (get_task_data ds t)) [
  | inl n ↦ get-ensure true ds t t ∙ rw (data_or_fresh, eq_refl t, n) refl
  | inr (d, y) ↦ get-ensure true ds t t ∙ rw (data_or_fresh, eq_refl t, y) refl
]

changed-get :
    (change : TaskData → TaskData) (ds : List TaskData) (t q : ℕ)
    → (change (data_or_fresh ds t)).tsk ≡ t
    → get_task_data (put_task_data (ensure_task_data true ds t).0 (change (data_or_fresh ds t))) q
      ≡ (if t == q then some (change (data_or_fresh ds t)) else get_task_data ds q)
changed-get change ds t q same =
    let g = get-put (ensure_task_data true ds t).0 (change (data_or_fresh ds t)) q in
    let e = get-ensure true ds t q in
    let key = ap (λ r. r == q) same in
    elim (Bool-cases (t == q)) [
      | inl y ↦
          let at_q =
            subst (λ r. get_task_data (ensure_task_data true ds t).0 r ≡ some (data_or_fresh ds t))
              ((==_iff t q).0 y) (ensure-get ds t) in
          rw y (g ∙ rw (key ∙ y, at_q) refl)
      | inr y ↦ rw y (g ∙ rw (key ∙ y) (e ∙ rw y refl))
    ]

-- With memory at hand the two functions return, the data of the task (a new one, if it had none) has
-- the new range, and the data of every other task is as it was.
pub vmrange_changed :
    (ds : List TaskData) (t start end : ℕ)
    → ((x : List TaskData) × (exclude_vmrange true true ds t start end ≡ ran x)
        × ((q : ℕ)
            → get_task_data x q ≡ (
                if t == q
                then some (exclude_range (data_or_fresh ds t) start end)
                else get_task_data ds q)))
      × ((x : List TaskData) × (include_vmrange true true ds t start end ≡ ran x)
          × ((q : ℕ)
              → get_task_data x q ≡ (
                  if t == q
                  then some (include_range (data_or_fresh ds t) start end)
                  else get_task_data ds q)))
unfolding change_vmranges
vmrange_changed ds t start end = (
  (
    put_task_data (ensure_task_data true ds t).0 (exclude_range (data_or_fresh ds t) start end),
    rw (ensure-data ds t) refl,
    λ q. changed-get (λ d. exclude_range d start end) ds t q (data_or_fresh-tsk ds t),
  ),
  (
    put_task_data (ensure_task_data true ds t).0 (include_range (data_or_fresh ds t) start end),
    rw (ensure-data ds t) refl,
    λ q. changed-get (λ d. include_range d start end) ds t q (data_or_fresh-tsk ds t),
  ),
)
