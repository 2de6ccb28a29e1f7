-- ===== src/Tests/Regions.antt =====
-- A process with one region that has grown at both ends, while another one has gone; and one whose
-- region bridges a gap.
use afl_snapshot_lkm.Base.{
  ℕ, ◌+◌, ◌≡◌, refl, Bool, true, false, ◌&&◌, ltb, ◌≤◌, ◌<◌, ◌==◌, Bool-cases, if◌then◌else◌,
  Option, none, some, List, [], ◌∷◌, arith, inl, inr,
}
use afl_snapshot_lkm.Task.{TaskData, SnapshotVma, fresh_task_data}
use afl_snapshot_lkm.Regions.{
  ulong_max, VmaOps, restore_vmas, sweep, fix_interval, advance, next_cursor,
}
use afl_snapshot_lkm.Regions.Spans.{Span, within, inside, Ascend, positions}
use afl_snapshot_lkm.Regions.Space.{Chain, VmaLaws, wanted, spans, bridges_free, bridge_free}
use afl_snapshot_lkm.Regions.Logged.{Asked, Orderly, logged}
use afl_snapshot_lkm.Regions.Requests.{restore_vmas-Orderly}
use afl_snapshot_lkm.Regions.Exact.{restore_vmas-wanted}

-- One region, and the addresses that are mapped; a region cannot be split. The task data is beside it.
pub record Single : Type 0 where
  pub start : ℕ
  pub end : ℕ
  pub there : ℕ → Bool

abbrev pub single : VmaOps (TaskData × Single)
single = record {
  mmap = λ m. some 1;
  vm_next = λ m p. none;
  vm_start = λ m p. m.1.start;
  vm_end = λ m p. m.1.end;
  vm_munmap = λ m a n. if ltb m.1.start a && ltb (a + n) m.1.end then (m, 12) else (
    (
      m.0,
      record (m.1) {
        start = if m.1.start == a && ltb (a + n) m.1.end then a + n else m.1.start;
        there = λ x. if within (a, a + n) x then false else m.1.there x;
      },
    ),
    0,
  );
  vm_mmap = λ m a n prot. (
    (m.0, record (m.1) { there = λ x. if within (a, a + n) x then true else m.1.there x }),
    some a,
  );
}

single-munmap :
    (m : TaskData × Single) (a n : ℕ) (v : Option ℕ) (vs : List Span)
    → (single.vm_munmap m a n).1 ≡ 0
    → Ascend (a + n) vs
    → Chain single m v vs
    → Chain single (single.vm_munmap m a n).0 v vs
single-munmap m a n v [] z s c = c
single-munmap m a n v (r ∷ []) z s c = (c.0, c.1, ground arith, ground arith, refl)
single-munmap m a n v (r ∷ r' ∷ rs) z s c = absurd (let y = c.4.1 in cc)

single-part :
    (m : TaskData × Single) (a n : ℕ) (v : Option ℕ) (r : Span) (vs : List Span)
    → (single.vm_munmap m a n).1 ≡ 0
    → r.0 ≤ a
    → 0 < n
    → a + n < r.1
    → Chain single m v (r ∷ vs)
    → Chain single
        (single.vm_munmap m a n).0
        v
        (if r.0 == a then (a + n, r.1) ∷ vs else (r.0, a) ∷ (a + n, r.1) ∷ vs)
single-part m a n v r [] z p q l c = elim (Bool-cases (r.0 == a)) [
  | inl e ↦ rw e (c.0, c.1, ground arith, ground arith, refl)
  | inr e ↦ absurd (ground arith)
]
single-part m a n v r (r' ∷ rs) z p q l c = absurd (let y = c.4.1 in cc)

single-mmap :
    (m : TaskData × Single) (a n : ℕ) (v : Option ℕ) (vs : List Span)
    → Chain single m v vs
    → Chain single (single.vm_mmap m a n 0).0 v vs
single-mmap m a n v [] c = c
single-mmap m a n v (r ∷ []) c = c
single-mmap m a n v (r ∷ r' ∷ rs) c = absurd (let y = c.4.1 in cc)

abbrev pub mapped : TaskData × Single → ℕ → Bool
mapped m a = m.1.there a

pub single_laws : VmaLaws single mapped
single_laws = record {
  mapped-munmap = λ m a n x z p q. ground arith;
  mapped-mmap = λ m a n prot x z p q. refl;
  Chain-munmap = single-munmap;
  Chain-munmap_part = single-part;
  Chain-mmap = λ m a n prot v vs z j s c. single-mmap m a n v vs c;
}

abbrev anonymous : ℕ → ℕ → SnapshotVma
anonymous a b = record { vm_start = a; vm_end = b; is_anonymous_private = true; prot = 7 }

abbrev pub two : List SnapshotVma
two = anonymous 0x2000 0x3000 ∷ anonymous 0x6000 0x7000 ∷ []

abbrev pub task : TaskData
task =
    let d = record (fresh_task_data 4) { config = 1 } in
    record d { ss = record (d.ss) { all_vmas = two } }

abbrev pub grown : TaskData × Single
grown = (task, record { start = 0x1000; end = 0x5000; there = λ a. within (0x1000, 0x5000) a })

pub free : bridges_free ((0x1000, 0x5000) ∷ []) two ≡ true
unfolding bridges_free bridge_free
free = refl

pub grown-inside : (a : ℕ) → mapped grown a ≡ inside ((0x1000, 0x5000) ∷ []) a
unfolding inside
grown-inside a = ground arith

pub enough : positions false ((0x1000, 0x5000) ∷ []) + positions false (spans two) < 10
unfolding positions
enough = omega arith

restore_vmas-wanted_example :
    (m' : TaskData × Single) × (res : ℕ) × (restore_vmas single 10 two grown ≡ some (m', res))
    × (res ≡ 0 → (a : ℕ) → mapped m' a ≡ wanted two (mapped grown a) a)
restore_vmas-wanted_example =
    restore_vmas-wanted single mapped single_laws 10 two grown ((0x1000, 0x5000) ∷ [])
      (λ m a n prot p q r s t. refl) (1, refl, refl, refl, refl) (omega arith) (omega arith) free
      grown-inside enough

restore_vmas-Orderly_example :
    (m' : TaskData × Single) × (log : List Asked) × (res : ℕ) × (top : ℕ) × (restore_vmas single 10
        two grown
      ≡ some (m', res))
    × (restore_vmas (logged single) 10 two (grown, []) ≡ some ((m', log), res))
    × (top < ulong_max)
    × Orderly top log
restore_vmas-Orderly_example =
    restore_vmas-Orderly single mapped single_laws 10 two grown ((0x1000, 0x5000) ∷ [])
      (λ m a n prot p q r s t. refl) (1, refl, refl, refl, refl) (omega arith) (omega arith) free
      grown-inside enough

-- A region that may be split once: its lower part keeps the pointer 1, and the upper part is 2.
record Split : Type 0 where
  end : ℕ
  upper : ℕ
  is_split : Bool
  there : ℕ → Bool

abbrev split : VmaOps Split
split = record {
  mmap = λ m. some 1;
  vm_next = λ m p. if p == 1 && m.is_split then some 2 else none;
  vm_start = λ m p. if p == 1 then 0x1000 else m.upper;
  vm_end = λ m p. if p == 1 then m.end else 0x4000;
  vm_munmap = λ m a n. (
    record {
      end = a;
      upper = a + n;
      is_split = true;
      there = λ x. if within (a, a + n) x then false else m.there x;
    },
    0,
  );
  vm_mmap = λ m a n prot.
      (record m { there = λ x. if within (a, a + n) x then true else m.there x }, some a);
}

abbrev merged : Split
merged = record {
  end = 0x4000;
  upper = 0;
  is_split = false;
  there = λ a. within (0x1000, 0x4000) a;
}

abbrev there_after : Option (Split × ℕ) → ℕ → Bool
there_after none a = false
there_after (some r) a = r.0.there a

-- The process has joined two regions of the snapshot by a new one between them: the sweep unmaps the new
-- one, goes back to the end of the lower part, and maps the gap.
gap_is_mapped :
    there_after
      (restore_vmas split 20 (anonymous 0x1000 0x2000 ∷ anonymous 0x3000 0x4000 ∷ []) merged)
      0x2800
    ≡ true
unfolding restore_vmas sweep fix_interval advance next_cursor
gap_is_mapped = refl
