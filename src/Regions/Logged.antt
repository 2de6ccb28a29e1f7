-- ===== src/Regions/Logged.antt =====
-- `restore_vmas`, src/memory.c, on a kernel that keeps a list of what it is asked for.
use afl_snapshot_lkm.Base.{
  ℕ, suc, zero, ◌+◌, ◌-◌, ◌≤◌, ◌<◌, ◌%◌, ◌≡◌, refl, sym, ap, ◌∙◌, Bool, false, not, ◌&&◌, ◌==◌,
  Option, none, some, List, [], ◌∷◌, arith, Bool-cases, inl, inr, by_if,
}
use afl_snapshot_lkm.Page.{page_size}
use afl_snapshot_lkm.Task.{SnapshotVma}
use afl_snapshot_lkm.Regions.{
  VmaOps, Sweep, Verdict, goes_on, returns, fix_interval, next_cursor, advance, sweep, is_null,
  is_nil, map_missing,
}
use afl_snapshot_lkm.Regions.Spans.{Span}
use afl_snapshot_lkm.Regions.Space.{Chain, VmaLaws}
use afl_snapshot_lkm.Regions.Interval.{aligned_length}

-- An address and a length.
abbrev pub Asked : Type 0
Asked = ℕ × ℕ

-- The requests, the last one first: each is for whole pages, at least one, and begins where the one
-- before it ends or later; the last one ends at `top` or before.
unfoldable pub Orderly : ℕ → List Asked → Type 0
Orderly top [] = Unit
Orderly top (r ∷ rs) =
    (r.0 + r.1 ≤ top) × (0 < r.1) × (r.0 % page_size ≡ 0) × (r.1 % page_size ≡ 0) × Orderly r.0 rs

Orderly-later : (top n : ℕ) (rs : List Asked) → top ≤ n → Orderly top rs → Orderly n rs
unfolding Orderly
Orderly-later top n [] h x = tt
Orderly-later top n (r ∷ rs) h x = (omega (arith, x.0), x.1, x.2, x.3, x.4)

-- The kernel, with a list of the requests that it has been sent.
abbrev pub logged : {M : Type 0} → VmaOps M → VmaOps (M × List Asked)
logged o = record {
  mmap = λ m. o.mmap m.0;
  vm_next = λ m p. o.vm_next m.0 p;
  vm_start = λ m p. o.vm_start m.0 p;
  vm_end = λ m p. o.vm_end m.0 p;
  vm_munmap = λ m a n. let r = o.vm_munmap m.0 a n in ((r.0, (a, n) ∷ m.1), r.1);
  vm_mmap = λ m a n prot. let r = o.vm_mmap m.0 a n prot in ((r.0, (a, n) ∷ m.1), r.1);
}

module _ {M : Type 0} (o : VmaOps M) (mapped : M → ℕ → Bool) (laws : VmaLaws o mapped) where
  -- The list of regions is the one of the kernel.
  pub to_logged :
      (m : M) (l : List Asked) (v : Option ℕ) (vs : List Span)
      → Chain o m v vs
      → Chain (logged o) (m, l) v vs
  to_logged m l v [] c = c
  to_logged m l v (r ∷ rs) c = (c.0, c.1, c.2, c.3, to_logged m l (o.vm_next m c.0) rs c.4)

  from_logged :
      (m : M) (l : List Asked) (v : Option ℕ) (vs : List Span)
      → Chain (logged o) (m, l) v vs
      → Chain o m v vs
  from_logged m l v [] c = c
  from_logged m l v (r ∷ rs) c = (c.0, c.1, c.2, c.3, from_logged m l (o.vm_next m c.0) rs c.4)

  abbrev pub mapped_logged : M × List Asked → ℕ → Bool
  mapped_logged m a = mapped m.0 a

  pub logged_laws : VmaLaws (logged o) mapped_logged
  logged_laws = record {
    mapped-munmap = λ m a n x z p q. laws.mapped-munmap m.0 a n x z p q;
    mapped-mmap = λ m a n prot x z p q. laws.mapped-mmap m.0 a n prot x z p q;
    Chain-munmap = λ m a n v vs z s c.
        to_logged (o.vm_munmap m.0 a n).0 ((a, n) ∷ m.1) v vs
          (laws.Chain-munmap m.0 a n v vs z s (from_logged m.0 m.1 v vs c));
    Chain-munmap_part = λ m a n v r vs z p q l c.
        to_logged (o.vm_munmap m.0 a n).0 ((a, n) ∷ m.1) v _
          (laws.Chain-munmap_part m.0 a n v r vs z p q l (from_logged m.0 m.1 v (r ∷ vs) c));
    Chain-mmap = λ m a n prot v vs z j s c.
        to_logged (o.vm_mmap m.0 a n prot).0 ((a, n) ∷ m.1) v vs
          (laws.Chain-mmap m.0 a n prot v vs z j s (from_logged m.0 m.1 v vs c));
  }

  -- One more request.
  one_more :
      (c n : ℕ) (l : List Asked)
      → c ≤ n
      → (n == c) ≡ false
      → c % page_size ≡ 0
      → n % page_size ≡ 0
      → Orderly c l
      → Orderly n ((c, n - c) ∷ l)
  unfolding Orderly
  one_more c n l h e p q x =
      (omega arith, (let f : (n == c) ≡ false = e in ground arith), p, aligned_length c n h p q, x)

  map_missing-Orderly :
      (m : M × List Asked) (ss : List SnapshotVma) (c n : ℕ)
      → Orderly n m.1
      → Orderly n ((c, n - c) ∷ m.1)
      → Orderly n (map_missing (logged o) m ss c n).0.1
  map_missing-Orderly m [] c n x y = x
  map_missing-Orderly m (r ∷ rs) c n x y =
      by_if {A = (M × List Asked) × Verdict} (λ z. Orderly n z.0.1) r.is_anonymous_private _ _ y x

  pub fix_interval-Orderly :
      (w : Sweep (M × List Asked)) (n : ℕ)
      → w.cursor ≤ n
      → w.cursor % page_size ≡ 0
      → n % page_size ≡ 0
      → Orderly w.cursor w.mm.1
      → Orderly n (fix_interval (logged o) w n).0.1
  unfolding fix_interval
  fix_interval-Orderly w n h p q x =
      let later = Orderly-later w.cursor n w.mm.1 h x in
      elim (Bool-cases (n == w.cursor)) [
        | inl e ↦ rw (fix_interval, e) later
        | inr e ↦
            let more = one_more w.cursor n w.mm.1 h e p q x in
            let F : (M × List Asked) × Verdict → Type 0 = λ z. Orderly n z.0.1 in
            by_if F (not (n == w.cursor) && w.in_vmas && not w.in_ss_vmas) _ _ more (
              by_if F (not (n == w.cursor) && not w.in_vmas && w.in_ss_vmas) _ _
                (map_missing-Orderly w.mm w.ss_vmas w.cursor n later more) later)
      ]

  -- The list of requests changes nothing else.
  abbrev pub unlogged : Sweep (M × List Asked) → Sweep M
  unlogged w = record {
    mm = w.mm.0;
    vma_iter = w.vma_iter;
    ss_vmas = w.ss_vmas;
    cursor = w.cursor;
    in_vmas = w.in_vmas;
    in_ss_vmas = w.in_ss_vmas;
  }

  abbrev pub without_log : Option ((M × List Asked) × ℕ) → Option (M × ℕ)
  without_log none = none
  without_log (some r) = some (r.0.0, r.1)

  map_missing_same :
      (m : M × List Asked) (ss : List SnapshotVma) (c n : ℕ)
      → map_missing o m.0 ss c n
        ≡ ((map_missing (logged o) m ss c n).0.0, (map_missing (logged o) m ss c n).1)
  map_missing_same m [] c n = refl
  map_missing_same m (r ∷ rs) c n = elim (Bool-cases r.is_anonymous_private) [
    | inl e ↦ rw (map_missing, e) refl
    | inr e ↦ rw (map_missing, e) refl
  ]

  fix_interval_same :
      (w : Sweep (M × List Asked)) (n : ℕ)
      → fix_interval o (unlogged w) n
        ≡ ((fix_interval (logged o) w n).0.0, (fix_interval (logged o) w n).1)
  unfolding fix_interval
  fix_interval_same w n = elim (Bool-cases (not (n == w.cursor) && w.in_vmas && not w.in_ss_vmas)) [
    | inl e ↦ rw (fix_interval, e) refl
    | inr e ↦ elim (Bool-cases (not (n == w.cursor) && not w.in_vmas && w.in_ss_vmas)) [
      | inl f ↦ rw (fix_interval, e, f) (map_missing_same w.mm w.ss_vmas w.cursor n)
      | inr f ↦ rw (fix_interval, e, f) refl
    ]
  ]

  pub sweep_same :
      (fuel : ℕ) (w : Sweep (M × List Asked))
      → sweep o fuel (unlogged w) ≡ without_log (sweep (logged o) fuel w)
  unfolding sweep next_cursor advance
  sweep_same zero w = refl
  sweep_same (suc fuel) w = elim (Bool-cases (is_null w.vma_iter && is_nil w.ss_vmas)) [
    | inl e ↦ rw (sweep, e) refl
    | inr e ↦
        let r = fix_interval (logged o) w (next_cursor (logged o) w) in
        let left : sweep o (suc fuel) (unlogged w)
            ≡ rest_of (fix_interval o (unlogged w) (next_cursor (logged o) w)) =
          rw (sweep, e) refl in
        let right : sweep (logged o) (suc fuel) w ≡ logged_rest r = rw (sweep, e) refl in
        left
        ∙ ap rest_of (fix_interval_same w (next_cursor (logged o) w))
        ∙ both r.0 r.1 (λ m. sweep_same fuel (advance (logged o) w (next_cursor (logged o) w) m))
        ∙ ap without_log (sym right)
  ]
    where
      rest_of : M × Verdict → Option (M × ℕ)
      rest_of r = elim (r.1) [
        | goes_on ↦ sweep o fuel (advance o (unlogged w) (next_cursor (logged o) w) r.0)
        | returns res ↦ some (r.0, res)
      ]

      logged_rest : (M × List Asked) × Verdict → Option ((M × List Asked) × ℕ)
      logged_rest r = elim (r.1) [
        | goes_on ↦ sweep (logged o) fuel (advance (logged o) w (next_cursor (logged o) w) r.0)
        | returns res ↦ some (r.0, res)
      ]

      both :
          (m : M × List Asked) (v : Verdict)
          → ((m : M × List Asked)
              → sweep o fuel (advance o (unlogged w) (next_cursor (logged o) w) m.0)
                ≡ without_log
                    (sweep (logged o) fuel (advance (logged o) w (next_cursor (logged o) w) m)))
          → rest_of (m.0, v) ≡ without_log (logged_rest (m, v))
      both m goes_on rec = rec m
      both m (returns res) rec = refl
