-- ===== src/Regions/Fix.antt =====
-- What `restore_vmas`, src/memory.c, does to one interval of the address space.
use afl_snapshot_lkm.Base.{
  ℕ, ◌+◌, ◌-◌, ◌≤◌, ◌<◌, ◌≡◌, refl, sym, ap, ◌∙◌, subst, Bool, true, false, ◌&&◌, ◌==◌,
  if◌then◌else◌, Option, some, List, [], ◌∷◌, arith, Bool-cases, inl, inr, eq_refl, ==_iff,
}
use afl_snapshot_lkm.Task.{SnapshotVma}
use afl_snapshot_lkm.Regions.{
  VmaOps, Sweep, goes_on, ulong_max, fix_interval, next_ss_vma_pos, next_vma_iter, map_missing,
  mapped_at, unmapped, mapped_at,
}
use afl_snapshot_lkm.Regions.Spans.{Span, within, Ascend, At, next_pos}
use afl_snapshot_lkm.Regions.Space.{
  Chain, VmaLaws, next_vma_iter-Chain, wanted, spans, next_ss_vma_pos-spans, bridge_free,
  bridges_free, bridge_free-later, bridges_free-parts, bridges_free-with, touches, touches-unjoined,
}
use afl_snapshot_lkm.Regions.Round.{Held, ahead, kept, cut}
use afl_snapshot_lkm.Regions.Interval.{
  MapsMissing, Outcome, stops, goes, Next, mapped_there, wanted_there, idle, interval,
  aligned_length,
}

module _ {M : Type 0} (o : VmaOps M) (mapped : M → ℕ → Bool) (laws : VmaLaws o mapped) where
  -- A region that is unmapped in part starts where the sweep is.
  starts :
      (c n : ℕ) (r : Span) (rs : List Span) (ss : List SnapshotVma)
      → ahead c (r ∷ rs) ss ≡ true
      → c < n
      → n < r.1
      → r.1 < ulong_max
      → n ≡ next_ss_vma_pos false ss
      → (r.0 == c) ≡ true
  starts c n r rs [] h p q t e = absurd (omega arith)
  starts c n r rs (s ∷ ss) h p q t e = ground arith

  Ascend-to_next : (c n : ℕ) (vs : List Span) → Ascend c vs → n ≤ next_pos false vs → Ascend n vs
  unfolding next_pos
  Ascend-to_next c n [] a h = tt
  Ascend-to_next c n (r ∷ rs) a h = (h, a.1, a.2)

  -- A new part is unmapped.
  unmaps :
      (w : Sweep M) (vs : List Span) (n : ℕ)
      → Held o mapped laws w vs
      → Next o mapped laws w vs n
      → w.cursor < n
      → w.in_vmas ≡ true
      → w.in_ss_vmas ≡ false
      → (o.vm_munmap w.mm w.cursor (n - w.cursor)).1 ≡ 0
      → Outcome o mapped laws w n vs ((o.vm_munmap w.mm w.cursor (n - w.cursor)).0, goes_on)
  unfolding next_pos
  unmaps w [] n h x lt v s z = absurd (subst (λ b. At w.cursor b []) v h.places.2)
  unmaps w (r ∷ rs) n h x lt v s z = elim (Bool-cases (n == r.1)) [
    | inl e ↦
        let top = (==_iff n r.1).0 e in
        let pick : picked ≡ next_vma_iter o w.mm w.vma_iter = ground arith in
        goes rs refl
          (subst (λ p. Chain o m' p rs) (sym pick)
            (laws.Chain-munmap w.mm w.cursor (n - w.cursor) _ rs z
              (subst (λ t. Ascend t rs) (sym (interval w.cursor n x.from ∙ top)) a.3)
              (next_vma_iter-Chain o w.mm w.vma_iter (r ∷ rs) h.chain)))
          (kept (ground arith)) (bridges_free-parts r rs w.ss_vmas h.unbridged).1 effect
    | inr e ↦
        let low : n < r.1 = ground arith in
        let start = starts w.cursor n r rs w.ss_vmas (h.clear v s) lt low a.2.1 (ground arith) in
        let pick : picked ≡ w.vma_iter = ground arith in
        let part =
          laws.Chain-munmap_part w.mm w.cursor (n - w.cursor) w.vma_iter r rs z a.0 (omega arith)
            (omega arith) h.chain in
        goes ((n, r.1) ∷ rs) refl
          (subst (λ p. Chain o m' p ((n, r.1) ∷ rs)) (sym pick)
            (subst (λ t. Chain o m' w.vma_iter ((t, r.1) ∷ rs)) (interval w.cursor n x.from)
              (subst
                (λ b. Chain o m' w.vma_iter (
                  if b
                  then (w.cursor + (n - w.cursor), r.1) ∷ rs
                  else (r.0, w.cursor) ∷ (w.cursor + (n - w.cursor), r.1) ∷ rs))
                start part)))
          (cut r rs refl v (omega (arith, a.0)) low refl)
          (bridges_free-with (n, r.1) rs w.ss_vmas
            (bridge_free-later r n n w.ss_vmas (omega (arith, a.0)) (omega arith) ascends free.0)
            free.1)
          effect
  ]
    where
      free : (bridge_free r w.ss_vmas ≡ true) × (bridges_free rs w.ss_vmas ≡ true)
      free = bridges_free-parts r rs w.ss_vmas h.unbridged

      ascends : Ascend n (spans w.ss_vmas)
      ascends =
          Ascend-to_next w.cursor n (spans w.ss_vmas)
            (subst (λ b. At w.cursor b (spans w.ss_vmas)) s h.places.3)
            (subst (λ p. n ≤ p) (next_ss_vma_pos-spans false w.ss_vmas)
              (subst (λ b. n ≤ next_ss_vma_pos b w.ss_vmas) s x.to_ss))

      a : At w.cursor true (r ∷ rs)
      a = subst (λ b. At w.cursor b (r ∷ rs)) v h.places.2

      m' : M
      m' = (o.vm_munmap w.mm w.cursor (n - w.cursor)).0

      picked : Option ℕ
      picked =
          if n == next_pos w.in_vmas (r ∷ rs) && w.in_vmas
          then next_vma_iter o w.mm w.vma_iter
          else w.vma_iter

      effect :
          (q : ℕ)
          → mapped m' q
            ≡ (if within (w.cursor, n) q then wanted w.ss_vmas (mapped w.mm q) q else mapped w.mm q)
      effect q =
          let i = interval w.cursor n x.from in
          let k =
            laws.mapped-munmap w.mm w.cursor (n - w.cursor) q z h.places.1
              (aligned_length w.cursor n x.from h.places.1 x.aligned) in
          ground (arith, wanted_there o mapped laws w (r ∷ rs) n h x q (mapped w.mm q))

  -- The sweep between the regions and in one of the snapshot's.
  abbrev missing : M → Option ℕ → List SnapshotVma → ℕ → Sweep M
  missing m v ss c = record {
    mm = m;
    vma_iter = v;
    ss_vmas = ss;
    cursor = c;
    in_vmas = false;
    in_ss_vmas = true;
  }

  -- A missing part is mapped, or only reported.
  maps :
      (m : M) (v : Option ℕ) (ss : List SnapshotVma) (c n : ℕ) (vs : List Span)
      → MapsMissing o mapped laws
      → Held o mapped laws (missing m v ss c) vs
      → Next o mapped laws (missing m v ss c) vs n
      → c < n
      → Outcome o mapped laws (missing m v ss c) n vs (map_missing o m ss c n)
  maps m v [] c n vs mem h x lt = absurd h.places.3
  maps m v (r ∷ rs) c n vs mem h x lt = elim (Bool-cases r.is_anonymous_private) [
    | inr e ↦ subst (Outcome o mapped laws (missing m v (r ∷ rs) c) n vs) (sym (chosen false e)) (
        idle o mapped laws (missing m v (r ∷ rs) c) vs n h x (λ a p q. ground (
          arith,
          mapped_there o mapped laws (missing m v (r ∷ rs) c) vs n h x a p q,
          wanted_there o mapped laws (missing m v (r ∷ rs) c) vs n h x a (mapped m a) p q,
        )))
    | inl e ↦
        let pick : picked ≡ v = ground arith in
        let verdict : (mapped_at o (o.vm_mmap m c (n - c) r.prot) c).1 ≡ goes_on =
          rw (done, eq_refl c) refl in
        subst (Outcome o mapped laws (missing m v (r ∷ rs) c) n vs) (sym (chosen true e)) (
          goes vs verdict
            (subst (λ p. Chain o m' p vs) (sym pick)
              (laws.Chain-mmap m c (n - c) r.prot v vs done
                (subst (λ t. touches t vs ≡ false) (sym (interval c n x.from))
                  (touches-unjoined c n vs r rs h.unbridged e h.places.3.0 lt x.to_ss))
                (subst (λ t. Ascend t vs) (sym (interval c n x.from))
                  (Ascend-to_next c n vs h.places.2 x.to_vma))
                h.chain))
            (kept (ground arith)) h.unbridged (effect e))
  ]
    where
      chosen :
          (b : Bool)
          → r.is_anonymous_private ≡ b
          → map_missing o m (r ∷ rs) c n
            ≡ (if b then mapped_at o (o.vm_mmap m c (n - c) r.prot) c else (m, goes_on))
      chosen b e =
          ap (λ x. if x then mapped_at o (o.vm_mmap m c (n - c) r.prot) c else (m, goes_on)) e

      done : (o.vm_mmap m c (n - c) r.prot).1 ≡ some c
      done =
          mem m c (n - c) r.prot h.places.1 (aligned_length c n x.from h.places.1 x.aligned)
            (omega arith) (subst (λ t. t < ulong_max) (sym (interval c n x.from)) x.top)
            (λ a p q.
              mapped_there o mapped laws (missing m v (r ∷ rs) c) vs n h x a p
                (omega (arith, interval c n x.from)))

      m' : M
      m' = (o.vm_mmap m c (n - c) r.prot).0

      picked : Option ℕ
      picked = if n == next_pos false vs && false then next_vma_iter o m v else v

      effect :
          r.is_anonymous_private ≡ true
          → (q : ℕ)
          → mapped m' q ≡ (if within (c, n) q then wanted (r ∷ rs) (mapped m q) q else mapped m q)
      effect e q =
          let i = interval c n x.from in
          let k =
            laws.mapped-mmap m c (n - c) r.prot q done h.places.1
              (aligned_length c n x.from h.places.1 x.aligned) in
          ground
            (arith, wanted_there o mapped laws (missing m v (r ∷ rs) c) vs n h x q (mapped m q))

  -- Whatever the interval is, the outcome is right.
  pub fix_interval-Outcome :
      (w : Sweep M) (vs : List Span) (n : ℕ)
      → MapsMissing o mapped laws
      → Held o mapped laws w vs
      → Next o mapped laws w vs n
      → Outcome o mapped laws w n vs (fix_interval o w n)
  unfolding fix_interval
  fix_interval-Outcome w vs n mem h x = elim (Bool-cases (n == w.cursor)) [
    | inl e ↦
        let path : fix_interval o w n ≡ (w.mm, goes_on) = ground arith in
        subst (Outcome o mapped laws w n vs) (sym path)
          (idle o mapped laws w vs n h x (λ a p q. absurd (ground arith)))
    | inr e ↦ by_kind w.in_vmas w.in_ss_vmas e refl refl
  ]
    where
      by_kind :
          (bv bs : Bool)
          → (n == w.cursor) ≡ false
          → w.in_vmas ≡ bv
          → w.in_ss_vmas ≡ bs
          → Outcome o mapped laws w n vs (fix_interval o w n)
      by_kind true true e p q =
          let path : fix_interval o w n ≡ (w.mm, goes_on) = ground arith in
          subst (Outcome o mapped laws w n vs) (sym path) (
            idle o mapped laws w vs n h x (λ a t u. ground (
              arith,
              mapped_there o mapped laws w vs n h x a t u,
              wanted_there o mapped laws w vs n h x a (mapped w.mm a) t u,
            )))
      by_kind false false e p q =
          let path : fix_interval o w n ≡ (w.mm, goes_on) = ground arith in
          subst (Outcome o mapped laws w n vs) (sym path) (
            idle o mapped laws w vs n h x (λ a t u. ground (
              arith,
              mapped_there o mapped laws w vs n h x a t u,
              wanted_there o mapped laws w vs n h x a (mapped w.mm a) t u,
            )))
      by_kind false true e p q =
          let path : fix_interval o w n ≡ map_missing o w.mm w.ss_vmas w.cursor n = ground arith in
          let same : w ≡ missing w.mm w.vma_iter w.ss_vmas w.cursor = λ i. record {
            mm = w.mm;
            vma_iter = w.vma_iter;
            ss_vmas = w.ss_vmas;
            cursor = w.cursor;
            in_vmas = p i;
            in_ss_vmas = q i;
          } in
          subst (Outcome o mapped laws w n vs) (sym path) (
            subst (λ u. Outcome o mapped laws u n vs (map_missing o w.mm w.ss_vmas w.cursor n))
              (sym same)
              (maps w.mm w.vma_iter w.ss_vmas w.cursor n vs mem
                (subst (λ u. Held o mapped laws u vs) same h)
                (subst (λ u. Next o mapped laws u vs n) same x) (let f = x.from in ground arith)))
      by_kind true false e p q =
          let path : fix_interval o w n ≡ unmapped o (o.vm_munmap w.mm w.cursor (n - w.cursor)) =
            ground arith in
          subst (Outcome o mapped laws w n vs) (sym path)
            (elim (Bool-cases ((o.vm_munmap w.mm w.cursor (n - w.cursor)).1 == 0)) [
              | inl z ↦
                  let zero = (==_iff (o.vm_munmap w.mm w.cursor (n - w.cursor)).1 0).0 z in
                  let going : unmapped o (o.vm_munmap w.mm w.cursor (n - w.cursor))
                      ≡ ((o.vm_munmap w.mm w.cursor (n - w.cursor)).0, goes_on) =
                    rw z refl in
                  subst (Outcome o mapped laws w n vs) (sym going)
                    (unmaps w vs n h x (let f = x.from in ground arith) p q zero)
              | inr z ↦ stops (o.vm_munmap w.mm w.cursor (n - w.cursor)).1 (rw z refl) z
            ])
