-- ===== src/Regions/Requests.antt =====
-- What `restore_vmas`, src/memory.c, asks of `vm_munmap` and `vm_mmap`.
use afl_snapshot_lkm.Base.{
  ℕ, suc, zero, ◌+◌, ◌<◌, ◌≡◌, refl, sym, ap, ◌∙◌, subst, Bool, true, false, ◌&&◌, Option, some,
  List, [], arith, Bool-cases, inl, inr,
}
use afl_snapshot_lkm.Task.{SnapshotVma}
use afl_snapshot_lkm.Regions.{
  VmaOps, Sweep, Verdict, goes_on, returns, fix_interval, sweep, restore_vmas, is_null, is_nil,
  ulong_max,
}
use afl_snapshot_lkm.Regions.Spans.{Span, inside, Ascend, positions}
use afl_snapshot_lkm.Regions.Space.{Chain, VmaLaws, spans, bridges_free}
use afl_snapshot_lkm.Regions.Round.{Held, low, after}
use afl_snapshot_lkm.Regions.Interval.{MapsMissing, stops, goes}
use afl_snapshot_lkm.Regions.Fix.{fix_interval-Outcome}
use afl_snapshot_lkm.Regions.After.{Next-low, Held-after, round_positions}
use afl_snapshot_lkm.Regions.Exact.{is_null-Chain, sweep_step, measure}
use afl_snapshot_lkm.Regions.Logged.{
  Asked, Orderly, logged, mapped_logged, logged_laws, to_logged, fix_interval-Orderly, sweep_same,
  without_log,
}

module _ {M : Type 0} (o : VmaOps M) (mapped : M → ℕ → Bool) (laws : VmaLaws o mapped) where
  -- What a sweep ends with.
  abbrev EndsOrderly : Option ((M × List Asked) × ℕ) → Type 0
  EndsOrderly r =
      (m : M) × (log : List Asked) × (res : ℕ) × (top : ℕ) × (r ≡ some ((m, log), res))
      × (top < ulong_max)
      × Orderly top log

  abbrev HeldLogged : Sweep (M × List Asked) → List Span → Type 0
  HeldLogged w vs = Held (logged o) (mapped_logged o mapped laws) (logged_laws o mapped laws) w vs

  abbrev next_low : Sweep (M × List Asked) → List Span → ℕ
  next_low w vs = low (logged o) (mapped_logged o mapped laws) (logged_laws o mapped laws) w vs

  done_Orderly :
      (fuel : ℕ) (w : Sweep (M × List Asked)) (vs : List Span)
      → HeldLogged w vs
      → (is_nil vs && is_nil w.ss_vmas) ≡ true
      → Orderly w.cursor w.mm.1
      → EndsOrderly (sweep (logged o) (suc fuel) w)
  unfolding sweep
  done_Orderly fuel w vs h e x =
      let live : (is_null w.vma_iter && is_nil w.ss_vmas) ≡ true =
        ap (λ b. b && is_nil w.ss_vmas)
          (is_null-Chain (logged o) (mapped_logged o mapped laws) (logged_laws o mapped laws) w.mm
            w.vma_iter vs h.chain)
        ∙ e in
      (w.mm.0, w.mm.1, 0, w.cursor, rw (sweep, live) refl, h.places.0, x)

  sweep-Orderly :
      (fuel : ℕ) (w : Sweep (M × List Asked)) (vs : List Span)
      → MapsMissing o mapped laws
      → HeldLogged w vs
      → measure (logged o) (mapped_logged o mapped laws) (logged_laws o mapped laws) w vs < fuel
      → Orderly w.cursor w.mm.1
      → EndsOrderly (sweep (logged o) fuel w)
  sweep-Orderly zero w vs mem h f x = absurd (omega arith)
  sweep-Orderly (suc fuel) w vs mem h f x = elim (Bool-cases (is_nil vs && is_nil w.ss_vmas)) [
    | inl e ↦ done_Orderly fuel w vs h e x
    | inr e ↦
        let n =
          Next-low (logged o) (mapped_logged o mapped laws) (logged_laws o mapped laws) w vs h e in
        let fixed = fix_interval (logged o) w (next_low w vs) in
        let y =
          fix_interval-Orderly o mapped laws w (next_low w vs) n.from h.places.1 n.aligned x in
        let step =
          sweep_step (logged o) (mapped_logged o mapped laws) (logged_laws o mapped laws) fuel w vs
            h e in
        subst EndsOrderly (sym step)
          (elim (fix_interval-Outcome (logged o) (mapped_logged o mapped laws)
            (logged_laws o mapped laws) w vs (next_low w vs)
            (λ m a b prot p q r s t. mem m.0 a b prot p q r s t) h n) [
              | stops res s z ↦
                  (fixed.0.0, fixed.0.1, res, next_low w vs, ap (continue fuel w vs) s, n.top, y)
              | goes vs' g c l u k ↦
                  let w' =
                    after (logged o) (mapped_logged o mapped laws) (logged_laws o mapped laws) w vs
                      fixed.0 in
                  let later =
                    sweep-Orderly fuel w' vs' mem
                      (Held-after (logged o) (mapped_logged o mapped laws)
                        (logged_laws o mapped laws) w vs vs' _ h n c l u k)
                      (let p =
                          round_positions (next_low w vs) w.in_vmas w.in_ss_vmas vs vs' w.ss_vmas
                            n.top n.one l in
                        omega arith)
                      y in
                  subst EndsOrderly (sym (ap (continue fuel w vs) g)) later
            ])
  ]
    where
      continue : ℕ → Sweep (M × List Asked) → List Span → Verdict → Option ((M × List Asked) × ℕ)
      continue fuel w vs v =
          let r = fix_interval (logged o) w (next_low w vs) in
          elim v [
            | goes_on ↦ sweep (logged o) fuel (
                after (logged o) (mapped_logged o mapped laws) (logged_laws o mapped laws) w vs r.0)
            | returns res ↦ some (r.0, res)
          ]

  -- `restore_vmas` ends, and the requests that it makes on the way to unmap or map are orderly: each
  -- is for one page or more, all of it whole pages below the top of the address space, and begins
  -- where the request before it ends or later; so the length `next_cursor - cursor` never wraps
  -- around. The conditions are those of `restore_vmas-wanted`.
  pub restore_vmas-Orderly :
      (fuel : ℕ) (ss : List SnapshotVma) (m : M) (vs : List Span)
      → MapsMissing o mapped laws
      → Chain o m (o.mmap m) vs
      → Ascend 0 vs
      → Ascend 0 (spans ss)
      → bridges_free vs ss ≡ true
      → ((a : ℕ) → mapped m a ≡ inside vs a)
      → positions false vs + positions false (spans ss) < fuel
      → (m' : M) × (log : List Asked) × (res : ℕ) × (top : ℕ) × (restore_vmas o fuel ss m
          ≡ some (m', res))
        × (restore_vmas (logged o) fuel ss (m, []) ≡ some ((m', log), res))
        × (top < ulong_max)
        × Orderly top log
  unfolding restore_vmas Orderly
  restore_vmas-Orderly fuel ss m vs mem c a b f e l =
      let begin : Sweep (M × List Asked) = record {
        mm = (m, []);
        vma_iter = o.mmap m;
        ss_vmas = ss;
        cursor = 0;
        in_vmas = false;
        in_ss_vmas = false;
      } in
      let r =
        sweep-Orderly fuel begin vs mem
          (record {
            chain = to_logged o mapped laws m [] (o.mmap m) vs c;
            places = (omega arith, refl, a, b);
            agree = λ q _. e q;
            unbridged = f;
            clear = λ z. absurd (cc);
          })
          l tt in
      (
        r.0,
        r.1,
        r.2,
        r.3,
        sweep_same o mapped laws fuel begin ∙ ap (without_log o mapped laws) r.4,
        r.4,
        r.5,
        r.6,
      )
