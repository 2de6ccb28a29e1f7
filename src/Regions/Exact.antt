-- ===== src/Regions/Exact.antt =====
-- The whole sweep of `restore_vmas`, src/memory.c: it ends, and it leaves mapped what is wanted.
use afl_snapshot_lkm.Base.{
  ℕ, suc, zero, ◌+◌, ◌≤◌, ◌<◌, ◌≡◌, refl, sym, ap, ◌∙◌, subst, Bool, true, false, ◌&&◌, leb,
  if◌then◌else◌, Option, some, List, [], ◌∷◌, arith, Bool-cases, inl, inr,
}
use afl_snapshot_lkm.Task.{SnapshotVma}
use afl_snapshot_lkm.Regions.{
  VmaOps, Sweep, Verdict, goes_on, returns, fix_interval, sweep, restore_vmas, is_null, is_nil,
}
use afl_snapshot_lkm.Regions.Spans.{Span, within, inside, Ascend, positions}
use afl_snapshot_lkm.Regions.Space.{
  Chain, VmaLaws, spans, wanted, left_ss, left_ss-wanted, bridges_free,
}
use afl_snapshot_lkm.Regions.Round.{Held, low, next_cursor-low, after, advance-after}
use afl_snapshot_lkm.Regions.Interval.{MapsMissing, stops, goes, Next}
use afl_snapshot_lkm.Regions.Fix.{fix_interval-Outcome}
use afl_snapshot_lkm.Regions.After.{round_positions, Next-low, Held-after}

module _ {M : Type 0} (o : VmaOps M) (mapped : M → ℕ → Bool) (laws : VmaLaws o mapped) where
  pub is_null-Chain :
      (m : M) (v : Option ℕ) (vs : List Span) → Chain o m v vs → is_null v ≡ is_nil vs
  is_null-Chain m v [] c = rw c refl
  is_null-Chain m v (r ∷ rs) c = rw c.1 refl

  -- The loop when something is left.
  pub sweep_step :
      (fuel : ℕ) (w : Sweep M) (vs : List Span)
      → Held o mapped laws w vs
      → (is_nil vs && is_nil w.ss_vmas) ≡ false
      → let r = fix_interval o w (low o mapped laws w vs) in
        sweep o (suc fuel) w ≡ elim (r.1) [
          | goes_on ↦ sweep o fuel (after o mapped laws w vs r.0)
          | returns res ↦ some (r.0, res)
        ]
  unfolding sweep
  sweep_step fuel w vs h e =
      let live : (is_null w.vma_iter && is_nil w.ss_vmas) ≡ false =
        ap (λ b. b && is_nil w.ss_vmas) (is_null-Chain w.mm w.vma_iter vs h.chain) ∙ e in
      rw (sweep, live)
        (λ i.
          by_verdict (next_cursor-low o mapped laws w vs h i)
            (λ m. advance-after o mapped laws w vs m h i))
    where
      by_verdict : ℕ → (M → Sweep M) → Option (M × ℕ)
      by_verdict n move = elim ((fix_interval o w n).1) [
        | goes_on ↦ sweep o fuel (move (fix_interval o w n).0)
        | returns res ↦ some ((fix_interval o w n).0, res)
      ]

  -- What a sweep from `w` is to end with.
  abbrev Ends : Sweep M → Option (M × ℕ) → Type 0
  Ends w r =
      (m : M) × (res : ℕ) × (r ≡ some (m, res))
      × (res ≡ 0
          → (a : ℕ)
          → mapped m a
            ≡ (if leb w.cursor a then wanted w.ss_vmas (mapped w.mm a) a else mapped w.mm a))

  abbrev pub measure : Sweep M → List Span → ℕ
  measure w vs = positions w.in_vmas vs + positions w.in_ss_vmas (spans w.ss_vmas)

  nothing_left :
      (fuel : ℕ) (w : Sweep M) (vs : List Span)
      → Held o mapped laws w vs
      → (is_nil vs && is_nil w.ss_vmas) ≡ true
      → Ends w (sweep o (suc fuel) w)
  unfolding sweep inside wanted
  nothing_left fuel w vs h e =
      let live : (is_null w.vma_iter && is_nil w.ss_vmas) ≡ true =
        ap (λ b. b && is_nil w.ss_vmas) (is_null-Chain w.mm w.vma_iter vs h.chain) ∙ e in
      (w.mm, 0, rw (sweep, live) refl, λ z a. kept_as vs w.ss_vmas e a (h.agree a))
    where
      kept_as :
          (vs : List Span) (ss : List SnapshotVma)
          → (is_nil vs && is_nil ss) ≡ true
          → (a : ℕ) → (w.cursor ≤ a → mapped w.mm a ≡ inside vs a)
          → mapped w.mm a ≡ (if leb w.cursor a then wanted ss (mapped w.mm a) a else mapped w.mm a)
      kept_as [] [] e a g = ground (arith, g)
      kept_as [] (s ∷ ss) e a g = absurd (cc)
      kept_as (v ∷ vs) ss e a g = absurd (cc)

  abbrev continue : ℕ → Sweep M → List Span → Verdict → Option (M × ℕ)
  continue fuel w vs v =
      let r = fix_interval o w (low o mapped laws w vs) in
      elim v [
        | goes_on ↦ sweep o fuel (after o mapped laws w vs r.0)
        | returns res ↦ some (r.0, res)
      ]

  -- What the later rounds are to do, with what this one has done, is what all are to do.
  round_wanted :
      (w : Sweep M) (vs : List Span) (m : M)
      → Held o mapped laws w vs
      → Next o mapped laws w vs (low o mapped laws w vs)
      → ((a : ℕ)
          → mapped m a ≡ (
              if within (w.cursor, low o mapped laws w vs) a
              then wanted w.ss_vmas (mapped w.mm a) a
              else mapped w.mm a))
      → (a : ℕ)
      → (if leb (low o mapped laws w vs) a
          then wanted (left_ss (low o mapped laws w vs) w.in_ss_vmas w.ss_vmas) (mapped m a) a
          else mapped m a)
        ≡ (if leb w.cursor a then wanted w.ss_vmas (mapped w.mm a) a else mapped w.mm a)
  round_wanted w vs m h x k a = by_place (low o mapped laws w vs) x.from k
    where
      by_place :
          (n : ℕ)
          → w.cursor ≤ n
          → ((a : ℕ)
              → mapped m a ≡ (
                  if within (w.cursor, n) a
                  then wanted w.ss_vmas (mapped w.mm a) a
                  else mapped w.mm a))
          → (if leb n a
              then wanted (left_ss n w.in_ss_vmas w.ss_vmas) (mapped m a) a
              else mapped m a)
            ≡ (if leb w.cursor a then wanted w.ss_vmas (mapped w.mm a) a else mapped w.mm a)
      by_place n f k =
          ground
            (arith, k a, left_ss-wanted w.cursor n a w.in_ss_vmas (mapped m a) w.ss_vmas h.places.3)

  sweep-Ends :
      (fuel : ℕ) (w : Sweep M) (vs : List Span)
      → MapsMissing o mapped laws
      → Held o mapped laws w vs
      → measure w vs < fuel
      → Ends w (sweep o fuel w)
  sweep-Ends zero w vs mem h f = absurd (omega arith)
  sweep-Ends (suc fuel) w vs mem h f = elim (Bool-cases (is_nil vs && is_nil w.ss_vmas)) [
    | inl e ↦ nothing_left fuel w vs h e
    | inr e ↦
        let x = Next-low o mapped laws w vs h e in
        subst (Ends w) (sym (sweep_step fuel w vs h e))
          (elim (fix_interval-Outcome o mapped laws w vs (low o mapped laws w vs) mem h x) [
            | stops res s z ↦ (
              (fix_interval o w (low o mapped laws w vs)).0,
              res,
              ap (continue fuel w vs) s,
              λ y. absurd (ground arith),
            )
            | goes vs' g c l u k ↦
                let w' = after o mapped laws w vs (fix_interval o w (low o mapped laws w vs)).0 in
                let later =
                  sweep-Ends fuel w' vs' mem (Held-after o mapped laws w vs vs' _ h x c l u k) (
                    let p =
                      round_positions (low o mapped laws w vs) w.in_vmas w.in_ss_vmas vs vs'
                        w.ss_vmas x.top x.one l in
                    omega arith) in
                subst (Ends w) (sym (ap (continue fuel w vs) g))
                  (later.0, later.1, later.2, λ y a. later.3 y a ∙ round_wanted w vs _ h x k a)
          ])
  ]

  -- `restore_vmas` ends, and if it returns 0 then exactly the wanted addresses are mapped: those of
  -- the snapshot's regions, except that a missing part of a region that is not private and anonymous
  -- is still missing. The fuel is above twice the number of the regions of both kinds, the regions
  -- of both kinds are disjoint, of whole pages and in ascending order, mapping and unmapping have
  -- their documented effect, a mapping of whole pages where nothing is mapped succeeds, and no
  -- region of the process reaches from before the end of a region of the snapshot across a gap into
  -- the next one, or begins inside a private anonymous region of the snapshot or at its end.
  pub restore_vmas-wanted :
      (fuel : ℕ) (ss : List SnapshotVma) (m : M) (vs : List Span)
      → MapsMissing o mapped laws
      → Chain o m (o.mmap m) vs
      → Ascend 0 vs
      → Ascend 0 (spans ss)
      → bridges_free vs ss ≡ true
      → ((a : ℕ) → mapped m a ≡ inside vs a)
      → positions false vs + positions false (spans ss) < fuel
      → (m' : M) × (res : ℕ) × (restore_vmas o fuel ss m ≡ some (m', res))
        × (res ≡ 0 → (a : ℕ) → mapped m' a ≡ wanted ss (mapped m a) a)
  unfolding restore_vmas
  restore_vmas-wanted fuel ss m vs mem c a b f e l =
      let r =
        sweep-Ends fuel
          (record {
            mm = m;
            vma_iter = o.mmap m;
            ss_vmas = ss;
            cursor = 0;
            in_vmas = false;
            in_ss_vmas = false;
          })
          vs mem
          (record {
            chain = c;
            places = (omega arith, refl, a, b);
            agree = λ q _. e q;
            unbridged = f;
            clear = λ z. absurd (cc);
          })
          l in
      (r.0, r.1, r.2, λ z q. r.3 z q ∙ ground arith)
