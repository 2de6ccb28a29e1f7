-- ===== src/Regions/After.antt =====
-- A round of `restore_vmas`, src/memory.c, once its interval has been seen to.
use afl_snapshot_lkm.Base.{
  ℕ, ◌+◌, ◌≤◌, ◌<◌, ◌≡◌, ◌⊎◌, refl, sym, ap, ◌∙◌, subst, Bool, true, false, ◌&&◌, ◌==◌,
  if◌then◌else◌, List, [], ◌∷◌, arith, inl, inr, eq_refl,
}
use afl_snapshot_lkm.Task.{SnapshotVma}
use afl_snapshot_lkm.Regions.{VmaOps, Sweep, ulong_max, is_nil, next_ss_vma_pos}
use afl_snapshot_lkm.Regions.Spans.{
  Span, within, At, next_pos, left_spans, left_in, positions, left-At, positions-left,
}
use afl_snapshot_lkm.Regions.Space.{
  Chain, VmaLaws, spans, next_ss_vma_pos-spans, wanted, left_ss, spans-left_ss, bridge_free,
  bridges_free, bridges_free-left_ss,
}
use afl_snapshot_lkm.Regions.Round.{
  Held, ahead, Left, kept, cut, Left-At, Left-inside, Left-positions, lower_pos-bounds, low, after,
}
use afl_snapshot_lkm.Regions.Interval.{Next}

-- After a round that stays in the first region, and out of the snapshot's, the sweep is clear again.
kept_clear :
    (c n : ℕ) (bv bs : Bool) (vs : List Span) (ss : List SnapshotVma)
    → At c bv vs
    → At c bs (spans ss)
    → c ≤ n
    → n < ulong_max
    → (n ≡ next_pos bv vs) ⊎ (n ≡ next_ss_vma_pos bs ss)
    → bridges_free vs ss ≡ true
    → left_in n bv vs ≡ true
    → left_in n bs (spans ss) ≡ false
    → ahead n (left_spans n bv vs) (left_ss n bs ss) ≡ true
unfolding next_pos bridges_free bridge_free
kept_clear c n true bs [] ss a b h t o f x y = absurd a
kept_clear c n false bs [] ss a b h t o f x y = ground arith
kept_clear c n false bs (v ∷ vs) [] a b h t o f x y = ground arith
kept_clear c n false bs (v ∷ vs) (s ∷ []) a b h t o f x y = ground arith
kept_clear c n false bs (v ∷ vs) (s ∷ s' ∷ ss) a b h t o f x y = ground arith
kept_clear c n true true (v ∷ vs) [] a b h t o f x y = absurd b
kept_clear c n true false (v ∷ vs) [] a b h t o f x y = ground arith
kept_clear c n true true (v ∷ vs) (s ∷ []) a b h t o f x y = ground arith
kept_clear c n true true (v ∷ vs) (s ∷ s' ∷ ss) a b h t o f x y = ground arith
kept_clear c n true false (v ∷ vs) (s ∷ ss) a b h t o f x y = ground arith

cut_clear : (n e : ℕ) (rs : List Span) (ss : List SnapshotVma) → ahead n ((n, e) ∷ rs) ss ≡ true
cut_clear n e rs [] = refl
cut_clear n e rs (s ∷ ss) = ground arith

Left-clear :
    (c n : ℕ) (bv bs : Bool) (vs vs' : List Span) (ss : List SnapshotVma)
    → Left n bv vs vs'
    → At c bv vs
    → At c bs (spans ss)
    → c ≤ n
    → n < ulong_max
    → (n ≡ next_pos bv vs) ⊎ (n ≡ next_ss_vma_pos bs ss)
    → bridges_free vs ss ≡ true
    → left_in n bv vs ≡ true
    → left_in n bs (spans ss) ≡ false
    → ahead n vs' (left_ss n bs ss) ≡ true
Left-clear c n bv bs vs vs' ss (kept e) a b h t o f x y =
    subst (λ z. ahead n z (left_ss n bs ss) ≡ true) (sym e)
      (kept_clear c n bv bs vs ss a b h t o f x y)
Left-clear c n bv bs vs vs' ss (cut r rs e t u v w) a b h l o f x y =
    subst (λ z. ahead n z (left_ss n bs ss) ≡ true) (sym w) (cut_clear n r.1 rs (left_ss n bs ss))

-- A round uses up a position of one list or both.
pub round_positions :
    (n : ℕ) (bv bs : Bool) (vs vs' : List Span) (ss : List SnapshotVma)
    → n < ulong_max
    → (n ≡ next_pos bv vs) ⊎ (n ≡ next_ss_vma_pos bs ss)
    → Left n bv vs vs'
    → positions (left_in n bv vs) vs'
        + positions (left_in n bs (spans ss)) (spans (left_ss n bs ss))
      < positions bv vs + positions bs (spans ss)
round_positions n bv bs vs vs' ss t o l =
    let p = positions-left n bv vs t in
    let q = positions-left n bs (spans ss) t in
    let r = Left-positions n bv (left_in n bv vs) vs vs' l in
    let s = ap (positions (left_in n bs (spans ss))) (spans-left_ss n bs ss) in
    let k = next_ss_vma_pos-spans bs ss in used o p q r s k
  where
    used :
        (n ≡ next_pos bv vs) ⊎ (n ≡ next_ss_vma_pos bs ss)
        → positions bv vs
          ≡ (if n == next_pos bv vs then 1 else 0)
            + positions (left_in n bv vs) (left_spans n bv vs)
        → positions bs (spans ss)
          ≡ (if n == next_pos bs (spans ss) then 1 else 0)
            + positions (left_in n bs (spans ss)) (left_spans n bs (spans ss))
        → positions (left_in n bv vs) vs' ≡ positions (left_in n bv vs) (left_spans n bv vs)
        → positions (left_in n bs (spans ss)) (spans (left_ss n bs ss))
          ≡ positions (left_in n bs (spans ss)) (left_spans n bs (spans ss))
        → next_ss_vma_pos bs ss ≡ next_pos bs (spans ss)
        → positions (left_in n bv vs) vs'
            + positions (left_in n bs (spans ss)) (spans (left_ss n bs ss))
          < positions bv vs + positions bs (spans ss)
    used (inl z) p q r s k =
        let e : (n == next_pos bv vs) ≡ true = ap (λ t. n == t) (sym z) ∙ eq_refl n in ground arith
    used (inr z) p q r s k =
        let e : (n == next_pos bs (spans ss)) ≡ true = ap (λ t. n == t) (sym (z ∙ k)) ∙ eq_refl n in
        ground arith

module _ {M : Type 0} (o : VmaOps M) (mapped : M → ℕ → Bool) (laws : VmaLaws o mapped) where
  pub Next-low :
      (w : Sweep M) (vs : List Span)
      → Held o mapped laws w vs
      → (is_nil vs && is_nil w.ss_vmas) ≡ false
      → Next o mapped laws w vs (low o mapped laws w vs)
  Next-low w vs h e =
      let b = lower_pos-bounds w.cursor w.in_vmas w.in_ss_vmas vs w.ss_vmas h.places e in
      let p = next_ss_vma_pos-spans w.in_ss_vmas w.ss_vmas in
      record {
        from = b.0;
        top = b.1;
        aligned = b.2;
        to_vma = b.3;
        to_ss = rw p b.4;
        one = rw p (ground arith);
      }

  pub Held-after :
      (w : Sweep M) (vs vs' : List Span) (m : M)
      → Held o mapped laws w vs
      → Next o mapped laws w vs (low o mapped laws w vs)
      → Chain o m (after o mapped laws w vs m).vma_iter vs'
      → Left (low o mapped laws w vs) w.in_vmas vs vs'
      → bridges_free vs' w.ss_vmas ≡ true
      → ((a : ℕ)
          → mapped m a ≡ (
              if within (w.cursor, low o mapped laws w vs) a
              then wanted w.ss_vmas (mapped w.mm a) a
              else mapped w.mm a))
      → Held o mapped laws (after o mapped laws w vs m) vs'
  Held-after w vs vs' m h x c l u e =
      let n = low o mapped laws w vs in
      record {
        chain = c;
        places = (
          x.top,
          x.aligned,
          Left-At w.cursor n w.in_vmas vs vs' l h.places.2 x.from x.to_vma x.top x.aligned,
          rw (spans-left_ss n w.in_ss_vmas w.ss_vmas) (
              left-At w.cursor n w.in_ss_vmas (spans w.ss_vmas) h.places.3 x.from
                (subst (λ t. n ≤ t) (next_ss_vma_pos-spans w.in_ss_vmas w.ss_vmas) x.to_ss) x.top),
        );
        agree = λ a q.
            let i = Left-inside w.cursor n a w.in_vmas vs vs' l h.places.2 q in
            let f = x.from in e a ∙ ground (arith, h.agree a);
        unbridged = bridges_free-left_ss vs' n w.in_ss_vmas w.ss_vmas u;
        clear =
            Left-clear w.cursor n w.in_vmas w.in_ss_vmas vs vs' w.ss_vmas l h.places.2 h.places.3
              x.from x.top x.one h.unbridged;
      }
