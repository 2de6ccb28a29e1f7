-- ===== src/Regions/Interval.antt =====
-- What an interval of `restore_vmas`, src/memory.c, is to be left as.
use afl_snapshot_lkm.Base.{
  ℕ, ◌+◌, ◌-◌, ◌≤◌, ◌<◌, ◌%◌, ◌≡◌, ◌⊎◌, refl, ◌∙◌, Bool, true, false, ◌&&◌, ◌||◌, ◌==◌,
  if◌then◌else◌, some, List, arith, Bool-cases, inl, inr,
}
use afl_snapshot_lkm.Page.{page_size}
use afl_snapshot_lkm.Regions.{
  VmaOps, Sweep, Verdict, goes_on, returns, ulong_max, next_ss_vma_pos, next_vma_iter,
}
use afl_snapshot_lkm.Regions.Spans.{Span, within, next_pos, left_spans, inside-to_next}
use afl_snapshot_lkm.Regions.Space.{
  Chain, VmaLaws, next_vma_iter-Chain, wanted, head_anonymous, wanted-to_next, bridges_free,
  bridges_free-rest,
}
use afl_snapshot_lkm.Regions.Round.{Held, Left, kept}

pub interval : (c n : ℕ) → c ≤ n → c + (n - c) ≡ n
interval c n h = omega arith

pub aligned_length :
    (c n : ℕ) → c ≤ n → c % page_size ≡ 0 → n % page_size ≡ 0 → (n - c) % page_size ≡ 0
aligned_length c n h p q = omega arith

module _ {M : Type 0} (o : VmaOps M) (mapped : M → ℕ → Bool) (laws : VmaLaws o mapped) where
  -- Memory can be had: a mapping of whole pages at an address where nothing is mapped, below the top of
  -- the address space, is made there.
  abbrev pub MapsMissing : Type 0
  MapsMissing =
      (m : M) (a n prot : ℕ)
      → a % page_size ≡ 0
      → n % page_size ≡ 0
      → 0 < n
      → a + n < ulong_max
      → ((x : ℕ) → a ≤ x → x < a + n → mapped m x ≡ false)
      → (o.vm_mmap m a n prot).1 ≡ some a

  -- After the interval the function returns an error, or it is as wanted and the rest is as it was.
  pub data Outcome (w : Sweep M) (n : ℕ) (vs : List Span) (r : M × Verdict) : Type 0 where
    stops : (res : ℕ) → r.1 ≡ returns res → (res == 0) ≡ false → Outcome w n vs r
    goes :
        (vs' : List Span)
        → r.1 ≡ goes_on
        → Chain o r.0
            (if n == next_pos w.in_vmas vs && w.in_vmas
              then next_vma_iter o w.mm w.vma_iter
              else w.vma_iter)
            vs'
        → Left n w.in_vmas vs vs'
        → bridges_free vs' w.ss_vmas ≡ true
        → ((a : ℕ)
            → mapped r.0 a ≡ (
                if within (w.cursor, n) a
                then wanted w.ss_vmas (mapped w.mm a) a
                else mapped w.mm a))
        → Outcome w n vs r

  -- The next position.
  pub record Next (w : Sweep M) (vs : List Span) (n : ℕ) : Type 0 where
    pub from : w.cursor ≤ n
    pub top : n < ulong_max
    pub aligned : n % page_size ≡ 0
    pub to_vma : n ≤ next_pos w.in_vmas vs
    pub to_ss : n ≤ next_ss_vma_pos w.in_ss_vmas w.ss_vmas
    pub one : (n ≡ next_pos w.in_vmas vs) ⊎ (n ≡ next_ss_vma_pos w.in_ss_vmas w.ss_vmas)

  module _ (w : Sweep M) (vs : List Span) (n : ℕ) (h : Held o mapped laws w vs)
      (x : Next w vs n) where
    pub mapped_there : (a : ℕ) → w.cursor ≤ a → a < n → mapped w.mm a ≡ w.in_vmas
    mapped_there a p q =
        h.agree a p
        ∙ inside-to_next w.cursor a w.in_vmas vs h.places.2 p (let t = x.to_vma in omega arith)

    pub wanted_there :
        (a : ℕ) (b : Bool)
        → w.cursor ≤ a
        → a < n
        → wanted w.ss_vmas b a ≡ (if w.in_ss_vmas then b || head_anonymous w.ss_vmas else false)
    wanted_there a b p q =
        wanted-to_next w.cursor a w.in_ss_vmas b w.ss_vmas h.places.3 p
          (let t = x.to_ss in omega arith)

    Chain-left_rest :
        Chain o w.mm
          (if n == next_pos w.in_vmas vs && w.in_vmas
            then next_vma_iter o w.mm w.vma_iter
            else w.vma_iter)
          (left_spans n w.in_vmas vs)
    Chain-left_rest = elim (Bool-cases (n == next_pos w.in_vmas vs && w.in_vmas)) [
      | inl e ↦ rw e (next_vma_iter-Chain o w.mm w.vma_iter vs h.chain)
      | inr e ↦ rw e h.chain
    ]

    -- Nothing is to be done.
    pub idle :
        ((a : ℕ) → w.cursor ≤ a → a < n → wanted w.ss_vmas (mapped w.mm a) a ≡ mapped w.mm a)
        → Outcome w n vs (w.mm, goes_on)
    idle same =
        goes (left_spans n w.in_vmas vs) refl Chain-left_rest (kept refl)
          (bridges_free-rest vs n w.in_vmas w.ss_vmas h.unbridged) (λ a. ground (arith, same a))
