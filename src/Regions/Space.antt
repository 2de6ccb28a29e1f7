-- ===== src/Regions/Space.antt =====
-- The address space that `restore_vmas` of src/memory.c works on: its list of regions, the documented
-- effect of mapping and unmapping, and what the sweep is to leave mapped.
use afl_snapshot_lkm.Base.{
  not, ltb, ℕ, ◌+◌, ◌≤◌, ◌<◌, ◌%◌, ◌≡◌, refl, Bool, true, false, ◌&&◌, ◌||◌, leb, ◌==◌,
  if◌then◌else◌, Option, none, some, List, [], ◌∷◌, arith,
}
use afl_snapshot_lkm.Page.{page_size}
use afl_snapshot_lkm.Task.{SnapshotVma}
use afl_snapshot_lkm.Regions.{VmaOps, next_ss_vma_pos, next_vma_pos, next_vma_iter, list_next}
use afl_snapshot_lkm.Regions.Spans.{Span, within, Ascend, At, next_pos, rest, left_spans}

-- Whether the first region begins at `e`.
abbrev pub touches : ℕ → List Span → Bool
touches e [] = false
touches e (v ∷ vs) = v.0 == e

module _ {M : Type 0} (o : VmaOps M) where
  -- The list of regions from a pointer on.
  abbrev pub Chain : M → Option ℕ → List Span → Type 0
  Chain m v [] = v ≡ none
  Chain m v (r ∷ rs) =
      (p : ℕ) × (v ≡ some p)
      × (r.0 ≡ o.vm_start m p)
      × (r.1 ≡ o.vm_end m p)
      × Chain m (o.vm_next m p) rs

  -- The documented effects on which addresses are mapped and on the list of regions. A region that is
  -- unmapped in part keeps its pointer for the part below, or if there is none for the part above. What
  -- is mapped is not merged with a region above it that it does not touch.
  pub record VmaLaws (mapped : M → ℕ → Bool) : Type 0 where
    pub mapped-munmap :
        (m : M) (a n x : ℕ)
        → (o.vm_munmap m a n).1 ≡ 0
        → a % page_size ≡ 0
        → n % page_size ≡ 0
        → mapped (o.vm_munmap m a n).0 x ≡ (if within (a, a + n) x then false else mapped m x)
    pub mapped-mmap :
        (m : M) (a n prot x : ℕ)
        → (o.vm_mmap m a n prot).1 ≡ some a
        → a % page_size ≡ 0
        → n % page_size ≡ 0
        → mapped (o.vm_mmap m a n prot).0 x ≡ (if within (a, a + n) x then true else mapped m x)
    pub Chain-munmap :
        (m : M) (a n : ℕ) (v : Option ℕ) (vs : List Span)
        → (o.vm_munmap m a n).1 ≡ 0
        → Ascend (a + n) vs
        → Chain m v vs
        → Chain (o.vm_munmap m a n).0 v vs
    pub Chain-munmap_part :
        (m : M) (a n : ℕ) (v : Option ℕ) (r : Span) (vs : List Span)
        → (o.vm_munmap m a n).1 ≡ 0
        → r.0 ≤ a
        → 0 < n
        → a + n < r.1
        → Chain m v (r ∷ vs)
        → Chain
            (o.vm_munmap m a n).0
            v
            (if r.0 == a then (a + n, r.1) ∷ vs else (r.0, a) ∷ (a + n, r.1) ∷ vs)
    pub Chain-mmap :
        (m : M) (a n prot : ℕ) (v : Option ℕ) (vs : List Span)
        → (o.vm_mmap m a n prot).1 ≡ some a
        → touches (a + n) vs ≡ false
        → Ascend (a + n) vs
        → Chain m v vs
        → Chain (o.vm_mmap m a n prot).0 v vs

  -- The positions that the code reads are those of the list.
  pub next_vma_pos-Chain :
      (m : M) (b : Bool) (v : Option ℕ) (vs : List Span)
      → Chain m v vs
      → next_vma_pos o m b v ≡ next_pos b vs
  unfolding next_pos
  next_vma_pos-Chain m b v [] c = rw c refl
  next_vma_pos-Chain m b v (r ∷ rs) c = rw (c.1, c.2, c.3) refl

  pub next_vma_iter-Chain :
      (m : M) (v : Option ℕ) (vs : List Span)
      → Chain m v vs
      → Chain m (next_vma_iter o m v) (rest vs)
  next_vma_iter-Chain m v [] c = rw c refl
  next_vma_iter-Chain m v (r ∷ rs) c = rw c.1 c.4

abbrev pub span : SnapshotVma → Span
span r = (r.vm_start, r.vm_end)

abbrev pub spans : List SnapshotVma → List Span
spans [] = []
spans (r ∷ rs) = span r ∷ spans rs

pub next_ss_vma_pos-spans :
    (b : Bool) (ss : List SnapshotVma) → next_ss_vma_pos b ss ≡ next_pos b (spans ss)
unfolding next_pos
next_ss_vma_pos-spans b [] = refl
next_ss_vma_pos-spans b (r ∷ rs) = refl

pub spans-list_next : (ss : List SnapshotVma) → spans (list_next ss) ≡ rest (spans ss)
spans-list_next [] = refl
spans-list_next (r ∷ rs) = refl

-- Whether an address is to be mapped: it is in a region of the snapshot, and it is mapped already or the
-- region is private and anonymous. What else is missing cannot be put back.
unfoldable pub wanted : List SnapshotVma → Bool → ℕ → Bool
wanted [] b a = false
wanted (r ∷ rs) b a = if within (span r) a then b || r.is_anonymous_private else wanted rs b a

wanted-below :
    (lo a : ℕ) (b : Bool) (ss : List SnapshotVma)
    → Ascend lo (spans ss)
    → a < lo
    → wanted ss b a ≡ false
unfolding wanted
wanted-below lo a b [] s h = refl
wanted-below lo a b (r ∷ rs) s h = ground (arith, wanted-below r.vm_end a b rs s.2)

-- The region that the sweep is in is anonymous and private.
abbrev pub head_anonymous : List SnapshotVma → Bool
head_anonymous [] = false
head_anonymous (r ∷ rs) = r.is_anonymous_private

pub wanted-to_next :
    (c a : ℕ) (b x : Bool) (ss : List SnapshotVma)
    → At c b (spans ss)
    → c ≤ a
    → a < next_ss_vma_pos b ss
    → wanted ss x a ≡ (if b then x || head_anonymous ss else false)
unfolding wanted
wanted-to_next c a true x [] s h k = absurd s
wanted-to_next c a true x (r ∷ rs) s h k = ground arith
wanted-to_next c a false x [] s h k = refl
wanted-to_next c a false x (r ∷ rs) s h k = ground (arith, wanted-below r.vm_end a x rs s.2)

-- What is left of the list at `n`.
abbrev pub left_ss : ℕ → Bool → List SnapshotVma → List SnapshotVma
left_ss n b ss = if n == next_ss_vma_pos b ss && b then list_next ss else ss

pub left_ss-wanted :
    (c n a : ℕ) (b x : Bool) (ss : List SnapshotVma)
    → At c b (spans ss)
    → n ≤ a
    → wanted (left_ss n b ss) x a ≡ wanted ss x a
unfolding wanted
left_ss-wanted c n a true x [] s h = absurd s
left_ss-wanted c n a true x (r ∷ rs) s h = ground arith
left_ss-wanted c n a false x ss s h = ground arith

pub spans-left_ss :
    (n : ℕ) (b : Bool) (ss : List SnapshotVma) → spans (left_ss n b ss) ≡ left_spans n b (spans ss)
unfolding next_pos
spans-left_ss n b [] = ground arith
spans-left_ss n b (r ∷ rs) = ground arith

-- The region `v` does not reach from before the end of one region of the snapshot across a gap into the
-- next one.
abbrev pub gap_free : Span → SnapshotVma → List SnapshotVma → Bool
gap_free v r [] = true
gap_free v r (s ∷ ss) = leb s.vm_start r.vm_end || leb r.vm_end v.0 || leb v.1 s.vm_start

-- The region `v` does not begin inside a private anonymous region of the snapshot or at its end, where a
-- mapping of the missing part below would touch it.
abbrev pub unjoined : Span → SnapshotVma → Bool
unjoined v r = not r.is_anonymous_private || leb v.0 r.vm_start || ltb r.vm_end v.0

unfoldable pub bridge_free : Span → List SnapshotVma → Bool
bridge_free v [] = true
bridge_free v (r ∷ rs) = gap_free v r rs && unjoined v r && bridge_free v rs

unfoldable pub bridges_free : List Span → List SnapshotVma → Bool
bridges_free [] ss = true
bridges_free (v ∷ vs) ss = bridge_free v ss && bridges_free vs ss

bridge_free-left_ss :
    (v : Span) (n : ℕ) (b : Bool) (ss : List SnapshotVma)
    → bridge_free v ss ≡ true
    → bridge_free v (left_ss n b ss) ≡ true
unfolding bridge_free
bridge_free-left_ss v n b [] h = ground arith
bridge_free-left_ss v n b (r ∷ rs) h = ground arith

pub bridges_free-left_ss :
    (vs : List Span) (n : ℕ) (b : Bool) (ss : List SnapshotVma)
    → bridges_free vs ss ≡ true
    → bridges_free vs (left_ss n b ss) ≡ true
unfolding bridges_free
bridges_free-left_ss [] n b ss h = refl
bridges_free-left_ss (v ∷ vs) n b ss h =
    ground (arith, bridge_free-left_ss v n b ss, bridges_free-left_ss vs n b ss)

-- A region that begins later bridges no more, if that is before the regions of the snapshot.
pub bridge_free-later :
    (v : Span) (n lo : ℕ) (ss : List SnapshotVma)
    → v.0 ≤ n
    → n ≤ lo
    → Ascend lo (spans ss)
    → bridge_free v ss ≡ true
    → bridge_free (n, v.1) ss ≡ true
unfolding bridge_free
bridge_free-later v n lo [] h l s e = refl
bridge_free-later v n lo (r ∷ []) h l s e = let t = s.0 in ground arith
bridge_free-later v n lo (r ∷ r' ∷ ss) h l s e =
    let t = s.0 in
    let later = bridge_free-later v n r.vm_end (r' ∷ ss) h (omega (arith, s.1.0)) s.2 in
    ground arith

pub bridges_free-rest :
    (vs : List Span) (n : ℕ) (b : Bool) (ss : List SnapshotVma)
    → bridges_free vs ss ≡ true
    → bridges_free (left_spans n b vs) ss ≡ true
unfolding bridges_free
bridges_free-rest [] n b ss h = ground arith
bridges_free-rest (v ∷ vs) n b ss h = ground arith

pub bridges_free-parts :
    (v : Span) (vs : List Span) (ss : List SnapshotVma)
    → bridges_free (v ∷ vs) ss ≡ true
    → (bridge_free v ss ≡ true) × (bridges_free vs ss ≡ true)
unfolding bridges_free
bridges_free-parts v vs ss h = ground arith

pub bridges_free-with :
    (v : Span) (vs : List Span) (ss : List SnapshotVma)
    → bridge_free v ss ≡ true
    → bridges_free vs ss ≡ true
    → bridges_free (v ∷ vs) ss ≡ true
unfolding bridges_free
bridges_free-with v vs ss h k = ground arith

-- What is missing of a private anonymous region ends where no region begins.
pub touches-unjoined :
    (c n : ℕ) (vs : List Span) (r : SnapshotVma) (rs : List SnapshotVma)
    → bridges_free vs (r ∷ rs) ≡ true
    → r.is_anonymous_private ≡ true
    → r.vm_start ≤ c
    → c < n
    → n ≤ r.vm_end
    → touches n vs ≡ false
unfolding bridges_free bridge_free
touches-unjoined c n [] r rs h e p q l = refl
touches-unjoined c n (v ∷ vs) r rs h e p q l = ground arith
