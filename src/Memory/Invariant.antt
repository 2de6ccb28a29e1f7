-- ===== src/Memory/Invariant.antt =====
-- What the table of pages and the list of dirty pages of src/memory.c mean, page by page.
use afl_snapshot_lkm.Base.{
  ℕ, ◌≡◌, Bool, true, false, Option, none, some, ◌==◌, elem, is_some, Bool-cases, inl, inr, subst,
  sym, ◌∙◌, ==_iff,
}
use afl_snapshot_lkm.Page.{SnapshotPage, is_snapshot_page_none_pte, is_snapshot_page_private}
use afl_snapshot_lkm.Task.{TaskData, have_snapshot}
use afl_snapshot_lkm.Mmu.{Mmu, PageView, view}
use afl_snapshot_lkm.Memory.{is_snapshotted_address}

-- A page that had an entry when the snapshot was taken, with the bytes `c`: as long as nothing has
-- recorded it, it cannot be written and holds `c`; once it is recorded, `c` is saved and the page
-- is on the list.
pub record SavedPage (c : ℕ) (sp : SnapshotPage) (v : PageView) : Type 0 where
  pub plain : is_snapshot_page_none_pte sp ≡ false
  pub copied : sp.has_been_copied ≡ true → sp.page_data ≡ some c
  pub recorded : sp.dirty ≡ true → (sp.has_been_copied ≡ true) × (sp.in_dirty_list ≡ true)
  pub clean : sp.dirty ≡ false → (v.absent ≡ false) × (v.writable ≡ false) × (v.bytes ≡ c)

-- A page that had no entry: it is dropped on restore if it has been filled since, and then reads
-- as its backing `c` again.
pub record LazyPage (c : ℕ) (sp : SnapshotPage) (v : PageView) : Type 0 where
  pub flagged : is_snapshot_page_none_pte sp ≡ true
  pub not_private : is_snapshot_page_private sp ≡ false
  pub not_dirty : sp.dirty ≡ false
  pub filled : sp.in_dirty_list ≡ true → sp.has_had_pte ≡ true
  pub idle : sp.in_dirty_list ≡ false → (v.anon ≡ false) × (v.writable ≡ false) × (v.bytes ≡ c)

-- The three states of a page whose bytes at the snapshot were `c`; `b` is its backing.
pub data PageOk (b c : ℕ) (e : Option SnapshotPage) (v : PageView) : Type 0 where
  untouched : e ≡ none → c ≡ b → v.anon ≡ false → v.writable ≡ false → v.bytes ≡ c → PageOk b c e v
  lazy : (sp : SnapshotPage) → e ≡ some sp → c ≡ b → LazyPage c sp v → PageOk b c e v
  saved : (sp : SnapshotPage) → e ≡ some sp → SavedPage c sp v → PageOk b c e v

-- Of the view only what the last field says matters.
pub LazyPage-view :
    (c : ℕ) (sp : SnapshotPage) (v v' : PageView)
    → (sp.in_dirty_list ≡ false
        → (v.anon ≡ false) × (v.writable ≡ false) × (v.bytes ≡ c)
        → (v'.anon ≡ false) × (v'.writable ≡ false) × (v'.bytes ≡ c))
    → LazyPage c sp v
    → LazyPage c sp v'
LazyPage-view c sp v v' h r = record {
  flagged = r.flagged;
  not_private = r.not_private;
  not_dirty = r.not_dirty;
  filled = r.filled;
  idle = λ z. h z (r.idle z);
}

pub SavedPage-view :
    (c : ℕ) (sp : SnapshotPage) (v v' : PageView)
    → (sp.dirty ≡ false
        → (v.absent ≡ false) × (v.writable ≡ false) × (v.bytes ≡ c)
        → (v'.absent ≡ false) × (v'.writable ≡ false) × (v'.bytes ≡ c))
    → SavedPage c sp v
    → SavedPage c sp v'
SavedPage-view c sp v v' h r = record {
  plain = r.plain;
  copied = r.copied;
  recorded = r.recorded;
  clean = λ z. h z (r.clean z);
}

-- A page of the table is stored under its address, and knows whether it is on the list of dirty
-- pages; the list has pages of the table only, and a page that has been copied has its data.
pub record Linked (p : ℕ) (e : Option SnapshotPage) (listed : Bool) : Type 0 where
  pub unknown : e ≡ none → listed ≡ false
  pub based : (sp : SnapshotPage) → e ≡ some sp → sp.page_base ≡ p
  pub flag : (sp : SnapshotPage) → e ≡ some sp → sp.in_dirty_list ≡ listed
  pub data_kept :
      (sp : SnapshotPage) → e ≡ some sp → sp.has_been_copied ≡ true → is_some sp.page_data ≡ true

-- `promise p` is what page `p` held when the snapshot was taken, for the pages that a restore is to
-- put back.
module _ {S P : Type 0} (k : Mmu S P) (backing : ℕ → ℕ) (promise : ℕ → Option ℕ) where
  pub record Inv (d : TaskData) (s : S) : Type 0 where
    pub made : have_snapshot d ≡ true
    pub linked : (p : ℕ) → Linked p (d.ss.ss_pages p) (elem p d.ss.dirty_pages)
    pub pages : (p c : ℕ) → promise p ≡ some c → PageOk (backing p) c (d.ss.ss_pages p) (view k s p)
    -- a promised page that the table does not know yet is one that a first touch adds
    pub reachable :
        (p c : ℕ) → promise p ≡ some c → d.ss.ss_pages p ≡ none → is_snapshotted_address d p ≡ true

  -- A step that touches page `p` alone, and takes no page off the table.
  pub record OnlyPage (p : ℕ) (d : TaskData) (s : S) (d' : TaskData) (s' : S) : Type 0 where
    pub status_same : d'.ss.status ≡ d.ss.status
    pub vmas_same : d'.ss.snapshotted_vmas ≡ d.ss.snapshotted_vmas
    pub page_same : (q : ℕ) → (p == q) ≡ false → d'.ss.ss_pages q ≡ d.ss.ss_pages q
    pub listed_same :
        (q : ℕ) → (p == q) ≡ false → elem q d'.ss.dirty_pages ≡ elem q d.ss.dirty_pages
    pub view_same : (q : ℕ) → (p == q) ≡ false → view k s' q ≡ view k s q
    pub kept : d'.ss.ss_pages p ≡ none → d.ss.ss_pages p ≡ none

  -- Such a step keeps the invariant if it keeps it at `p`.
  pub OnlyPage-Inv :
      (p : ℕ) (d : TaskData) (s : S) (d' : TaskData) (s' : S)
      → OnlyPage p d s d' s'
      → Inv d s
      → Linked p (d'.ss.ss_pages p) (elem p d'.ss.dirty_pages)
      → ((c : ℕ) → promise p ≡ some c → PageOk (backing p) c (d'.ss.ss_pages p) (view k s' p))
      → Inv d' s'
  OnlyPage-Inv p d s d' s' o i l h = record {
    made = rw o.status_same i.made;
    linked = λ q. elim (Bool-cases (p == q)) [
      | inl e ↦ rw (← same q e) l
      | inr e ↦ rw (o.page_same q e, o.listed_same q e) (i.linked q)
    ];
    pages = λ q c w. elim (Bool-cases (p == q)) [
      | inl e ↦
          subst (λ r. PageOk (backing r) c (d'.ss.ss_pages r) (view k s' r)) (same q e)
            (h c (rw (same q e) w))
      | inr e ↦ rw (o.page_same q e, o.view_same q e) (i.pages q c w)
    ];
    reachable = λ q c w z. elim (Bool-cases (p == q)) [
      | inl e ↦ rw o.vmas_same (
          i.reachable q c w
            (subst (λ r. d.ss.ss_pages r ≡ none) (same q e) (o.kept (rw (same q e) z))))
      | inr e ↦ rw o.vmas_same (i.reachable q c w (sym (o.page_same q e) ∙ z))
    ];
  }
    where
      same : (q : ℕ) → (p == q) ≡ true → p ≡ q
      same q e = (==_iff p q).0 e
