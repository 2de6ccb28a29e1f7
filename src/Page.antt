-- ===== src/Page.antt =====
-- `struct snapshot_page` of src/snapshot.h, its flags, and the table of pages.
use afl_snapshot_lkm.Base.{ℕ, Bool, Option, has_flag, set_flag}

-- A page's bytes are only moved, never computed with, so the contents of a page are any number.
-- `next` and `dirty_list` are the links of the two containers that hold the page.
pub record SnapshotPage : Type 0 where
  pub page_base : ℕ
  pub page_prot : ℕ
  pub page_data : Option ℕ
  pub has_been_copied : Bool
  pub has_had_pte : Bool
  pub dirty : Bool
  pub in_dirty_list : Bool

abbrev pub snapshot_private : ℕ
snapshot_private = 0x1

abbrev pub snapshot_cow : ℕ
snapshot_cow = 0x2

abbrev pub snapshot_none_pte : ℕ
snapshot_none_pte = 0x10

abbrev pub page_size : ℕ
page_size = 4096

abbrev pub is_snapshot_page_none_pte : SnapshotPage → Bool
is_snapshot_page_none_pte sp = has_flag snapshot_none_pte sp.page_prot

abbrev pub is_snapshot_page_cow : SnapshotPage → Bool
is_snapshot_page_cow sp = has_flag snapshot_cow sp.page_prot

abbrev pub is_snapshot_page_private : SnapshotPage → Bool
is_snapshot_page_private sp = has_flag snapshot_private sp.page_prot

abbrev pub set_snapshot_page_none_pte : SnapshotPage → SnapshotPage
set_snapshot_page_none_pte sp = record sp { page_prot = set_flag snapshot_none_pte sp.page_prot }

abbrev pub set_snapshot_page_private : SnapshotPage → SnapshotPage
set_snapshot_page_private sp = record sp { page_prot = set_flag snapshot_private sp.page_prot }

abbrev pub set_snapshot_page_cow : SnapshotPage → SnapshotPage
set_snapshot_page_cow sp = record sp { page_prot = set_flag snapshot_cow sp.page_prot }
