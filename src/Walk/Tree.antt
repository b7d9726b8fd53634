-- ===== src/Walk/Tree.antt =====
-- The trees that the walk is about, and what there is to record of them.
use zns_tools.Base.{
  ℕ, ◌+◌, ◌≤◌, ◌<◌, ◌≡◌, true, false, Text, length, arith, ◌⊎◌, inl, inr, List, [], ◌∷◌, ◌++◌,
}
use zns_tools.Types.{Extent, Control}
use zns_tools.Device.{Kernel}
use zns_tools.Fiemap.Entry.{wanted, AreEntries}
use zns_tools.Fiemap.Collect.{recorded}
use zns_tools.Fiemap.Wanted.{recorded-le}
use zns_tools.Gather.State.{IsFile}
use zns_tools.Walk.{
  Entries, deleted, denied, no_stat, opened, end_of_directory, file, directory, is_dots,
}

module _ (c_0 : Control) (sectors fuel : ℕ) where
  -- A tree whose files are deleted meanwhile, or files of the device with something to record.
  abbrev pub IsTree : Entries → Type 0
  IsTree end_of_directory = Unit
  IsTree (file name deleted rest) = IsTree rest
  IsTree (file name denied rest) = ⊥
  IsTree (file name no_stat rest) = ⊥
  IsTree (file name (opened fiemap st_blocks) rest) =
      (f : IsFile c_0 sectors fuel fiemap st_blocks) × (0 < recorded c_0 f.file) × IsTree rest
  IsTree (directory name inner rest) =
      ((is_dots name ≡ true) ⊎ ((is_dots name ≡ false) × IsTree inner)) × IsTree rest

  -- Of all the files: the extents that FIEMAP tells, those to record, and the files.
  abbrev pub told : (t : Entries) → IsTree t → ℕ
  told end_of_directory ok = 0
  told (file name deleted rest) ok = told rest ok
  told (file name denied rest) ok = 0
  told (file name no_stat rest) ok = 0
  told (file name (opened fiemap st_blocks) rest) ok = length ok.0.file + told rest ok.2
  told (directory name inner rest) (inl dots, ok) = told rest ok
  told (directory name inner rest) (inr sub, ok) = told inner sub.1 + told rest ok

  abbrev pub to_record : (t : Entries) → IsTree t → ℕ
  to_record end_of_directory ok = 0
  to_record (file name deleted rest) ok = to_record rest ok
  to_record (file name denied rest) ok = 0
  to_record (file name no_stat rest) ok = 0
  to_record (file name (opened fiemap st_blocks) rest) ok =
      recorded c_0 ok.0.file + to_record rest ok.2
  to_record (directory name inner rest) (inl dots, ok) = to_record rest ok
  to_record (directory name inner rest) (inr sub, ok) = to_record inner sub.1 + to_record rest ok

  abbrev pub files : (t : Entries) → IsTree t → ℕ
  files end_of_directory ok = 0
  files (file name deleted rest) ok = files rest ok
  files (file name denied rest) ok = 0
  files (file name no_stat rest) ok = 0
  files (file name (opened fiemap st_blocks) rest) ok = 1 + files rest ok.2
  files (directory name inner rest) (inl dots, ok) = files rest ok
  files (directory name inner rest) (inr sub, ok) = files inner sub.1 + files rest ok

  pub to_record-le : (t : Entries) (ok : IsTree t) → to_record t ok ≤ told t ok
  to_record-le end_of_directory ok = omega arith
  to_record-le (file name deleted rest) ok = to_record-le rest ok
  to_record-le (file name denied rest) ok = omega arith
  to_record-le (file name no_stat rest) ok = omega arith
  to_record-le (file name (opened fiemap st_blocks) rest) ok =
      let here : recorded c_0 ok.0.file ≤ length ok.0.file = recorded-le c_0 ok.0.file in
      let rest_le = to_record-le rest ok.2 in omega arith
  to_record-le (directory name inner rest) (inl dots, ok) = to_record-le rest ok
  to_record-le (directory name inner rest) (inr sub, ok) =
      let inner_le = to_record-le inner sub.1 in let rest_le = to_record-le rest ok in omega arith

  -- The entries for all the files of the tree, in the walk's order, the first of them being file number
  -- `j`: each with the file's path and number, for the extents of it that are to be recorded.
  abbrev pub TreeEntries :
      Kernel → Control → Text → (t : Entries) → IsTree t → ℕ → List Extent → Type 0
  TreeEntries k b path end_of_directory ok j es = es ≡ []
  TreeEntries k b path (file name deleted rest) ok j es = TreeEntries k b path rest ok j es
  TreeEntries k b path (file name denied rest) ok j es = ⊥
  TreeEntries k b path (file name no_stat rest) ok j es = ⊥
  TreeEntries k b path (file name (opened fiemap st_blocks) rest) ok j es =
      (fs : List Extent) × (gs : List Extent) × (es ≡ fs ++ gs)
      × AreEntries k (path ++ (47 ∷ name)) (record b { nr_files = j }) 0 (wanted b ok.0.file) fs
      × TreeEntries k b path rest ok.2 (j + 1) gs
  TreeEntries k b path (directory name inner rest) (inl dots, ok) j es =
      TreeEntries k b path rest ok j es
  TreeEntries k b path (directory name inner rest) (inr sub, ok) j es =
      (fs : List Extent) × (gs : List Extent) × (es ≡ fs ++ gs)
      × TreeEntries k b (path ++ (47 ∷ (name ++ (47 ∷ [])))) inner sub.1 j fs
      × TreeEntries k b path rest ok (j + files inner sub.1) gs
