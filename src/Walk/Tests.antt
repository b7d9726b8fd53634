-- ===== src/Walk/Tests.antt =====
-- A directory with `.`, a file, a file that is deleted meanwhile, and a directory with the file again.
use zns_tools.Base.{◌≡◌, refl, arith, [], ◌∷◌, inl, inr, Text, text_eq, true, false}
use zns_tools.Fixtures.{kernel, control, no_extents}
use zns_tools.Fiemap.Tests.{fiemap, name, two_recorded}
use zns_tools.Gather.Tests.{ready, whole_file, no_total}
use zns_tools.Walk.{
  Entries, deleted, opened, end_of_directory, file, directory, is_dots, collect_extents,
}
use zns_tools.Walk.Tree.{IsTree, to_record}
use zns_tools.Walk.Steps.{Walked}
use zns_tools.Walk.Whole.{collect_extents-Walked}

abbrev dot : Text
dot = 46 ∷ []

abbrev path : Text
path = 100 ∷ []

abbrev subtree : Entries
subtree = file name (opened fiemap 2048) end_of_directory

abbrev tree : Entries
tree =
    directory dot end_of_directory
      (file name (opened fiemap 2048) (file name deleted (directory path subtree end_of_directory)))

dot_passed : is_dots dot ≡ true
unfolding text_eq
dot_passed = refl

path_entered : is_dots path ≡ false
unfolding text_eq
path_entered = refl

abbrev tree_ok : IsTree control 262144 2 tree
tree_ok = (
  inl dot_passed,
  (
    whole_file,
    omega (arith, two_recorded),
    (inr (path_entered, (whole_file, omega (arith, two_recorded), tt)), tt),
  ),
)

collect_extents-Walked_example :
    Walked control 262144 2 kernel 16 control path tree tree_ok control no_extents
      (collect_extents kernel 2 path tree control)
      (to_record control 262144 2 tree tree_ok)
      2
collect_extents-Walked_example =
    collect_extents-Walked control 262144 2 kernel 16 path tree tree_ok control no_extents ready
      (refl, refl) refl (omega (arith, no_total)) (omega arith)
