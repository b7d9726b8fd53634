-- ===== src/Procfs/Tests.antt =====
-- A table of two segments, read with an atoi that stops at the first other character.
use zns_tools.Base.{
  ℕ, ◌+◌, ◌-◌, ◌*◌, ◌≡◌, refl, ◌&&◌, leb, if◌then◌else◌, List, [], ◌∷◌, some, Text, codes,
}
use zns_tools.Types.{returned}
use zns_tools.Procfs.Parse.{f2fs_fs_manager_init}
use zns_tools.Procfs.Rows.{
  Token, word, entry, lines_of, row_entries, f2fs_fs_manager_init-row_entries,
}

abbrev number_from : ℕ → Text → ℕ
number_from n [] = n
number_from n (ch ∷ s) =
    let rest = number_from (n * 10 + (ch - 48)) s in if leb 48 ch && leb ch 57 then rest else n

abbrev atoi : Text → ℕ
atoi = number_from 0

abbrev digit : Text
digit = 50 ∷ []

abbrev blocks : Text
blocks = 53 ∷ 49 ∷ 50 ∷ []

abbrev rows : List (Token × List Token)
rows =
    (
      word digit (refl, refl, tt),
      word [] tt
          ∷ entry digit blocks (refl, refl, tt) (refl, refl, (refl, refl, (refl, refl, tt)))
          ∷ entry digit digit (refl, refl, tt) (refl, refl, tt)
          ∷ [],
    )
    ∷ []

-- "2  2|512 2|2"
one_line : lines_of rows ≡ codes "2  2|512 2|2" ∷ []
one_line = refl

f2fs_fs_manager_init-row_entries_example :
    f2fs_fs_manager_init atoi 2 (some ([] ∷ [] ∷ lines_of rows))
    ≡ returned (some (row_entries atoi rows 0))
f2fs_fs_manager_init-row_entries_example = f2fs_fs_manager_init-row_entries atoi 2 [] [] rows refl

table :
    row_entries atoi rows 0
    ≡ record { id = 0; type = 2; valid_blocks = 512 }
      ∷ record { id = 1; type = 2; valid_blocks = 2 }
      ∷ []
table = refl
