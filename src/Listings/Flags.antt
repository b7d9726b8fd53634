-- ===== src/Listings/Flags.antt =====
-- The names that a listing shows for a word of flags, read back as the flags.
use Prim.Native.String.{String}
use zns_tools.Base.{
  ℕ, suc, ◌+◌, ◌^◌, ◌≤◌, ◌≡◌, Bool, true, false, List, [], ◌∷◌, if◌then◌else◌, ◌==◌, not, ◌&&◌, leb,
  codes, text_eq,
}
use zns_tools.Listings.{Line, names}

-- The flags that a row of names stands for; the names come in the order of the table.
pub flags_of : List (String × ℕ) → List String → ℕ
flags_of [] shown = 0
flags_of (entry ∷ table) [] = 0
flags_of ((name, mask) ∷ table) (x ∷ shown) =
    let taken = mask + flags_of table shown in
    let passed = flags_of table (x ∷ shown) in
    if text_eq (codes x) (codes name) then taken else passed

abbrev pub known : List (String × ℕ) → ℕ
known [] = 0
known ((name, mask) ∷ table) = mask + known table

is_fresh : String → List (String × ℕ) → Bool
unfolding text_eq
is_fresh name [] = true
is_fresh name ((other, mask) ∷ table) =
    not (text_eq (codes other) (codes name)) && is_fresh name table

-- The masks are powers of two, from bit `low` on and ascending, and no name comes twice.
abbrev IsTable : ℕ → List (String × ℕ) → Type 0
IsTable low [] = Unit
IsTable low ((name, mask) ∷ table) =
    (k : ℕ) × (low ≤ k) × (mask ≡ 2 ^ k) × (is_fresh name table ≡ true) × IsTable (suc k) table

-- The same as a test, given the bits of the masks.
is_table : List ℕ → ℕ → List (String × ℕ) → Bool
unfolding is_fresh
is_table bits low [] = true
is_table [] low (entry ∷ table) = false
is_table (k ∷ bits) low ((name, mask) ∷ table) =
    leb low k && (mask == 2 ^ k && (is_fresh name table && is_table bits (suc k) table))

-- The names in a line.
abbrev pub names_in : Line → List String
names_in (names label shown) = shown
names_in other = []
