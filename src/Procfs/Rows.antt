-- ===== src/Procfs/Rows.antt =====
-- What the parser of the segment table makes of a line of entries.
use zns_tools.Base.{
  ℕ, ◌+◌, ◌-◌, ◌≤◌, ◌≡◌, refl, sym, ap, subst, ◌∙◌, Bool, true, false, some, List, [], ◌∷◌, ◌++◌,
  append_assoc, append-nil, Text, length, length-append, All, ltb, trunc32, arith,
}
use zns_tools.Types.{SegmentInfo, returned}
use zns_tools.Procfs.Parse.{
  extend, split_on, is_blank, is_bar, has_bar, no_info, set_pieces, entry_of, add_contents,
  add_lines, f2fs_fs_manager_init,
}

-- A text without blanks and bars.
abbrev pub IsPlain : Text → Type 0
IsPlain [] = Unit
IsPlain (ch ∷ s) = (is_blank ch ≡ false) × (is_bar ch ≡ false) × IsPlain s

-- What stands in a line between blanks: a number or nothing, or an entry, "type|blocks".
pub data Token : Type 0 where
  word : (t : Text) → IsPlain t → Token
  entry : (type blocks : Text) → IsPlain type → IsPlain blocks → Token

abbrev pub text_of : Token → Text
text_of (word t p) = t
text_of (entry type blocks p q) = type ++ (124 ∷ blocks)

-- The tokens with a space between each two.
abbrev pub line_of : Token → List Token → Text
line_of t [] = text_of t
line_of t (u ∷ us) = text_of t ++ (32 ∷ line_of u us)

-- The lines of a table.
abbrev pub lines_of : List (Token × List Token) → List Text
lines_of [] = []
lines_of ((t, ts) ∷ rows) = line_of t ts ∷ lines_of rows

abbrev pub texts : List Token → List Text
texts [] = []
texts (t ∷ ts) = text_of t ∷ texts ts

-- A text without separators before one is the first part.
split_on-append :
    (f : ℕ → Bool) (s t : Text) (sep : ℕ)
    → All (λ ch. f ch ≡ false) s
    → f sep ≡ true
    → split_on f (s ++ (sep ∷ t)) ≡ s ∷ split_on f t
split_on-append f [] t sep h separates = rw separates refl
split_on-append f (ch ∷ s) t sep (here, h) separates =
    rw here (ap (extend ch) (split_on-append f s t sep h separates))

split_on_whole : (f : ℕ → Bool) (s : Text) → All (λ ch. f ch ≡ false) s → split_on f s ≡ s ∷ []
split_on_whole f [] h = refl
split_on_whole f (ch ∷ s) (here, h) = rw here (ap (extend ch) (split_on_whole f s h))

no_blanks : (s : Text) → IsPlain s → All (λ ch. is_blank ch ≡ false) s
no_blanks [] p = tt
no_blanks (ch ∷ s) (blank, bar, p) = (blank, no_blanks s p)

no_bars : (s : Text) → IsPlain s → All (λ ch. is_bar ch ≡ false) s
no_bars [] p = tt
no_bars (ch ∷ s) (blank, bar, p) = (bar, no_bars s p)

no_blanks_pair :
    (s t : Text) → IsPlain s → IsPlain t → All (λ ch. is_blank ch ≡ false) (s ++ (124 ∷ t))
no_blanks_pair [] t p q = (refl, no_blanks t q)
no_blanks_pair (ch ∷ s) t (blank, bar, p) q = (blank, no_blanks_pair s t p q)

no_blanks_token : (t : Token) → All (λ ch. is_blank ch ≡ false) (text_of t)
no_blanks_token (word t p) = no_blanks t p
no_blanks_token (entry type blocks p q) = no_blanks_pair type blocks p q

split_on-line_of : (t : Token) (ts : List Token) → split_on is_blank (line_of t ts) ≡ texts (t ∷ ts)
split_on-line_of t [] = split_on_whole is_blank (text_of t) (no_blanks_token t)
split_on-line_of t (u ∷ us) =
    split_on-append is_blank (text_of t) (line_of u us) 32 (no_blanks_token t) refl
    ∙ ap (λ (l : List Text). text_of t ∷ l) (split_on-line_of u us)

has_bar_word : (t : Text) → IsPlain t → has_bar t ≡ false
has_bar_word [] p = refl
has_bar_word (ch ∷ t) (blank, bar, p) = rw bar (has_bar_word t p)

has_bar_pair : (s t : Text) → IsPlain s → has_bar (s ++ (124 ∷ t)) ≡ true
has_bar_pair [] t p = refl
has_bar_pair (ch ∷ s) t (blank, bar, p) = rw bar (has_bar_pair s t p)

module _ (atoi : Text → ℕ) where
  abbrev pub info_of : Text → Text → ℕ → SegmentInfo
  info_of type blocks id = record {
    id = id;
    type = trunc32 (atoi type);
    valid_blocks = trunc32 (atoi blocks);
  }

  entry_of_pair :
      (type blocks : Text) (id : ℕ)
      → IsPlain type
      → IsPlain blocks
      → entry_of atoi (type ++ (124 ∷ blocks)) id ≡ info_of type blocks id
  entry_of_pair type blocks id p q =
      ap (λ (pieces : List Text). record (set_pieces atoi false no_info pieces) { id = id })
        (split_on-append is_bar type blocks 124 (no_bars type p) refl
          ∙ ap (λ (l : List Text). type ∷ l) (split_on_whole is_bar blocks (no_bars blocks q)))

  -- The entries of a line, numbered from `id` on.
  abbrev pub entries : List Token → ℕ → List SegmentInfo
  entries [] id = []
  entries (word t p ∷ ts) id = entries ts id
  entries (entry type blocks p q ∷ ts) id = info_of type blocks id ∷ entries ts (id + 1)

  add_contents-texts :
      (allocated : ℕ) (ts : List Token) (segments : List SegmentInfo)
      → length segments + length (entries ts (length segments)) ≤ allocated
      → add_contents atoi allocated (texts ts) segments
        ≡ returned (segments ++ entries ts (length segments))
  unfolding add_contents
  add_contents-texts allocated [] segments fits = ap returned (sym (append-nil segments))
  add_contents-texts allocated (word t p ∷ ts) segments fits =
      rw (has_bar_word t p) (add_contents-texts allocated ts segments fits)
  add_contents-texts allocated (entry type blocks p q ∷ ts) segments fits =
      let room : ltb (length segments) allocated ≡ true = ground (arith, fits) in
      let info = info_of type blocks (length segments) in
      let longer : length (segments ++ (info ∷ [])) ≡ length segments + 1 =
        length-append segments (info ∷ []) in
      rw (has_bar_pair type blocks p, room, entry_of_pair type blocks (length segments) p q)
        (add_contents-texts allocated ts (segments ++ (info ∷ [])) (
            subst (λ (n : ℕ). n + length (entries ts n) ≤ allocated) (sym longer)
              (omega (arith, fits)))
          ∙ ap returned (
              append_assoc segments (info ∷ []) (entries ts (length (segments ++ (info ∷ []))))
              ∙ ap (λ (n : ℕ). segments ++ (info ∷ entries ts n)) longer))

  -- The entries of a table, numbered through.
  abbrev pub row_entries : List (Token × List Token) → ℕ → List SegmentInfo
  row_entries [] id = []
  row_entries ((t, ts) ∷ rows) id =
      entries (t ∷ ts) id ++ row_entries rows (id + length (entries (t ∷ ts) id))

  add_lines-lines_of :
      (count : ℕ) (rows : List (Token × List Token)) (segments : List SegmentInfo)
      → length segments + length (row_entries rows (length segments)) ≤ count
      → add_lines atoi count count (lines_of rows) segments
        ≡ returned (segments ++ row_entries rows (length segments))
  unfolding add_lines
  add_lines-lines_of count [] segments fits = ap returned (sym (append-nil segments))
  add_lines-lines_of count ((t, ts) ∷ rows) segments fits =
      let here = entries (t ∷ ts) (length segments) in
      let after = row_entries rows (length segments + length here) in
      let both : length (here ++ after) ≡ length here + length after = length-append here after in
      let longer : length (segments ++ here) ≡ length segments + length here =
        length-append segments here in
      let line =
        ap (λ (l : List Text). add_contents atoi count l segments) (split_on-line_of t ts)
        ∙ add_contents-texts count (t ∷ ts) segments (omega (arith, fits, both)) in
      let goes_on : ltb count (length (segments ++ here)) ≡ false =
        ground (arith, fits, both, longer) in
      rw (line, goes_on)
        (add_lines-lines_of count rows (segments ++ here) (
            subst (λ (n : ℕ). n + length (row_entries rows n) ≤ count) (sym longer)
              (omega (arith, fits, both)))
          ∙ ap returned (
              append_assoc segments here (row_entries rows (length (segments ++ here)))
              ∙ ap (λ (n : ℕ). segments ++ (here ++ row_entries rows n)) longer))

  -- A table file with two lines of header and rows of entries "type|blocks" between blanks, in all as
  -- many as the file system has segments, is read without fault: the table has these entries in their
  -- order, with atoi's types and valid blocks, and each entry's number is its place.
  pub f2fs_fs_manager_init-row_entries :
      (count : ℕ) (first second : Text) (rows : List (Token × List Token))
      → length (row_entries rows 0) ≡ count
      → f2fs_fs_manager_init atoi count (some (first ∷ second ∷ lines_of rows))
        ≡ returned (some (row_entries rows 0))
  unfolding f2fs_fs_manager_init
  f2fs_fs_manager_init-row_entries count first second rows all =
      let read = add_lines-lines_of count rows [] (omega (arith, all)) in
      let full : count - length (row_entries rows 0) ≡ 0 = omega (arith, all) in
      rw (read, full)
        (ap (λ (l : List SegmentInfo). returned (some l)) (append-nil (row_entries rows 0)))
