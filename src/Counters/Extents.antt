-- ===== src/Counters/Extents.antt =====
-- The extent counters: what one increase does to every file's count, and that it stays in bounds.
use zns_tools.Base.{
  ◌≤◌, ◌<◌, ◌≡◌, refl, sym, subst, ◌∙◌, true, false, none, some, List, [], ◌∷◌, ◌++◌, Text, text_eq,
  text_eq_sound, text_eq_refl, text_eq_n-length, length, length-append, take_all, arith, add32,
  if◌then◌else◌, inl, inr, ◌⊎◌, ◌≢◌, Bool-cases, Option-cases, lt→ltb,
}
use zns_tools.Types.{FileCounter, FileCounterMap, returned}
use zns_tools.Counters.{
  max_file_length, new_counter, bump_extent, increase_file_extent_counter, count_in,
  get_file_extent_count,
}

count_in-cons :
    (x : FileCounter) (xs : List FileCounter) (file : Text)
    → count_in (x ∷ xs) file ≡ (if text_eq x.file file then x.ext_ctr else count_in xs file)
unfolding count_in
count_in-cons x xs file = rw (text_eq_n-length x.file file) refl

-- Two names that both equal a third are equal.
text_eq_trans :
    (x file other : Text)
    → text_eq x file ≡ false
    → text_eq x other ≡ true
    → text_eq file other ≡ false
text_eq_trans x file other h e = elim (Bool-cases (text_eq file other)) [
  | inl same ↦
      let p : x ≡ file = text_eq_sound x other e ∙ sym (text_eq_sound file other same) in
      cc (subst (λ t. text_eq t file ≡ false) p h, text_eq_refl file)
  | inr differ ↦ differ
]

-- The count of every file after the count of one has gone up.
abbrev CountsAfter : List FileCounter → Text → List FileCounter → Type 0
CountsAfter xs file ys =
    (other : Text)
    → count_in ys other
      ≡ (if text_eq file other then add32 (count_in xs file) 1 else count_in xs other)

hit-CountsAfter :
    (x : FileCounter) (xs : List FileCounter) (file : Text)
    → text_eq x.file file ≡ true
    → CountsAfter (x ∷ xs) file (record x { ext_ctr = add32 x.ext_ctr 1 } ∷ xs)
hit-CountsAfter x xs file hit other =
    rw
      (
        count_in-cons (record x { ext_ctr = add32 x.ext_ctr 1 }) xs other,
        count_in-cons x xs file,
        count_in-cons x xs other,
        text_eq_sound x.file file hit,
      )
      (ground (arith, text_eq_refl file))

miss-CountsAfter :
    (x : FileCounter) (xs ys : List FileCounter) (file : Text)
    → text_eq x.file file ≡ false
    → CountsAfter xs file ys
    → CountsAfter (x ∷ xs) file (x ∷ ys)
miss-CountsAfter x xs ys file miss ih other =
    rw (count_in-cons x ys other, count_in-cons x xs file, count_in-cons x xs other, miss, ih other)
      (ground (arith, text_eq_trans x.file file other miss))

-- `text_eq` finds the entry: it is bumped, and all others are as they were.
bump-CountsAfter :
    (xs : List FileCounter) (file : Text) (ys : List FileCounter)
    → bump_extent xs file ≡ some ys
    → CountsAfter xs file ys × (length ys ≡ length xs)
unfolding bump_extent
bump-CountsAfter [] file ys h = cc
bump-CountsAfter (x ∷ xs) file ys h = elim (Bool-cases (text_eq x.file file)) [
  | inl hit ↦
      let e : record x { ext_ctr = add32 x.ext_ctr 1 } ∷ xs ≡ ys = ground arith in
      rw (← e) (hit-CountsAfter x xs file hit, refl)
  | inr miss ↦ elim (Option-cases (bump_extent xs file)) [
    | inl nowhere ↦ absurd (ground arith)
    | inr (zs, found) ↦
        let e : x ∷ zs ≡ ys = ground arith in
        let ih = bump-CountsAfter xs file zs found in
        rw (← e) (miss-CountsAfter x xs zs file miss ih.0, omega (arith, ih.1))
  ]
]

-- No entry has a name that `bump_extent` does not find; one behind the last starts its count.
append-CountsAfter :
    (xs : List FileCounter) (new : FileCounter) (file : Text)
    → bump_extent xs file ≡ none
    → new.file ≡ file
    → new.ext_ctr ≡ 1
    → CountsAfter xs file (xs ++ (new ∷ [])) × (count_in xs file ≡ 0)
unfolding bump_extent
append-CountsAfter [] new file h name one = (
  λ other. rw (count_in-cons new [] other, name, one) (unfold count_in in refl),
  unfold count_in in refl,
)
append-CountsAfter (x ∷ xs) new file h name one = elim (Bool-cases (text_eq x.file file)) [
  | inl hit ↦ absurd (ground arith)
  | inr miss ↦
      let ih = append-CountsAfter xs new file (ground arith) name one in
      (
        miss-CountsAfter x xs (xs ++ (new ∷ [])) file miss ih.0,
        rw (count_in-cons x xs file, miss) ih.1,
      )
]

-- A name that is found is still found, and found after its entry is made.
bump-known :
    (xs ys : List FileCounter) (file : Text)
    → bump_extent xs file ≡ some ys
    → bump_extent ys file ≢ none
unfolding bump_extent
bump-known [] ys file h = cc
bump-known (x ∷ xs) ys file h = elim (Bool-cases (text_eq x.file file)) [
  | inl hit ↦ ground arith
  | inr miss ↦ elim (Option-cases (bump_extent xs file)) [
    | inl nowhere ↦ absurd (ground arith)
    | inr (zs, found) ↦ ground (arith, bump-known xs zs file found)
  ]
]

append-known :
    (xs : List FileCounter) (new : FileCounter) (file : Text)
    → new.file ≡ file
    → bump_extent (xs ++ (new ∷ [])) file ≢ none
unfolding bump_extent
append-known [] new file h = ground (arith, text_eq_refl file)
append-known (x ∷ xs) new file h = ground (arith, append-known xs new file h)

-- The file has an entry, or there is one to spare.
abbrev pub HasRoom : FileCounterMap → Text → Type 0
HasRoom m file = (bump_extent m.files file ≢ none) ⊎ (length m.files < m.allocated)

-- What one call of `increase_file_extent_counter` does.
pub record Counted (m : FileCounterMap) (file : Text) : Type 0 where
  pub map' : FileCounterMap
  pub result : increase_file_extent_counter m file ≡ returned map'
  pub counts :
      (other : Text)
      → get_file_extent_count map' other ≡ (
          if text_eq file other
          then add32 (get_file_extent_count m file) 1
          else get_file_extent_count m other)
  pub allocated : map'.allocated ≡ m.allocated
  pub bounded : length m.files ≤ m.allocated → length map'.files ≤ m.allocated
  pub known : HasRoom map' file

-- With an entry of that name or one to spare, counting an extent of a file whose name has fewer than 50
-- bytes, so that it is stored with its end, raises that file's count by one, from 0 if it is new, changes
-- no other file's count, and writes nothing past the array.
pub increase_file_extent_counter-Counted :
    (m : FileCounterMap) (file : Text)
    → length file < max_file_length
    → HasRoom m file
    → Counted m file
unfolding increase_file_extent_counter
increase_file_extent_counter-Counted m file fits room =
    elim (Option-cases (bump_extent m.files file)) [
      | inr (ys, found) ↦
          let after = bump-CountsAfter m.files file ys found in
          record {
            map' = record m { files = ys };
            result = rw (increase_file_extent_counter, found);
            counts = unfold get_file_extent_count in after.0;
            allocated = refl;
            bounded = λ le. omega (arith, after.1);
            known = inl (bump-known m.files ys file found);
          }
      | inl new ↦
          let after =
            append-CountsAfter m.files (new_counter file) file new (take_all 50 file (omega arith))
              refl in
          record {
            map' = record m { files = m.files ++ (new_counter file ∷ []) };
            result =
                rw (increase_file_extent_counter, new, lt→ltb _ _ (spare room new), lt→ltb _ _ fits)
                  refl;
            counts = unfold get_file_extent_count in after.0;
            allocated = refl;
            bounded =
                λ le. omega (arith, spare room new, length-append m.files (new_counter file ∷ []));
            known =
                inl (append-known m.files (new_counter file) file (take_all 50 file (omega arith)));
          }
    ]
  where
    spare : HasRoom m file → bump_extent m.files file ≡ none → length m.files < m.allocated
    spare (inl found) new = absurd (found new)
    spare (inr room) new = room
