-- ===== src/Fiemap/Loop.antt =====
-- The loop of `get_extents` against the file's own list of extents.
use native.Mathlib.Nat.{mod-eq_of_lt}
use zns_tools.Base.{
  ℕ, zero, suc, ◌*◌, ◌^◌, ◌≤◌, ◌<◌, ◌≡◌, refl, sym, ap, subst, ◌∙◌, true, false, some, List, [],
  ◌∷◌, ◌++◌, append_assoc, Text, length, All, arith, add64, shl64, inl, inr,
}
use zns_tools.Types.{Control, Run, returned, exited, faulted, ◌>>=◌, Run-cases}
use zns_tools.Device.{Kernel}
use zns_tools.Counters.{grow}
use zns_tools.Fiemap.Layout.{
  end_of, overlapping, AnswersFor, IsLayout, HolesBelow, first_reply, All-raise, All-snoc,
  overlapping-beyond,
}
use zns_tools.Fiemap.{
  FiemapExtent, Fiemap, fiemap_extent_last, has_flag, Status, success, take_extent, extents_loop,
  finish, counted, get_extents,
}

module _ (k : Kernel) (filename : Text) where
  -- The rounds of the loop over a list of extents, each taken once and in order.
  unfoldable pub collect : Control → ℕ → List FiemapExtent → Run (Control × ℕ)
  collect c n [] = returned (c, n)
  collect c n (x ∷ xs) = do (c', n') ← take_extent k filename c n x; collect c' n' xs

  abbrev pub succeed : Run (Control × ℕ) → Run (Control × Status)
  succeed (returned (c, n)) = returned (c, success)
  succeed exited = exited
  succeed faulted = faulted

  module _ (fiemap : Fiemap) where
    -- The round that takes the last extent, and a round that does not.
    loop_last :
        (fuel len b n : ℕ) (c : Control) (x : FiemapExtent) (more : List FiemapExtent)
        → fiemap b len ≡ some (x ∷ more)
        → has_flag x.fe_flags fiemap_extent_last ≡ true
        → extents_loop k filename fiemap (suc fuel) len c n b
          ≡ some (succeed (collect c n (x ∷ [])))
    unfolding extents_loop collect
    loop_last fuel len b n c x more reply last = elim (Run-cases (take_extent k filename c n x)) [
      | inl (a, e) ↦ rw (reply, extents_loop, e, last, succeed) refl
      | inr (inl e) ↦ rw (reply, extents_loop, e) refl
      | inr (inr e) ↦ rw (reply, extents_loop, e) refl
    ]

    loop_next :
        (fuel len b n : ℕ) (c : Control) (x : FiemapExtent) (more xs : List FiemapExtent)
        → fiemap b len ≡ some (x ∷ more)
        → has_flag x.fe_flags fiemap_extent_last ≡ false
        → ((c' : Control) (n' : ℕ)
            → extents_loop k filename fiemap fuel len c' n' (add64 x.fe_logical x.fe_length)
              ≡ some (succeed (collect c' n' xs)))
        → extents_loop k filename fiemap (suc fuel) len c n b
          ≡ some (succeed (collect c n (x ∷ xs)))
    unfolding extents_loop collect
    loop_next fuel len b n c x more xs reply next ih =
        elim (Run-cases (take_extent k filename c n x)) [
          | inl (a, e) ↦ rw (reply, extents_loop, e, next) (ih a.0 a.1)
          | inr (inl e) ↦ rw (reply, extents_loop, e) refl
          | inr (inr e) ↦ rw (reply, extents_loop, e) refl
        ]

    loop_empty :
        (fuel len b n : ℕ) (c : Control)
        → fiemap b len ≡ some []
        → extents_loop k filename fiemap (suc fuel) len c n b ≡ some exited
    unfolding extents_loop
    loop_empty fuel len b n c reply = rw (reply, extents_loop) refl

    loop-collect :
        (file pre xs : List FiemapExtent) (fuel len b n : ℕ) (c : Control)
        → AnswersFor file fiemap
        → file ≡ pre ++ xs
        → All (λ x. end_of x ≤ b) pre
        → IsLayout b xs
        → HolesBelow len b xs
        → length xs ≤ fuel
        → extents_loop k filename fiemap fuel len c n b ≡ some (succeed (collect c n xs))
    loop-collect file pre [] fuel len b n c ans whole past lay holes enough = absurd lay
    loop-collect file pre (x ∷ xs) zero len b n c ans whole past lay holes enough = elim enough [ ]
    loop-collect file pre (x ∷ []) (suc fuel) len b n c ans whole past lay holes enough =
        loop_last fuel len b n c x (overlapping [] b len)
          (first_reply pre [] len ans whole past lay.0 lay.1 holes.0) lay.3
    loop-collect file pre (x ∷ y ∷ xs) (suc fuel) len b n c ans whole past lay holes enough =
        loop_next fuel len b n c x (overlapping (y ∷ xs) b len) (y ∷ xs)
          (first_reply pre (y ∷ xs) len ans whole past lay.0 lay.1 holes.0) lay.3
          λ c' n'. rw (mod-eq_of_lt lay.2) (
            loop-collect file (pre ++ (x ∷ [])) (y ∷ xs) fuel len (end_of x) n' c' ans
              (whole ∙ sym (append_assoc pre (x ∷ []) (y ∷ xs)))
              (All-snoc pre x (end_of x) (All-raise pre b (end_of x) (omega arith) past)
                (omega arith))
              lay.4 holes.1 (omega arith))

    -- The control that the loop starts with.
    abbrev pub grown : Control → Control
    grown c = record c { file_counter_map = some (grow c.file_counter_map c.nr_files) }

    -- For a file whose holes are all shorter than `8 * st_blocks` bytes, `get_extents` makes one
    -- round for each of the file's extents, in order, stops after the last, and counts the file.
    pub get_extents_lem :
        (file : List FiemapExtent) (fuel st_blocks : ℕ) (c : Control)
        → AnswersFor file fiemap
        → IsLayout 0 file
        → HolesBelow (8 * st_blocks) 0 file
        → 8 * st_blocks < 2 ^ 64
        → length file ≤ fuel
        → get_extents k filename fiemap fuel c st_blocks
          ≡ some (finish k filename fiemap (succeed (collect (grown c) 0 file)))
    unfolding get_extents
    get_extents_lem file fuel st_blocks c ans lay holes fits enough =
        let bytes : 8 * st_blocks ≡ shl64 st_blocks 3 = omega arith in
        ap (counted k filename fiemap) (
          subst
            (λ len.
              extents_loop k filename fiemap fuel len (grown c) 0 0
              ≡ some (succeed (collect (grown c) 0 file)))
            bytes
            (loop-collect file [] file fuel (8 * st_blocks) 0 0 (grown c) ans refl tt lay holes
              enough))

    -- A file whose first extent starts at byte `8 * st_blocks` or later ends the process with "no
    -- extents are mapped", although it has extents: the request is of 8 bytes for each 512B block.
    pub get_extents_sparse :
        (file : List FiemapExtent) (fuel st_blocks : ℕ) (c : Control)
        → AnswersFor file fiemap
        → IsLayout (8 * st_blocks) file
        → 8 * st_blocks < 2 ^ 64
        → get_extents k filename fiemap (suc fuel) c st_blocks ≡ some exited
    unfolding get_extents
    get_extents_sparse file fuel st_blocks c ans lay fits =
        let len = shl64 st_blocks 3 in
        ap (counted k filename fiemap) (
          loop_empty fuel len 0 0 (grown c)
            (ans 0 len ∙ ap some (overlapping-beyond file 0 len (8 * st_blocks) (omega arith) lay)))
