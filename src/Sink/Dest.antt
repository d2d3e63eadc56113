-- ===== src/Sink/Dest.antt =====
-- `resolveDestPath`: where a download is saved, and the search for a name that is not taken.
-- What the file system says of a path, and `filepath.Join`, are parameters; paths are those of Unix.
use files_downloader_golang.Common.{
  ℕ, zero, suc, ◌+◌, ◌≤◌, ◌<◌, ◌≡◌, refl, ◌⊎◌, inl, inr, Bool, true, false, not, ◌&&◌, ◌||◌, Option,
  none, some, [], ◌∷◌, ◌++◌, length, length-append, arith, if_case, ◌==◌, if◌then◌else◌,
}
use files_downloader_golang.Common.Text.{Bytes, codes}
use files_downloader_golang.Common.Split.{decimal}

-- `os.Stat`
pub data Stat : Type 0 where
  missing unreadable : Stat
  there : Bool → Stat

-- The path, or the error of a test that failed.
pub data Dest : Type 0 where
  chosen : Bytes → Dest
  stat_failed : Dest

abbrev has_slash : Bytes → Bool
has_slash [] = false
has_slash (c ∷ s) = c == b'/' || has_slash s

-- The path in front of `filepath.Ext`, and that; `none` if there is no extension.
unfoldable pub split_ext : Bytes → Option (Bytes × Bytes)
split_ext [] = none
split_ext (c ∷ s) = elim (split_ext s) [
  | some (base, extension) ↦ some (c ∷ base, extension)
  | none ↦ if c == b'.' && not (has_slash s) then some ([], c ∷ s) else none
]

abbrev with_number : ℕ → Bytes → Option (Bytes × Bytes) → Bytes
with_number n path none = path ++ codes " (" ++ decimal n ++ codes ")"
with_number n path (some (base, extension)) =
    base ++ codes " (" ++ decimal n ++ codes ")" ++ extension

-- The candidate of round `n`, from the one before.
unfoldable pub renamed : ℕ → Bytes → Bytes
unfolding split_ext
renamed n path = with_number n path (split_ext path)

abbrev ends_with_slash : Bytes → Bool
ends_with_slash [] = false
ends_with_slash (c ∷ []) = c == b'/'
ends_with_slash (c ∷ d ∷ s) = ends_with_slash (d ∷ s)

module _ (stat : Bytes → Stat) where
  -- The loop, on fuel; `none` is that it ran out.
  unfoldable pub rename_from : ℕ → ℕ → Bytes → Option Dest
  rename_from zero n candidate = none
  rename_from (suc fuel) n candidate = elim (stat candidate) [
    | missing ↦ some (chosen candidate)
    | unreadable ↦ some stat_failed
    | there is_dir ↦ rename_from fuel (suc n) (renamed n candidate)
  ]

  -- Where the download is saved if that is free.
  unfoldable pub first_candidate : (Bytes → Bytes → Bytes) → Bytes → Bytes → Bytes
  first_candidate join [] filename = filename
  first_candidate join (c ∷ s) filename = elim (stat (c ∷ s)) [
    | there true ↦ join (c ∷ s) filename
    | _ ↦ if ends_with_slash (c ∷ s) then join (c ∷ s) filename else c ∷ s
  ]

  unfoldable pub resolve_dest_path :
      ℕ
      → (Bytes → Bytes → Bytes)
      → (auto_rename preserve_existing : Bool) → Bytes
      → Bytes
      → Option Dest
  resolve_dest_path fuel join auto_rename preserve_existing dest_path filename =
      let candidate = first_candidate join dest_path filename in
      let free = rename_from fuel 1 candidate in
      if not auto_rename || preserve_existing then some (chosen candidate) else free

-- The search ended, at a free path or at an error of the file system.
abbrev Found : (Bytes → Stat) → Option Dest → Type 0
Found stat o =
    (o ≡ some stat_failed) ⊎ ((path : Bytes) × (o ≡ some (chosen path)) × (stat path ≡ missing))

-- The parts of a path are as long as it is.
abbrev Parts : Bytes → Option (Bytes × Bytes) → Type 0
Parts path none = Unit
Parts path (some (base, extension)) = length path ≡ length base + length extension

longer-Parts :
    (c : ℕ) (s : Bytes) (o : Option (Bytes × Bytes))
    → Parts s o
    → Parts (c ∷ s) (elim o as (λ x. Option (Bytes × Bytes)) [
      | some (base, extension) ↦ some (c ∷ base, extension)
      | none ↦ if c == b'.' && not (has_slash s) then some ([], c ∷ s) else none
    ])
longer-Parts c s none p = if_case (Parts (c ∷ s)) (c == b'.' && not (has_slash s)) (omega arith) tt
longer-Parts c s (some (base, extension)) p = omega arith

split_ext-Parts : (path : Bytes) → Parts path (split_ext path)
unfolding split_ext
split_ext-Parts [] = tt
split_ext-Parts (c ∷ s) = longer-Parts c s (split_ext s) (split_ext-Parts s)

-- The number is put between brackets behind `base`.
numbered-length :
    (n : ℕ) (base : Bytes) → length base < length (base ++ codes " (" ++ decimal n ++ codes ")")
numbered-length n base =
    let open_bracket = length-append base (codes " (") in
    let digits = length-append (base ++ codes " (") (decimal n) in
    let closed = length-append (base ++ codes " (" ++ decimal n) (codes ")") in omega arith

with_number_longer :
    (n : ℕ) (path : Bytes) (o : Option (Bytes × Bytes))
    → Parts path o
    → length path < length (with_number n path o)
with_number_longer n path none p = numbered-length n path
with_number_longer n path (some (base, extension)) p =
    let name = numbered-length n base in
    let all = length-append (base ++ codes " (" ++ decimal n ++ codes ")") extension in omega arith

renamed_longer : (n : ℕ) (path : Bytes) → length path < length (renamed n path)
unfolding renamed
renamed_longer n path = with_number_longer n path (split_ext path) (split_ext-Parts path)

-- A step of the search, by what the file system says of the candidate.
rename_step :
    (stat : Bytes → Stat) (fuel n : ℕ) (candidate : Bytes) (seen : Stat)
    → stat candidate ≡ seen
    → ((is_dir : Bool)
        → seen ≡ there is_dir
        → Found stat (rename_from stat fuel (suc n) (renamed n candidate)))
    → Found stat (elim seen as (λ x. Option Dest) [
      | missing ↦ some (chosen candidate)
      | unreadable ↦ some stat_failed
      | there is_dir ↦ rename_from stat fuel (suc n) (renamed n candidate)
    ])
rename_step stat fuel n candidate missing e h = inr (candidate, refl, e)
rename_step stat fuel n candidate unreadable e h = inl refl
rename_step stat fuel n candidate (there is_dir) e h = h is_dir refl

rename_from-Found :
    (stat : Bytes → Stat) (bound fuel n : ℕ) (candidate : Bytes)
    → ((path : Bytes) (is_dir : Bool) → stat path ≡ there is_dir → length path < bound)
    → bound ≤ length candidate + fuel
    → Found stat (rename_from stat (suc fuel) n candidate)
unfolding rename_from
rename_from-Found stat bound zero n candidate shorter le =
    rename_step stat zero n candidate (stat candidate) refl
      (λ is_dir e. let lt = shorter candidate is_dir e in absurd (omega arith))
rename_from-Found stat bound (suc fuel) n candidate shorter le =
    rename_step stat (suc fuel) n candidate (stat candidate) refl (λ is_dir e.
      rename_from-Found stat bound fuel (suc n) (renamed n candidate) shorter
        (omega (arith, renamed_longer n candidate)))

-- With `AutoRename` and nothing to preserve, where all paths that exist are shorter than `bound`
-- bytes, the search for a name ends within `bound + 1` rounds: either the file system cannot be
-- asked, or the path chosen does not exist, so that no file is overwritten.
pub resolve_dest_path_free :
    (stat : Bytes → Stat) (join : Bytes → Bytes → Bytes) (bound : ℕ) (dest_path filename : Bytes)
    → ((path : Bytes) (is_dir : Bool) → stat path ≡ there is_dir → length path < bound)
    → Found stat (resolve_dest_path stat (suc bound) join true false dest_path filename)
unfolding resolve_dest_path
resolve_dest_path_free stat join bound dest_path filename shorter =
    rename_from-Found stat bound bound 1 (first_candidate stat join dest_path filename) shorter
      (omega arith)
