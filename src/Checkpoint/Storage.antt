-- ===== src/Checkpoint/Storage.antt =====
-- `Save`, `LoadCheckpoint` and `RemoveCheckpoint` over a file system that may refuse each call.
-- The JSON codec is Go's library: `encode` and `decode` are parameters.
use files_downloader_golang.Common.{
  ℕ, ◌≡◌, ◌≢◌, refl, ◌∙◌, Bool, true, false, Option, none, some, [], ◌∷◌, ◌++◌, arith, take,
  if◌then◌else◌, ◌⊎◌, inl, inr, Option-cases,
}
use files_downloader_golang.Common.Text.{Bytes, codes, text_eq, text_eq_iff}
use files_downloader_golang.Checkpoint.{Checkpoint}

-- The content of each file, by its path.
abbrev pub Files : Type 0
Files = Bytes → Option Bytes

abbrev pub put_file : Files → Bytes → Option Bytes → Files
put_file fs path content other = if text_eq other path then content else fs other

-- How `os.WriteFile` ends: all written, not opened, or cut off behind some bytes.
pub data WriteEnd : Type 0 where
  written unopened : WriteEnd
  cut : ℕ → WriteEnd

-- What the operating system answers to one `Save`. `makes_dir` holds too where no directory is
-- asked for.
pub record Answers : Type 0 where
  pub makes_dir : Bool
  pub write_end : WriteEnd
  pub renames : Bool
  pub removes : Bool

pub data SaveError : Type 0 where
  marshal_failed mkdir_failed write_failed rename_failed : SaveError

abbrev pub tmp_path : Bytes → Bytes
tmp_path path = path ++ codes ".tmp"

abbrev write_tmp : WriteEnd → Files → Bytes → Bytes → Files
write_tmp written fs path content = put_file fs path (some content)
write_tmp unopened fs path content = fs
write_tmp (cut n) fs path content = put_file fs path (some (take n content))

abbrev remove_file : Bool → Files → Bytes → Files
remove_file true fs path = put_file fs path none
remove_file false fs path = fs

-- `os.Rename` of the temporary file, and the removal of it where that fails.
abbrev rename_tmp : Answers → Files → Bytes → Option SaveError × Files
rename_tmp a fs path =
    if a.renames
    then (none, put_file (put_file fs path (fs (tmp_path path))) (tmp_path path) none)
    else (some rename_failed, remove_file a.removes fs (tmp_path path))

abbrev save_bytes : WriteEnd → Answers → Files → Bytes → Bytes → Option SaveError × Files
save_bytes written a fs path content =
    rename_tmp a (write_tmp written fs (tmp_path path) content) path
save_bytes end a fs path content = (some write_failed, write_tmp end fs (tmp_path path) content)

-- `RemoveCheckpoint`; the flags say which of the two removals succeed.
unfoldable pub remove_checkpoint : Bool → Bool → Files → Bytes → Files
remove_checkpoint first second fs path =
    remove_file second (remove_file first fs path) (tmp_path path)

-- The temporary file is another file.
append-ne_self : (s t : Bytes) → t ≢ [] → text_eq (s ++ t) s ≡ false
unfolding text_eq
append-ne_self [] [] h = absurd (h refl)
append-ne_self [] (c ∷ t) h = refl
append-ne_self (x ∷ s) t h = ground (arith, append-ne_self s t h)

tmp_path-ne : (path : Bytes) → text_eq (tmp_path path) path ≡ false
tmp_path-ne path = append-ne_self path (codes ".tmp") (λ e. cc)

text_eq_refl : (t : Bytes) → text_eq t t ≡ true
text_eq_refl t = (text_eq_iff t t).1 refl

text_eq_sym : (a b : Bytes) → text_eq a b ≡ text_eq b a
unfolding text_eq
text_eq_sym [] [] = refl
text_eq_sym [] (y ∷ b) = refl
text_eq_sym (x ∷ a) [] = refl
text_eq_sym (x ∷ a) (y ∷ b) = ground (arith, text_eq_sym a b)

module _ (encode : Checkpoint → Option Bytes) (decode : Bytes → Option Checkpoint) where
  -- `Save`
  unfoldable pub save : Answers → Files → Bytes → Checkpoint → Option SaveError × Files
  save a fs path cp = elim (encode cp) [
    | none ↦ (some marshal_failed, fs)
    | some content ↦
        if a.makes_dir then save_bytes a.write_end a fs path content else (some mkdir_failed, fs)
  ]

  -- `LoadCheckpoint`
  unfoldable pub load_checkpoint : Files → Bytes → Option Checkpoint
  load_checkpoint fs path = elim (fs path) [ none ↦ none | some content ↦ decode content ]

  -- `Save` is atomic: where it reports an error the state file is as it was before, and where it
  -- reports none `LoadCheckpoint` reads the saved checkpoint back, if its JSON decodes to it.
  pub save_atomic :
      (a : Answers) (fs : Files) (path : Bytes) (cp : Checkpoint)
      → ((content : Bytes) → encode cp ≡ some content → decode content ≡ some cp)
      → let (error, fs') = save a fs path cp in
        ((e : SaveError) × (error ≡ some e) × (fs' path ≡ fs path))
        ⊎ ((error ≡ none) × (load_checkpoint fs' path ≡ some cp))
  unfolding save load_checkpoint
  save_atomic a fs path cp codec = elim (Option-cases (encode cp)) [
    | inl e ↦ rw (e, save) (inl (marshal_failed, refl, refl))
    | inr (content, e) ↦
        let apart = tmp_path-ne path in
        let apart' = text_eq_sym path (tmp_path path) ∙ apart in
        let own = text_eq_refl path in
        let own_tmp = text_eq_refl (tmp_path path) in let back = codec content e in ground arith
  ]

  -- `Save` changes no file but the state file and the temporary file beside it.
  save_frame :
      (a : Answers) (fs : Files) (path other : Bytes) (cp : Checkpoint)
      → text_eq other path ≡ false
      → text_eq other (tmp_path path) ≡ false
      → (save a fs path cp).1 other ≡ fs other
  unfolding save
  save_frame a fs path other cp h k = ground arith
