-- ===== src/Sink/Entry.antt =====
-- `DownloadToFile`, `DownloadToFD` and `DownloadToFileWithResume` behind the probe: which kind of
-- download they start, from which checkpoint, and what they do to the file before.
-- `loaded` is what `LoadCheckpoint` gives, `none` where it fails.
use files_downloader_golang.Common.{
  ◌≡◌, refl, sym, ap, subst, ◌∙◌, inl, inr, Bool-cases, ◌↔◌, Bool, true, false, not, ◌&&◌, ◌||◌,
  Option, none, some, [], ◌∷◌, if◌then◌else◌, arith,
}
use files_downloader_golang.Common.Int.{ℤ, pos, ltb_ℤ, leb_ℤ, ◌≤ℤ◌}
use files_downloader_golang.Common.Text.{Bytes}
use files_downloader_golang.Probe.{FileInfo}
use files_downloader_golang.Sink.Table.{some-injective}
use files_downloader_golang.Checkpoint.{Checkpoint, is_resume_valid}

-- One request, or chunks, resumed from a checkpoint or new.
pub data Plan : Type 0 where
  single_stream : Plan
  multipart : Option Checkpoint → Plan

-- `DownloadToFile`
unfoldable pub plan_file : FileInfo → Plan
plan_file info =
    if not info.accept_ranges || leb_ℤ info.content_length (pos 0)
    then single_stream
    else multipart none

-- A checkpoint that was loaded, if it may be resumed.
unfoldable pub usable : FileInfo → Option Checkpoint → Option Checkpoint
usable info none = none
usable info (some cp) = if is_resume_valid cp (some info) then some cp else none

abbrev is_empty : Bytes → Bool
is_empty [] = true
is_empty (c ∷ s) = false

-- `DownloadToFD` and `downloadMultipartToFileHandle`
unfoldable pub plan_fd : FileInfo → ℤ → Bytes → Option Checkpoint → Plan
unfolding usable
plan_fd info concurrency state_path loaded =
    if not info.accept_ranges || leb_ℤ info.content_length (pos 0) || leb_ℤ concurrency (pos 1)
    then single_stream
    else multipart (if is_empty state_path then none else usable info loaded)

abbrev is_some : Option Checkpoint → Bool
is_some none = false
is_some (some cp) = true

-- What `DownloadToFileWithResume` does: whether it empties the file as it opens it, and the plan.
pub record Opening : Type 0 where
  pub truncates : Bool
  pub plan : Plan

unfoldable pub open_resumed : FileInfo → ℤ → Option Checkpoint → Opening
open_resumed info concurrency cp = record {
  truncates = not (is_some cp);
  plan =
      if is_some cp
        || info.accept_ranges && ltb_ℤ (pos 0) info.content_length && ltb_ℤ (pos 1) concurrency
      then multipart cp
      else single_stream;
}

unfoldable pub plan_resume : FileInfo → ℤ → Option Checkpoint → Opening
unfolding usable open_resumed
plan_resume info concurrency loaded = open_resumed info concurrency (usable info loaded)

true-ne-false : true ≡ false → ⊥
true-ne-false h = cc

usable_iff :
    (info : FileInfo) (loaded : Option Checkpoint) (cp : Checkpoint)
    → (usable info loaded ≡ some cp)
      ↔ ((loaded ≡ some cp) × (is_resume_valid cp (some info) ≡ true))
unfolding usable
usable_iff info none cp = (λ e. cc, λ p. cc)
usable_iff info (some cp') cp = elim (Bool-cases (is_resume_valid cp' (some info))) [
  | inl valid ↦ rw valid (
    λ e. (e, subst (λ c. is_resume_valid c (some info) ≡ true) (some-injective e) valid),
    λ p. p.0,
  )
  | inr bad ↦ rw bad (
    λ e. cc,
    λ (e, valid). absurd (
        true-ne-false
          (sym valid ∙ ap (λ c. is_resume_valid c (some info)) (sym (some-injective e)) ∙ bad)),
  )
]

none-ne-some : {cp : Checkpoint} → ◌≡◌ {A = Option Checkpoint} none (some cp) → ⊥
none-ne-some h = cc

multipart-injective : {a b : Option Checkpoint} → multipart a ≡ multipart b → a ≡ b
multipart-injective h = cc

fd_guard :
    (info : FileInfo) (cp : Checkpoint) (concurrency : ℤ)
    → is_resume_valid cp (some info) ≡ true
    → leb_ℤ concurrency (pos 1) ≡ false
    → not info.accept_ranges || leb_ℤ info.content_length (pos 0) || leb_ℤ concurrency (pos 1)
      ≡ false
unfolding is_resume_valid
fd_guard info cp concurrency valid several = ground arith

in_chunks :
    (guard : Bool) (p : Plan) (r : Option Checkpoint)
    → (if guard then single_stream else p) ≡ multipart r
    → (guard ≡ false) × (p ≡ multipart r)
in_chunks true p r e = cc
in_chunks false p r e = (refl, e)

plan_fd_guard :
    (info : FileInfo) (concurrency : ℤ) (state_path : Bytes) (loaded r : Option Checkpoint)
    → plan_fd info concurrency state_path loaded ≡ multipart r
    → (leb_ℤ concurrency (pos 1) ≡ false)
      × ((if is_empty state_path then none else usable info loaded) ≡ r)
unfolding plan_fd
plan_fd_guard info concurrency state_path loaded r e =
    let (guard, kept) =
      in_chunks
        (not info.accept_ranges || leb_ℤ info.content_length (pos 0) || leb_ℤ concurrency (pos 1)) _
        r e in
    (ground arith, multipart-injective kept)

plan_fd_iff :
    (info : FileInfo) (concurrency : ℤ) (state_path : Bytes) (loaded : Option Checkpoint)
    (cp : Checkpoint)
    → (plan_fd info concurrency state_path loaded ≡ multipart (some cp)) ↔ (
        (loaded ≡ some cp)
        × (is_resume_valid cp (some info) ≡ true)
        × ¬ (state_path ≡ [])
        × (pos 2 ≤ℤ concurrency))
unfolding plan_fd
plan_fd_iff info concurrency [] loaded cp = (
  λ e. absurd (none-ne-some (plan_fd_guard info concurrency [] loaded (some cp) e).1),
  λ p. absurd (p.2 refl),
)
plan_fd_iff info concurrency (c ∷ s) loaded cp =
    let (found, same) = usable_iff info loaded cp in
    (
      λ e.
          let (several, kept) = plan_fd_guard info concurrency (c ∷ s) loaded (some cp) e in
          let (e', valid) = found kept in (e', valid, (λ h. cc), ground arith),
      λ (e, valid, named, several).
          let guard = fd_guard info cp concurrency valid (ground arith) in
          rw (guard, same (e, valid)) refl,
    )

nothing_resumed :
    (g : Bool) (cp : Checkpoint)
    → (if g then multipart none else single_stream) ≡ multipart (some cp)
    → ⊥
nothing_resumed true cp e = none-ne-some (multipart-injective e)
nothing_resumed false cp e = cc

-- The plan keeps the checkpoint that was accepted.
resumed :
    (info : FileInfo) (concurrency : ℤ) (o : Option Checkpoint) (cp : Checkpoint)
    → (open_resumed info concurrency o).plan ≡ multipart (some cp)
    → o ≡ some cp
unfolding open_resumed
resumed info concurrency none cp e = absurd (
    nothing_resumed
      (info.accept_ranges && ltb_ℤ (pos 0) info.content_length && ltb_ℤ (pos 1) concurrency) cp e)
resumed info concurrency (some cp') cp e = multipart-injective e

is_some-some : (o : Option Checkpoint) → is_some o ≡ true → (cp : Checkpoint) × (o ≡ some cp)
is_some-some none e = cc
is_some-some (some cp) e = (cp, refl)

plan_resume_iff :
    (info : FileInfo) (concurrency : ℤ) (loaded : Option Checkpoint) (cp : Checkpoint)
    → ((plan_resume info concurrency loaded).plan ≡ multipart (some cp))
      ↔ ((loaded ≡ some cp) × (is_resume_valid cp (some info) ≡ true))
unfolding plan_resume
plan_resume_iff info concurrency loaded cp =
    let (found, same) = usable_iff info loaded cp in
    (λ e. found (resumed info concurrency (usable info loaded) cp e), λ p. rw (same p) refl)

truncates_iff :
    (info : FileInfo) (concurrency : ℤ) (loaded : Option Checkpoint)
    → ((plan_resume info concurrency loaded).truncates ≡ false)
      ↔ ((cp : Checkpoint) × (loaded ≡ some cp) × (is_resume_valid cp (some info) ≡ true))
unfolding plan_resume open_resumed
truncates_iff info concurrency loaded = (
  λ e.
      let (cp, kept) = is_some-some (usable info loaded) (ground arith) in
      let (e', valid) = (usable_iff info loaded cp).0 kept in (cp, e', valid),
  λ (cp, e, valid). rw ((usable_iff info loaded cp).1 (e, valid)) refl,
)

-- Which checkpoint is resumed, and what happens to the file. `DownloadToFD` resumes a checkpoint
-- exactly if it was loaded, `IsResumeValid` accepts it against the probe, there is a state path and
-- more than one connection; `DownloadToFileWithResume` exactly if it was loaded and is accepted,
-- whatever the number of connections, and it keeps the bytes of the file exactly if some checkpoint
-- was loaded and is accepted.
pub plans_checked :
    (info : FileInfo) (concurrency : ℤ) (state_path : Bytes) (loaded : Option Checkpoint)
    (cp : Checkpoint)
    → (plan_fd info concurrency state_path loaded ≡ multipart (some cp) ↔ (
        (loaded ≡ some cp)
        × (is_resume_valid cp (some info) ≡ true)
        × ¬ (state_path ≡ [])
        × (pos 2 ≤ℤ concurrency)))
      × ((plan_resume info concurrency loaded).plan ≡ multipart (some cp)
          ↔ ((loaded ≡ some cp) × (is_resume_valid cp (some info) ≡ true)))
      × ((plan_resume info concurrency loaded).truncates ≡ false ↔ (
          (found : Checkpoint) × (loaded ≡ some found)
          × (is_resume_valid found (some info) ≡ true)))
plans_checked info concurrency state_path loaded cp = (
  plan_fd_iff info concurrency state_path loaded cp,
  plan_resume_iff info concurrency loaded cp,
  truncates_iff info concurrency loaded,
)
