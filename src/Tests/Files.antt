-- ===== src/Tests/Files.antt =====
-- file_sink.go and fd_sink.go: single streams, the name of the file and the entry points.
use files_downloader_golang.Common.{
  ◌<◌, ◌≡◌, refl, ap, Bool, ◌⊎◌, ◌↔◌, inl, inr, true, false, none, some, [], ◌∷◌, ◌++◌, arith,
  length, if◌then◌else◌, Bool-cases,
}
use files_downloader_golang.Common.Int.{pos, ◌≤ℤ◌}
use files_downloader_golang.Common.Word.{add64, sub64}
use files_downloader_golang.Chunk.{new_chunk}
use files_downloader_golang.Checkpoint.{
  Checkpoint, new_checkpoint, is_resume_valid, same_version, states_ok, state_ok,
}
use files_downloader_golang.Common.Text.{
  Bytes, codes, text_eq, text_eq_iff, trim_by, trim_left_by, trim_right_by,
}
use files_downloader_golang.Common.Split.{decimal, digits_onto}
use files_downloader_golang.Probe.{FileInfo}
use files_downloader_golang.Worker.{Response, response, more, last, accepted, eof}
use files_downloader_golang.Sink.Pool.{SinkError}
use files_downloader_golang.Sink.Single.{
  Saved, bytes_of, copy_single, download_single, finish_single, serve_single, write_single,
}
use files_downloader_golang.Sink.Saving.{Served, download_single_exact}
use files_downloader_golang.Sink.Dest.{
  Stat, missing, there, chosen, stat_failed, renamed, rename_from, resolve_dest_path,
  resolve_dest_path_free, first_candidate, split_ext,
}
use files_downloader_golang.Sink.Entry.{multipart, plan_fd, plan_resume, plans_checked, usable}

abbrev answer : Response
answer = record {
  status = 200;
  content_range = [];
  body = more false (1 ∷ 2 ∷ []) accepted (last false (3 ∷ []) accepted false eof);
}

single_run :
    ((download_single true true true true (pos 3) (response answer)).0 ≡ none)
    × ((download_single true true true true (pos 3) (response answer)).1.file ≡ 1 ∷ 2 ∷ 3 ∷ [])
unfolding download_single serve_single copy_single write_single finish_single
single_run = (refl, refl)

download_single_exact_example :
    (((download_single true true true true (pos 3) (response answer)).0 ≡ none)
      ↔ Served true true true true answer)
    × (((e : SinkError) × ((download_single true true true true (pos 3) (response answer)).0
            ≡ some e))
        ⊎ Saved 1
            (bytes_of answer.body)
            (download_single true true true true (pos 3) (response answer)).1)
download_single_exact_example =
    download_single_exact true true true true (pos 3) answer (omega arith)

-- A directory in which `a.txt` exists already, and nothing else.
abbrev stat : Bytes → Stat
stat path = if text_eq path (codes "a.txt") then there false else missing

renamed_run :
    resolve_dest_path stat 7 (λ a b. a ++ b) true false (codes "a.txt") []
    ≡ some (chosen (codes "a (1).txt"))
unfolding resolve_dest_path rename_from first_candidate renamed split_ext text_eq decimal
    digits_onto
renamed_run = refl

-- The second round appends to the name of the first.
renamed_twice : renamed 2 (renamed 1 (codes "a.txt")) ≡ codes "a (1) (2).txt"
unfolding renamed split_ext decimal digits_onto
renamed_twice = refl

stat_shorter : (path : Bytes) (is_dir : Bool) → stat path ≡ there is_dir → length path < 6
stat_shorter path is_dir e = elim (Bool-cases (text_eq path (codes "a.txt"))) [
  | inl same ↦
      let path_eq = (text_eq_iff path (codes "a.txt")).0 same in
      let size : length path ≡ 5 = ap length path_eq in omega arith
  | inr other ↦ absurd (ground arith)
]

resolve_dest_path_free_example :
    (resolve_dest_path stat 7 (λ a b. a ++ b) true false (codes "a.txt") [] ≡ some stat_failed)
    ⊎ ((path : Bytes) × (resolve_dest_path stat 7 (λ a b. a ++ b) true false (codes "a.txt") []
          ≡ some (chosen path))
        × (stat path ≡ missing))
resolve_dest_path_free_example =
    resolve_dest_path_free stat (λ a b. a ++ b) 6 (codes "a.txt") [] stat_shorter

abbrev ranged_info : FileInfo
ranged_info = record {
  url = codes "u";
  final_url = codes "u";
  filename = codes "f";
  content_length = pos 8;
  accept_ranges = true;
  etag = [];
  last_modified = none;
  content_type = [];
  status_code = pos 206;
}

plans_run : plan_fd ranged_info (pos 2) (codes "s") none ≡ multipart none
unfolding plan_fd usable
plans_run = refl

abbrev kept : Checkpoint
kept = new_checkpoint ranged_info (new_chunk (pos 0) (pos 0) (pos 7) ∷ []) (pos 8)

resumes : plan_fd ranged_info (pos 2) (codes "s") (some kept) ≡ multipart (some kept)
unfolding plan_fd usable is_resume_valid new_checkpoint same_version text_eq trim_by trim_left_by
    trim_right_by states_ok state_ok add64 sub64
resumes = refl

plans_checked_example :
    (plan_fd ranged_info (pos 2) (codes "s") (some kept) ≡ multipart (some kept) ↔ (
      (some kept ≡ some kept)
      × (is_resume_valid kept (some ranged_info) ≡ true)
      × ¬ (codes "s" ≡ [])
      × (pos 2 ≤ℤ pos 2)))
    × ((plan_resume ranged_info (pos 2) (some kept)).plan ≡ multipart (some kept)
        ↔ ((some kept ≡ some kept) × (is_resume_valid kept (some ranged_info) ≡ true)))
    × ((plan_resume ranged_info (pos 2) (some kept)).truncates ≡ false ↔ (
        (found : Checkpoint) × (some kept ≡ some found)
        × (is_resume_valid found (some ranged_info) ≡ true)))
plans_checked_example = plans_checked ranged_info (pos 2) (codes "s") (some kept) kept
