-- ===== src/Worker/Frame.antt =====
-- What a download leaves alone in its chunk: the index and the range, and until it succeeds the mark.
use files_downloader_golang.Common.{
  ℕ, zero, suc, ◌≡◌, refl, Bool, true, Option, none, some, [], ◌∷◌, not, if_case, ◌||◌,
}
use files_downloader_golang.Common.Int.{ℤ, ltb_ℤ}
use files_downloader_golang.Common.Word.{add64}
use files_downloader_golang.Common.Text.{Bytes}
use files_downloader_golang.Chunk.{Chunk, set_downloaded, mark_completed}
use files_downloader_golang.Worker.{
  WriteEnd, accepted, short, refused, ReadError, Body, more, last, Reply, transport_error, response,
  Error, WorkerOptions, Copy, Round, Job, check_response, fails_fast, seen_error,
}
use files_downloader_golang.Worker.Attempt.{
  counted, take_bytes, copy_body, on_success, finish, take_reply, attempt_chunk,
}
use files_downloader_golang.Worker.Retry.{
  RoundEnd, stop, again, start_round, run_attempt, settle, one_round, download_from, download_chunk,
  done_in_wait, rounds,
}

-- The same chunk of the same file.
pub record Framed (c c' : Chunk) : Type 0 where
  pub index_eq : c'.index ≡ c.index
  pub start_eq : c'.start ≡ c.start
  pub end_eq : c'.end ≡ c.end

-- The same, marked as before.
abbrev pub Unmarked : Chunk → Chunk → Type 0
Unmarked c c' = Framed c c' × (c'.completed ≡ c.completed)

unchanged : (c : Chunk) → Unmarked c c
unchanged c = (record { index_eq = refl; start_eq = refl; end_eq = refl }, refl)

set_downloaded-Unmarked : (c c' : Chunk) (n : ℤ) → Unmarked c c' → Unmarked c (set_downloaded c' n)
unfolding set_downloaded
set_downloaded-Unmarked c c' n (f, e) =
    (record { index_eq = f.index_eq; start_eq = f.start_eq; end_eq = f.end_eq }, e)

module _ {W : Type 0} (put : W → Bytes → W) (factory : Chunk → W → W) (c : Chunk) where
  abbrev Within : Option Error × Copy W → Type 0
  Within (e, s) = Unmarked c s.chunk

  take_bytes-Within :
      (from : ℤ) (s : Copy W) (bytes : Bytes) (end : WriteEnd)
      → Unmarked c s.chunk
      → Within (take_bytes put from s bytes end)
  unfolding take_bytes counted
  take_bytes-Within from s [] end u = u
  take_bytes-Within from s (b ∷ bs) accepted u = set_downloaded-Unmarked c s.chunk _ u
  take_bytes-Within from s (b ∷ bs) (short n) u = u
  take_bytes-Within from s (b ∷ bs) (refused n) u = u

  finish-Within :
      (expected : ℤ) (e : ReadError) (o : Option Error × Copy W)
      → Within o
      → Within (finish put expected e o)
  finish-Within expected e (none, s) u = u
  finish-Within expected e (some x, s) u = u

  on_success-Within :
      (k : Copy W → Option Error × Copy W) (o : Option Error × Copy W)
      → ((s : Copy W) → Unmarked c s.chunk → Within (k s))
      → Within o
      → Within (on_success put k o)
  on_success-Within k (none, s) h u = h s u
  on_success-Within k (some x, s) h u = u

  copy_body-Within :
      (from expected : ℤ) (idle : Bool) (s : Copy W) (body : Body)
      → Unmarked c s.chunk
      → Within (copy_body put from expected idle s body)
  unfolding copy_body
  copy_body-Within from expected idle s (last done bytes end fired e) u = if_case Within done u (
      finish-Within expected (seen_error idle fired e) (take_bytes put from s bytes end)
        (take_bytes-Within from s bytes end u))
  copy_body-Within from expected idle s (more done bytes end rest) u = if_case Within done u (
      on_success-Within (λ s'. copy_body put from expected idle s' rest)
        (take_bytes put from s bytes end) (λ s' u'. copy_body-Within from expected idle s' rest u')
        (take_bytes-Within from s bytes end u))

  checked-Within :
      (from expected : ℤ) (idle : Bool) (s : Copy W) (body : Body) (check : Option Error)
      → Unmarked c s.chunk
      → Within (elim check as (λ x. Option Error × Copy W) [
        | some e ↦ (some e, s)
        | none ↦ copy_body put from expected idle s body
      ])
  checked-Within from expected idle s body none u = copy_body-Within from expected idle s body u
  checked-Within from expected idle s body (some e) u = u

  take_reply-Within :
      (from expected : ℤ) (idle : Bool) (s : Copy W) (reply : Reply)
      → Unmarked c s.chunk
      → Within (take_reply put from expected idle s reply)
  unfolding take_reply
  take_reply-Within from expected idle s transport_error u = u
  take_reply-Within from expected idle s (response r) u =
      checked-Within from expected idle s r.body (check_response from s.chunk.end r) u

  attempt_chunk-Within :
      (idle makes_request : Bool) (reply : ℤ → ℤ → Reply) (s : Copy W)
      → Unmarked c s.chunk
      → Within (attempt_chunk put idle makes_request reply s)
  unfolding attempt_chunk
  attempt_chunk-Within idle makes_request reply s u = if_case Within (not makes_request) u (
      if_case Within
        (ltb_ℤ (add64 s.chunk.start s.chunk.downloaded) s.chunk.start
          || ltb_ℤ s.chunk.end (add64 s.chunk.start s.chunk.downloaded))
        u (take_reply-Within _ _ idle s _ u))

  -- How a download that ends leaves the chunk.
  abbrev pub Leaves : Option Error × Job W → Type 0
  Leaves (none, j) = Framed c j.chunk × (j.chunk.completed ≡ true)
  Leaves (some e, j) = Unmarked c j.chunk

  abbrev RoundLeaves : RoundEnd W → Type 0
  RoundLeaves (stop e j) = Leaves (e, j)
  RoundLeaves (again e j) = Unmarked c j.chunk

  marked-Framed :
      (c' : Chunk)
      → Unmarked c c'
      → Framed c (mark_completed c') × ((mark_completed c').completed ≡ true)
  unfolding mark_completed
  marked-Framed c' (f, e) =
      (record { index_eq = f.index_eq; start_eq = f.start_eq; end_eq = f.end_eq }, refl)

  settle-RoundLeaves :
      (j : Job W) (o : Option Error × Copy W) → Within o → RoundLeaves (settle put factory j o)
  settle-RoundLeaves j (none, s) u = marked-Framed s.chunk u
  settle-RoundLeaves j (some e, s) u = if_case RoundLeaves (fails_fast e) u u

  start_round-Unmarked :
      (opts : WorkerOptions) (attempt : ℕ) (j : Job W)
      → Unmarked c j.chunk
      → Unmarked c (start_round opts attempt j).chunk
  unfolding start_round
  start_round-Unmarked opts zero j u = u
  start_round-Unmarked opts (suc attempt) j (f, e) =
      (record { index_eq = f.index_eq; start_eq = f.start_eq; end_eq = f.end_eq }, e)

  one_round-RoundLeaves :
      (opts : WorkerOptions) (attempt : ℕ) (round : Round) (j : Job W)
      → Unmarked c j.chunk
      → RoundLeaves (one_round put factory opts attempt round j)
  unfolding one_round run_attempt
  one_round-RoundLeaves opts attempt round j u =
      let u' = start_round-Unmarked opts attempt j u in
      if_case RoundLeaves round.done_before u (
        if_case RoundLeaves (done_in_wait attempt round) u' (
          if_case RoundLeaves (not round.makes_writer) u' (
            settle-RoundLeaves (start_round opts attempt j) _
              (attempt_chunk-Within opts.idle_enabled round.makes_request round.reply _ u'))))

  ended-Leaves :
      (o : RoundEnd W) (k : Error → Job W → Option Error × Job W)
      → RoundLeaves o
      → ((e : Error) (j : Job W) → Unmarked c j.chunk → Leaves (k e j))
      → Leaves (elim o as (λ x. Option Error × Job W) [ stop e j ↦ (e, j) | again e j ↦ k e j ])
  ended-Leaves (stop e j) k u h = u
  ended-Leaves (again e j) k u h = h e j u

  download_from-Leaves :
      (opts : WorkerOptions) (env : ℕ → Round) (left attempt : ℕ) (last_error : Option Error)
      (j : Job W)
      → Unmarked c j.chunk
      → Leaves (download_from put factory opts env left attempt last_error j)
  unfolding download_from
  download_from-Leaves opts env zero attempt last_error j u = u
  download_from-Leaves opts env (suc left) attempt last_error j u =
      ended-Leaves (one_round put factory opts attempt (env attempt) j)
        (λ e j'. download_from put factory opts env left (suc attempt) (some e) j')
        (one_round-RoundLeaves opts attempt (env attempt) j u)
        (λ e j' u'. download_from-Leaves opts env left (suc attempt) (some e) j' u')

-- A download keeps the index and the range of its chunk; it marks the chunk if it succeeds, and
-- leaves the mark as it was if it fails.
pub download_chunk-Leaves :
    {W : Type 0} (put : W → Bytes → W) (factory : Chunk → W → W) (opts : WorkerOptions)
    (env : ℕ → Round) (j : Job W)
    → Leaves put factory j.chunk (download_chunk put factory opts env j)
unfolding download_chunk
download_chunk-Leaves put factory opts env j =
    download_from-Leaves put factory j.chunk opts env (rounds opts.max_retries) 0 none j
      (unchanged j.chunk)

module _ {W : Type 0} (put : W → Bytes → W) (factory : Chunk → W → W) (c : Chunk) where
  pub Leaves-Framed : (o : Option Error × Job W) → Leaves put factory c o → Framed c o.1.chunk
  Leaves-Framed (none, j) (f, marked) = f
  Leaves-Framed (some e, j) (f, same) = f

  pub Leaves-completed :
      (o : Option Error × Job W) {e : Error}
      → Leaves put factory c o
      → o.0 ≡ some e
      → o.1.chunk.completed ≡ c.completed
  Leaves-completed (none, j) f failed = absurd cc
  Leaves-completed (some e, j) (f, same) failed = same
