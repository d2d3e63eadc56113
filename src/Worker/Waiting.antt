-- ===== src/Worker/Waiting.antt =====
-- The back-offs of the retry loop.
use Prim.Native.Nat.{min}
use files_downloader_golang.Common.{
  length, ◌-◌, ℕ, zero, suc, ◌+◌, ◌*◌, ◌^◌, ◌≤◌, ◌<◌, ◌≡◌, ap, ◌∙◌, Option, none, some, List, [],
  ◌∷◌, arith, if_case, not, inl, inr,
}
use files_downloader_golang.Common.Int.{ℤ, pos, ◌≤ℤ◌}
use files_downloader_golang.Common.Word.{wrap64-pos, mul64-pos}
use files_downloader_golang.Common.Text.{Bytes}
use files_downloader_golang.Chunk.{Chunk}
use files_downloader_golang.Worker.{Error, Round, Job, Copy, WorkerOptions, backoff, fails_fast}
use files_downloader_golang.Worker.Delivery.{RoundEnd-cases}
use files_downloader_golang.Worker.Retry.{
  RoundEnd, stop, again, start_round, one_round, settle, done_in_wait, download_from,
  download_chunk, rounds,
}

-- Ten seconds.
abbrev pub max_backoff : ℤ
max_backoff = pos 10000000000

backoff-le : (delay : ℤ) (attempt : ℕ) → backoff delay attempt ≤ℤ max_backoff
unfolding backoff
backoff-le delay attempt = ground arith

-- Where the doubled delay fits an int64, the back-off is it, capped at ten seconds.
pub backoff_exact :
    (delay attempt : ℕ)
    → 2 ^ attempt < 2 ^ 63
    → delay * 2 ^ attempt < 2 ^ 63
    → backoff (pos delay) attempt ≡ pos (min (delay * 2 ^ attempt) 10000000000)
unfolding backoff
backoff_exact delay attempt h k =
    let power = wrap64-pos (2 ^ attempt) h in
    let product = mul64-pos delay (2 ^ attempt) k in rw (power, product) (ground arith)

abbrev pub Capped : List ℤ → Type 0
Capped [] = Unit
Capped (w ∷ ws) = (w ≤ℤ max_backoff) × Capped ws

module _ {W : Type 0} (put : W → Bytes → W) (factory : Chunk → W → W) where
  -- At most one back-off is added by a round, none by the first, and it is capped.
  abbrev Waited : ℕ → Job W → Job W → Type 0
  Waited n j j' = Capped j'.waits × (length j'.waits ≤ length j.waits + n)

  abbrev RoundWaited : ℕ → Job W → RoundEnd W → Type 0
  RoundWaited n j (stop failure j') = Waited n j j'
  RoundWaited n j (again e j') = Waited n j j'

  abbrev waits_in : ℕ → ℕ
  waits_in zero = 0
  waits_in (suc attempt) = 1

  waits_in-le : (attempt : ℕ) → waits_in attempt ≤ 1
  waits_in-le zero = omega arith
  waits_in-le (suc attempt) = omega arith

  start_round-Waited :
      (opts : WorkerOptions) (attempt : ℕ) (j : Job W)
      → Capped j.waits
      → Waited (waits_in attempt) j (start_round opts attempt j)
  unfolding start_round
  start_round-Waited opts zero j h = (h, omega arith)
  start_round-Waited opts (suc attempt) j h =
      ((backoff-le opts.retry_delay attempt, h), omega arith)

  settle-Waited :
      (n : ℕ) (j j' : Job W) (o : Option Error × Copy W)
      → Waited n j j'
      → RoundWaited n j (settle put factory j' o)
  settle-Waited n j j' (none, s) h = h
  settle-Waited n j j' (some e, s) h = if_case (RoundWaited n j) (fails_fast e) h h

  one_round-Waited :
      (opts : WorkerOptions) (attempt : ℕ) (round : Round) (j : Job W)
      → Capped j.waits
      → RoundWaited (waits_in attempt) j (one_round put factory opts attempt round j)
  unfolding one_round
  one_round-Waited opts attempt round j h =
      let started = start_round-Waited opts attempt j h in
      if_case (RoundWaited (waits_in attempt) j) round.done_before (h, omega arith)
        (if_case (RoundWaited (waits_in attempt) j) (done_in_wait attempt round) started (
          if_case (RoundWaited (waits_in attempt) j) (not round.makes_writer) started
            (settle-Waited (waits_in attempt) j (start_round opts attempt j) _ started)))

  stop-Waited :
      (attempt : ℕ) (j : Job W) (failure : Option Error) (j' : Job W) (o : RoundEnd W)
      → o ≡ stop failure j'
      → RoundWaited (waits_in attempt) j o
      → Waited (waits_in attempt) j j'
  stop-Waited attempt j failure j' o e h = rw e at h

  again-Waited :
      (attempt : ℕ) (j : Job W) (x : Error) (j' : Job W) (o : RoundEnd W)
      → o ≡ again x j'
      → RoundWaited (waits_in attempt) j o
      → Waited (waits_in attempt) j j'
  again-Waited attempt j x j' o e h = rw e at h

  download_from-Waited :
      (opts : WorkerOptions) (env : ℕ → Round) (left attempt : ℕ) (last_error : Option Error)
      (j : Job W)
      → Capped j.waits
      → Waited
          (left - (1 - waits_in attempt))
          j
          (download_from put factory opts env left attempt last_error j).1
  unfolding download_from
  download_from-Waited opts env zero attempt last_error j h = (h, omega arith)
  download_from-Waited opts env (suc left) attempt last_error j h =
      elim (RoundEnd-cases (one_round put factory opts attempt (env attempt) j)) [
        | inl (failure, j', e) ↦
            let now =
              stop-Waited attempt j failure j' _ e
                (one_round-Waited opts attempt (env attempt) j h) in
            rw (e, download_from) (now.0, omega (arith, now.1, waits_in-le attempt))
        | inr (x, j', e) ↦
            let now =
              again-Waited attempt j x j' _ e (one_round-Waited opts attempt (env attempt) j h) in
            let later = download_from-Waited opts env left (suc attempt) (some x) j' now.0 in
            rw (e, download_from) (later.0, omega (arith, now.1, later.1, waits_in-le attempt))
      ]

  -- Whatever the delay option and the outcome, a chunk's download waits at most `max_retries` times,
  -- and no longer than ten seconds each time.
  pub download_chunk_waits :
      (opts : WorkerOptions) (env : ℕ → Round) (n : ℕ) (j : Job W)
      → opts.max_retries ≡ pos n
      → Capped j.waits
      → let j' = (download_chunk put factory opts env j).1 in
        Capped j'.waits × (length j'.waits ≤ length j.waits + n)
  unfolding download_chunk
  download_chunk_waits opts env n j e h =
      let waited = download_from-Waited opts env (rounds opts.max_retries) 0 none j h in
      let count : rounds opts.max_retries ≡ suc n = ap rounds e ∙ ground arith in
      (waited.0, omega (arith, waited.1))
