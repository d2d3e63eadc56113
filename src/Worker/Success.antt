-- ===== src/Worker/Success.antt =====
-- The retry loop reaches success: transport failures within the limit, and then a good answer.
use files_downloader_golang.Common.{
  ℕ, zero, suc, ◌+◌, ◌-◌, ◌^◌, ◌≤◌, ◌<◌, ◌≡◌, refl, ap, ◌∙◌, true, false, Option, none, some, arith,
}
use native.Mathlib.Nat.{add-zero, zero-add}
use files_downloader_golang.Common.Int.{pos}
use files_downloader_golang.Common.Word.{add64, add64-pos}
use files_downloader_golang.Common.Text.{Bytes}
use files_downloader_golang.Chunk.{Chunk}
use files_downloader_golang.Chunk.Methods.{Spans}
use files_downloader_golang.Worker.Header.{parse_content_range}
use files_downloader_golang.Worker.{
  Error, transport_failed, Reply, transport_error, response, Response, Round, Job, Copy,
  WorkerOptions, check_response,
}
use files_downloader_golang.Worker.Attempt.{take_reply}
use files_downloader_golang.Worker.Retry.{
  start_round, run_attempt, one_round, download_from, download_chunk, rounds, stop, again, settle,
  after_failure, after_success, done_in_wait,
}
use files_downloader_golang.Worker.Content.{HonestBody, Complete}
use files_downloader_golang.Worker.Copying.{copy_body-Complete}
use files_downloader_golang.Worker.Delivery.{
  Ready, first_copy, first_copy-At, run_attempt_rest, untouched-Ready, start_round-Ready,
}

-- Nothing but the answer stands in the way of the round.
pub record Clear (round : Round) : Type 0 where
  pub before : round.done_before ≡ false
  pub waiting : round.done_waiting ≡ false
  pub writer : round.makes_writer ≡ true
  pub request : round.makes_request ≡ true

-- A correct partial answer with all the bytes from `r` to `b` of the file.
pub record Good (content : ℕ → ℕ) (total b r : ℕ) (reply : Reply) : Type 0 where
  pub answer : Response
  pub reply_eq : reply ≡ response answer
  pub status_eq : answer.status ≡ 206
  pub range_eq : parse_content_range answer.content_range ≡ some (pos r, pos b, pos total)
  pub honest : HonestBody content total r answer.body
  pub complete : Complete (b + 1 - r) answer.body

-- The answer to the rest of a chunk passes the checks of its status and its range.
check_response-none :
    (content : ℕ → ℕ) (total b r : ℕ) (reply : Reply) (good : Good content total b r reply)
    → b < total
    → total < 2 ^ 63
    → check_response (pos r) (pos b) good.answer ≡ none
unfolding check_response
check_response-none content total b r reply good h k =
    let status = good.status_eq in
    let range = good.range_eq in
    let next : add64 (pos b) (pos 1) ≡ pos (b + 1) = add64-pos b 1 (omega arith) in ground arith

settle-none :
    {W : Type 0} (put : W → Bytes → W) (factory : Chunk → W → W) (j : Job W)
    (o : Option Error × Copy W)
    → o.0 ≡ none
    → settle put factory j o ≡ stop none (after_success j o.1)
settle-none put factory j (none, s) e = refl
settle-none put factory j (some x, s) e = cc

done_in_wait-false :
    (attempt : ℕ) (round : Round) → Clear round → done_in_wait attempt round ≡ false
done_in_wait-false zero round clear = refl
done_in_wait-false (suc attempt) round clear = clear.waiting

-- A clear round is its attempt.
one_round-Clear :
    {W : Type 0} (put : W → Bytes → W) (factory : Chunk → W → W) (opts : WorkerOptions)
    (attempt : ℕ) (round : Round) (j : Job W)
    → Clear round
    → one_round put factory opts attempt round j
      ≡ settle put factory
          (start_round opts attempt j)
          (run_attempt put factory opts round (start_round opts attempt j))
unfolding one_round
one_round-Clear put factory opts attempt round j clear =
    let wait = done_in_wait-false attempt round clear in
    let before = clear.before in let writer = clear.writer in ground arith

module _ {W : Type 0} (put : W → Bytes → W) (factory : Chunk → W → W) (content : ℕ → ℕ)
    (total a b d m : ℕ) (inside : b < total) (fits : total ≤ 2 ^ 62)
    (counter_fits : m + total < 2 ^ 63) (left : a + d ≤ b) where
  -- The facts about an attempt, for a destination of which nothing is claimed.
  abbrev Before : Job W → Type 0
  Before =
      Ready put factory content total (λ r p w. Unit) (λ n w. Unit) (λ r p w bs x y. tt) a b m
        inside fits counter_fits (λ r p n w x y. tt) (λ c n w x y z k. tt) d

  abbrev first : Job W → Copy W
  first =
      first_copy put factory content total (λ r p w. Unit) (λ n w. Unit) (λ r p w bs x y. tt) a b m
        inside fits counter_fits (λ r p n w x y. tt) (λ c n w x y z k. tt)

  run_rest :
      (opts : WorkerOptions) (round : Round) (j : Job W)
      → Before j
      → Clear round
      → run_attempt put factory opts round j
        ≡ take_reply put
            (pos (a + d))
            (pos (b + 1 - (a + d)))
            opts.idle_enabled
            (first j)
            (round.reply (pos (a + d)) (pos b))
  run_rest opts round j before clear =
      run_attempt_rest put factory content total (λ r p w. Unit) (λ n w. Unit) (λ r p w bs x y. tt)
        a b m inside fits counter_fits (λ r p n w x y. tt) (λ c n w x y z k. tt) opts round d j
        before left clear.request

  run_Good :
      (opts : WorkerOptions) (round : Round) (j : Job W)
      → Before j
      → Clear round
      → Good content total b (a + d) (round.reply (pos (a + d)) (pos b))
      → (run_attempt put factory opts round j).0 ≡ none
  unfolding take_reply
  run_Good opts round j before clear good =
      let from_chunk : a ≤ a + d = omega arith in
      let passed = check_response-none content total b (a + d) _ good inside (omega arith) in
      let passed' : check_response (pos (a + d)) (first j).chunk.end good.answer ≡ none =
        ap (λ x. check_response (pos (a + d)) x good.answer) before.spans.end_eq ∙ passed in
      let start =
        first_copy-At put factory content total (λ r p w. Unit) (λ n w. Unit) (λ r p w bs x y. tt) a
          b m inside fits counter_fits (λ r p n w x y. tt) (λ c n w x y z k. tt) d j before
          from_chunk left in
      let whole : b + 1 - (a + d) ≡ b + 1 - (a + d) - 0 = omega arith in
      let copied =
        copy_body-Complete put content total (λ p w. Unit) (λ p w bs x y. tt) j.chunk j.tracker a b
          (a + d) m before.spans inside fits from_chunk left before.counter_eq counter_fits
          opts.idle_enabled good.answer.body 0 (first j) (rw add-zero good.honest)
          (rw whole at good.complete) (omega arith) (rw add-zero start) in
      rw (run_rest opts round j before clear, good.reply_eq, passed', take_reply) copied

  -- A round with a good answer ends the loop in success.
  one_round-Good :
      (opts : WorkerOptions) (attempt : ℕ) (round : Round) (j : Job W)
      → Before j
      → Clear round
      → Good content total b (a + d) (round.reply (pos (a + d)) (pos b))
      → (j' : Job W) × (one_round put factory opts attempt round j ≡ stop none j')
  unfolding one_round
  one_round-Good opts attempt round j before clear good =
      let j1 = start_round opts attempt j in
      let before' =
        start_round-Ready put factory content total (λ r p w. Unit) (λ n w. Unit)
          (λ r p w bs x y. tt) a b m inside fits counter_fits (λ r p n w x y. tt)
          (λ c n w x y z k. tt) opts attempt d j before in
      let ok = run_Good opts round j1 before' clear good in
      (
        after_success j1 (run_attempt put factory opts round j1).1,
        one_round-Clear put factory opts attempt round j clear ∙ settle-none put factory j1 _ ok,
      )

  -- A round without an answer leaves the job where it was, for the next one.
  one_round_lost :
      (opts : WorkerOptions) (attempt : ℕ) (round : Round) (j : Job W)
      → Before j
      → Clear round
      → round.reply (pos (a + d)) (pos b) ≡ transport_error
      → (j' : Job W) × (one_round put factory opts attempt round j ≡ again transport_failed j')
        × Before j'
  unfolding take_reply
  one_round_lost opts attempt round j before clear lost =
      let j1 = start_round opts attempt j in
      let before' =
        start_round-Ready put factory content total (λ r p w. Unit) (λ n w. Unit)
          (λ r p w bs x y. tt) a b m inside fits counter_fits (λ r p n w x y. tt)
          (λ c n w x y z k. tt) opts attempt d j before in
      let run = run_rest opts round j1 before' clear in
      (
        after_failure j1 (first j1),
        one_round-Clear put factory opts attempt round j clear
            ∙ ap (settle put factory j1) run
            ∙ rw lost,
        untouched-Ready put factory content total (λ r p w. Unit) (λ n w. Unit) (λ r p w bs x y. tt)
            a b m inside fits counter_fits (λ r p n w x y. tt) (λ c n w x y z k. tt) d j1 before',
      )

  download_from-none :
      (opts : WorkerOptions) (env : ℕ → Round) (k rest attempt : ℕ) (last_error : Option Error)
      (j : Job W)
      → Before j
      → ((i : ℕ) → Clear (env i))
      → ((i : ℕ)
          → attempt ≤ i
          → i < attempt + k
          → (env i).reply (pos (a + d)) (pos b) ≡ transport_error)
      → Good content total b (a + d) ((env (attempt + k)).reply (pos (a + d)) (pos b))
      → (download_from put factory opts env (k + suc rest) attempt last_error j).0 ≡ none
  unfolding download_from
  download_from-none opts env zero rest attempt last_error j before clear lost good =
      let good' = rw add-zero at good in
      let (j', e) = one_round-Good opts attempt (env attempt) j before (clear attempt) good' in
      rw (zero-add, e, download_from)
  download_from-none opts env (suc k) rest attempt last_error j before clear lost good =
      let (j', e, before') =
        one_round_lost opts attempt (env attempt) j before (clear attempt)
          (lost attempt (omega arith) (omega arith)) in
      let next : attempt + suc k ≡ suc attempt + k = omega arith in
      let fuel : suc k + suc rest ≡ suc (k + suc rest) = omega arith in
      rw (fuel, e, download_from)
        (download_from-none opts env k rest (suc attempt) (some transport_failed) j' before' clear
          (λ i lo hi. lost i (omega arith) (omega arith)) (rw next at good))

  -- Into any destination: if up to `max_retries` rounds lose their answer to the transport, and the
  -- next one gets a correct and complete answer for the missing bytes, the download of the chunk
  -- succeeds.
  pub download_chunk_succeeds :
      (opts : WorkerOptions) (env : ℕ → Round) (n k : ℕ) (j : Job W)
      → opts.max_retries ≡ pos n
      → k ≤ n
      → Spans j.chunk a b
      → j.chunk.downloaded ≡ pos d
      → j.tracker.downloaded_bytes ≡ pos m
      → ((i : ℕ) → Clear (env i))
      → ((i : ℕ) → i < k → (env i).reply (pos (a + d)) (pos b) ≡ transport_error)
      → Good content total b (a + d) ((env k).reply (pos (a + d)) (pos b))
      → (download_chunk put factory opts env j).0 ≡ none
  unfolding download_chunk
  download_chunk_succeeds opts env n k j retries le spans downloaded counter clear lost good =
      let before : Before j = record {
        spans = spans;
        downloaded_eq = downloaded;
        within = omega arith;
        counter_eq = counter;
        kept = tt;
      } in
      let same : 0 + k ≡ k = omega arith in
      let fuel : rounds opts.max_retries ≡ k + suc (n - k) = ap rounds retries ∙ ground arith in
      rw fuel (
        download_from-none opts env k (n - k) 0 none j before clear
          (λ i lo hi. lost i (omega arith)) (rw same good))
