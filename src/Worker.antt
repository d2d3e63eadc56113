-- ===== src/Worker.antt =====
-- pkg/engine/worker.go: one chunk's download, with retries.
-- What comes from outside is data of the model: when the context is done, what the server answers
-- to a range, what each read yields and how each write ends.
pub mod Header
pub mod Attempt
pub mod Retry
pub mod Content
pub mod Copying
pub mod Delivery
pub mod FileSink
pub mod Buffer
pub mod Success
pub mod Waiting
pub mod Frame
use files_downloader_golang.Common.{
  ℕ, zero, suc, ◌+◌, ◌-◌, ◌^◌, Bool, true, false, not, ◌&&◌, ◌||◌, Option, none, some, List, [],
  ◌∷◌, ◌++◌, take, length, ◌==◌, ltb, if◌then◌else◌,
}
use files_downloader_golang.Common.Int.{ℤ, pos, ltb_ℤ, leb_ℤ, eqb_ℤ}
use files_downloader_golang.Common.Word.{add64, sub64, mul64, wrap64}
use files_downloader_golang.Common.Text.{Bytes}
use files_downloader_golang.Chunk.{Chunk, set_downloaded, mark_completed}
use files_downloader_golang.Progress.{Tracker, add_bytes, sub_bytes, chunk_completed}
use Header.{parse_content_range}

-- How `dest.Write` of some bytes ends: all taken, or only the first few, with no error or with one.
pub data WriteEnd : Type 0 where
  accepted : WriteEnd
  short refused : ℕ → WriteEnd

-- The error of a read that ends the body. The idle reader turns any into `idle_timeout` once its
-- timer has fired.
pub data ReadError : Type 0 where
  eof broken idle_timeout : ReadError

-- A response body: what each round of the copy loop meets. `more done bytes end` is a read with no
-- error, `last done bytes end fired error` the read that returns one; `done` says that the context
-- is done before the read, `fired` that the idle timer fired.
pub data Body : Type 0 where
  more : Bool → Bytes → WriteEnd → Body → Body
  last : Bool → Bytes → WriteEnd → Bool → ReadError → Body

pub record Response : Type 0 where
  pub status : ℕ
  pub content_range : Bytes
  pub body : Body

-- `HTTPClient.Do`
pub data Reply : Type 0 where
  transport_error : Reply
  response : Response → Reply

pub data Error : Type 0 where
  context_done writer_failed bad_request transport_failed non_retryable : Error
  unexpected_status range_not_supported invalid_range write_failed short_write : Error
  read_failed : ReadError → Error
  size_mismatch : Error
  no_attempt : Error
  retries_exceeded : Error → Error

-- `errors.Is(err, ErrNonRetryable) || errors.Is(err, ErrRangeNotSupported)`
abbrev pub fails_fast : Error → Bool
fails_fast non_retryable = true
fails_fast range_not_supported = true
fails_fast _ = false

-- The options that a worker reads. Durations are nanoseconds.
pub record WorkerOptions : Type 0 where
  pub max_retries : ℤ
  pub retry_delay : ℤ
  pub idle_enabled : Bool

-- The statuses that fail without a retry: 401, 403, 404, 410, 400 and 416.
abbrev pub is_final_status : ℕ → Bool
is_final_status status =
    status == 401
    || status == 403
    || status == 404
    || status == 410
    || status == 400
    || status == 416

-- `idleTimeoutReader.Read`, where there is an idle timeout.
abbrev pub seen_error : Bool → Bool → ReadError → ReadError
seen_error idle fired e = if idle && fired then idle_timeout else e

-- The check of the `Content-Range` that came with the range `from` to `to`.
abbrev pub check_range : ℤ → ℤ → Option (ℤ × ℤ × ℤ) → Option Error
check_range from to none = some invalid_range
check_range from to (some (first, last_byte, total)) =
    if not (eqb_ℤ first from)
      || not (eqb_ℤ last_byte to)
      || ltb_ℤ (pos 0) total && ltb_ℤ total (add64 to (pos 1))
    then some invalid_range
    else none

-- The checks between the answer and the copying of its body, for the range `from` to `to`.
unfoldable pub check_response : ℤ → ℤ → Response → Option Error
check_response from to r =
    if is_final_status r.status
    then some non_retryable
    else if not (r.status == 206) && not (r.status == 200)
    then some unexpected_status
    else if r.status == 200 && ltb_ℤ (pos 0) from
    then some range_not_supported
    else if r.status == 206
    then check_range from to (parse_content_range r.content_range)
    else none

-- `backoff` before attempt `attempt + 1`: an int64 product, capped at ten seconds.
unfoldable pub backoff : ℤ → ℕ → ℤ
unfolding wrap64
backoff retry_delay attempt =
    let product = mul64 retry_delay (wrap64 (pos (2 ^ attempt))) in
    if ltb_ℤ (pos 10000000000) product then pos 10000000000 else product

-- What the copy loop changes; `dest` is the destination writer.
pub record Copy (W : Type 0) : Type 0 where
  pub chunk : Chunk
  pub tracker : Tracker
  pub attempt_bytes : ℤ
  pub total_read : ℤ
  pub dest : W

-- What one round of the retry loop meets: whether the context is done before it or in its back-off,
-- whether the writer factory works, whether the request can be made, and the server's answer to
-- the range asked for.
pub record Round : Type 0 where
  pub done_before : Bool
  pub done_waiting : Bool
  pub makes_writer : Bool
  pub makes_request : Bool
  pub reply : ℤ → ℤ → Reply

-- What the retry loop changes; `waits` are the back-offs, the latest first.
pub record Job (W : Type 0) : Type 0 where
  pub chunk : Chunk
  pub tracker : Tracker
  pub waits : List ℤ
  pub dest : W
