-- ===== src/Worker/Delivery.antt =====
-- The retry loop against a server that answers with the file's bytes, for any destination.
use Prim.Native.Nat.{min}
use files_downloader_golang.Common.{
  if_case, ℕ, zero, suc, ◌+◌, ◌-◌, ◌^◌, ◌≤◌, ◌<◌, ◌≡◌, refl, ap, ap₂, sym, subst, ◌∙◌, ◌⊎◌, Bool,
  true, false, not, ◌==◌, Option, none, some, length, arith, Bool-cases, Option-cases, inl, inr,
}
use native.Mathlib.Decide.{dec_le}
use native.Mathlib.Nat.{add-zero}
use files_downloader_golang.Common.Int.{ℤ, pos, eq_of_parts}
use files_downloader_golang.Common.Word.{add64, sub64, add64-pos, sub64-pos}
use files_downloader_golang.Common.Text.{Bytes}
use files_downloader_golang.Chunk.{Chunk}
use files_downloader_golang.Chunk.Methods.{Spans, mark_completed_lem}
use files_downloader_golang.Progress.{Tracker}
use files_downloader_golang.Progress.Counters.{sub_bytes-pos}
use files_downloader_golang.Worker.{
  Error, Copy, Reply, Response, check_range, transport_error, response, Round, Job, WorkerOptions,
  check_response, invalid_range, bad_request, fails_fast,
}
use files_downloader_golang.Worker.Header.{parse_content_range}
use files_downloader_golang.Worker.Attempt.{take_reply, attempt_chunk}
use files_downloader_golang.Worker.Retry.{
  RoundEnd, stop, again, after_success, after_failure, roll_back, start_round, run_attempt, settle,
  done_in_wait, one_round, download_from,
}
use files_downloader_golang.Worker.Content.{Matches, HonestReply, HonestBody}
use files_downloader_golang.Worker.Copying.{At, Copied, copy_body-Copied}

moved-Spans :
    (a b : ℕ) (c c' : Chunk) (n : ℤ) → c' ≡ record c { downloaded = n } → Spans c a b → Spans c' a b
moved-Spans a b c c' n e s = record {
  start_eq = ap (λ (x : Chunk). x.start) e ∙ s.start_eq;
  end_eq = ap (λ (x : Chunk). x.end) e ∙ s.end_eq;
  ordered = s.ordered;
  fits = s.fits;
}

-- The roll-back of an attempt takes back exactly what the attempt counted.
roll_back-pos :
    (t : Tracker) (m n : ℕ)
    → t.downloaded_bytes ≡ pos (m + n)
    → m + n < 2 ^ 63
    → (roll_back t (pos n)).downloaded_bytes ≡ pos m
unfolding roll_back
roll_back-pos t m n e h = let left = sub_bytes-pos t (m + n) n e h (omega arith) in ground arith

pub none-ne-some : {e : Error} → ◌≡◌ {A = Option Error} none (some e) → ⊥
none-ne-some h = cc

pub RoundEnd-cases :
    {W : Type 0} (x : RoundEnd W)
    → ((failure : Option Error) × (j : Job W) × (x ≡ stop failure j))
      ⊎ ((e : Error) × (j : Job W) × (x ≡ again e j))
RoundEnd-cases (stop failure j) = inl (failure, j, refl)
RoundEnd-cases (again e j) = inr (e, j, refl)

checked_first :
    (from : ℕ) (to : ℤ) (o : Option (ℤ × ℤ × ℤ))
    → check_range (pos from) to o ≡ none
    → (last_byte : ℤ) × (size : ℤ) × (o ≡ some (pos from, last_byte, size))
checked_first from to none e = absurd (none-ne-some (sym e))
checked_first from to (some (first, last_byte, size)) e = (
  last_byte,
  size,
  ap (λ x. some (x, last_byte, size)) (eq_of_parts first (pos from) (ground arith)),
)

checked_status :
    (from : ℕ) (to : ℤ) (r : Response)
    → check_response (pos from) to r ≡ none
    → ((r.status ≡ 206) × (check_range (pos from) to (parse_content_range r.content_range) ≡ none))
      ⊎ ((r.status ≡ 200) × (from ≡ 0))
unfolding check_response
checked_status from to r e = elim (Bool-cases (r.status == 206)) [
  | inl h ↦ inl (ground arith, ground arith)
  | inr h ↦ inr (ground arith, ground arith)
]

-- An answer that passes the checks carries the bytes from the offset that was asked for.
accepted_body :
    (content : ℕ → ℕ) (total from : ℕ) (to : ℤ) (r : Response)
    → check_response (pos from) to r ≡ none
    → HonestReply content total (response r)
    → HonestBody content total from r.body
accepted_body content total from to r e (whole, part) = elim (checked_status from to r e) [
  | inl (h, checked) ↦
      let (last_byte, size, given) = checked_first from to _ checked in
      part from last_byte size h given
  | inr (h, start) ↦ rw start (whole h)
]

-- The chunk covers the bytes `a` to `b` of a file of `total` bytes. `Holds r p w` says that
-- the destination has taken the file's bytes from `r` up to `p` in an attempt that asked for those
-- from `r` on, `Kept d w` that an
-- attempt can be set up in it with `d` bytes of the chunk downloaded.
module _ {W : Type 0} (put : W → Bytes → W) (factory : Chunk → W → W) (content : ℕ → ℕ) (total : ℕ)
    (Holds : ℕ → ℕ → W → Type 0) (Kept : ℕ → W → Type 0)
    (keeps : (r p : ℕ) (w : W) (bs : Bytes)
      → Matches content p bs
      → Holds r p w
      → Holds r (p + length bs) (put w bs))
    (a b m : ℕ) (inside : b < total) (fits : total ≤ 2 ^ 62) (counter_fits : m + total < 2 ^ 63)
    (keep : (r p d : ℕ) (w : W) → a + d ≤ p → Holds r p w → Kept d w)
    (set_up : (c : Chunk) (d : ℕ) (w : W)
      → Spans c a b
      → c.downloaded ≡ pos d
      → d ≤ b + 1 - a
      → Kept d w
      → Holds (a + d) (a + d) (factory c w)) where
  -- The job stands before an attempt, with `d` bytes of the chunk downloaded and `m` counted.
  pub record Ready (d : ℕ) (j : Job W) : Type 0 where
    pub spans : Spans j.chunk a b
    pub downloaded_eq : j.chunk.downloaded ≡ pos d
    pub within : d ≤ b + 1 - a
    pub counter_eq : j.tracker.downloaded_bytes ≡ pos m
    pub kept : Kept d j.dest

  abbrev pub first_copy : Job W → Copy W
  first_copy j = record {
    chunk = j.chunk;
    tracker = j.tracker;
    attempt_bytes = pos 0;
    total_read = pos 0;
    dest = factory j.chunk j.dest;
  }

  pub first_copy-At :
      (d : ℕ) (j : Job W) (ready : Ready d j) (from_chunk : a ≤ a + d) (to_chunk : a + d ≤ b)
      → At put content total
          (Holds (a + d))
          (keeps (a + d))
          j.chunk
          j.tracker
          a
          b
          (a + d)
          m
          ready.spans
          inside
          fits
          from_chunk
          to_chunk
          ready.counter_eq
          counter_fits
          0
          (a + d)
          (first_copy j)
  first_copy-At d j ready from_chunk to_chunk = record {
    chunk_eq = ground (arith, ready.downloaded_eq);
    tracker_eq = ground (arith, ready.counter_eq);
    attempt_eq = refl;
    read_eq = refl;
    holds = set_up j.chunk d j.dest ready.spans ready.downloaded_eq ready.within ready.kept;
  }

  from_eq : (d : ℕ) (j : Job W) → Ready d j → add64 j.chunk.start j.chunk.downloaded ≡ pos (a + d)
  from_eq d j ready =
      let within = ready.within in
      let ordered = ready.spans.ordered in
      ap₂ add64 ready.spans.start_eq ready.downloaded_eq ∙ add64-pos a d (omega arith)

  expected_eq :
      (d : ℕ) (j : Job W)
      → Ready d j
      → a + d ≤ b
      → add64 (sub64 j.chunk.end (add64 j.chunk.start j.chunk.downloaded)) (pos 1)
        ≡ pos (b + 1 - (a + d))
  expected_eq d j ready h =
      let gap : sub64 j.chunk.end (add64 j.chunk.start j.chunk.downloaded) ≡ pos (b - (a + d)) =
        ap₂ sub64 ready.spans.end_eq (from_eq d j ready) ∙ sub64-pos b (a + d) h (omega arith) in
      ap (λ x. add64 x (pos 1)) gap ∙ add64-pos (b - (a + d)) 1 (omega arith) ∙ ap pos (omega arith)

  -- With the whole chunk downloaded there is nothing left to ask for: the attempt is an error.
  run_attempt_full :
      (opts : WorkerOptions) (round : Round) (d : ℕ) (j : Job W)
      → Ready d j
      → b < a + d
      → (e : Error) × (run_attempt put factory opts round j ≡ (some e, first_copy j))
  unfolding run_attempt attempt_chunk
  run_attempt_full opts round d j ready h =
      let from = from_eq d j ready in
      let end = ready.spans.end_eq in
      elim (Bool-cases round.makes_request) [
        | inl e ↦ (invalid_range, ground arith)
        | inr e ↦ (bad_request, ground arith)
      ]

  pub run_attempt_rest :
      (opts : WorkerOptions) (round : Round) (d : ℕ) (j : Job W)
      → Ready d j
      → a + d ≤ b
      → round.makes_request ≡ true
      → run_attempt put factory opts round j
        ≡ take_reply put
            (pos (a + d))
            (pos (b + 1 - (a + d)))
            opts.idle_enabled
            (first_copy j)
            (round.reply (pos (a + d)) (pos b))
  unfolding run_attempt attempt_chunk
  run_attempt_rest opts round d j ready h e =
      let from = from_eq d j ready in
      let expected = expected_eq d j ready h in
      let start = ready.spans.start_eq in let end = ready.spans.end_eq in ground arith

  run_attempt_unmade :
      (opts : WorkerOptions) (round : Round) (j : Job W)
      → round.makes_request ≡ false
      → run_attempt put factory opts round j ≡ (some bad_request, first_copy j)
  unfolding run_attempt attempt_chunk
  run_attempt_unmade opts round j e = ground arith

  -- An answer that passes the checks for the range that starts at `a + d`.
  abbrev pub Accepted : ℕ → ℤ → Reply → Type 0
  Accepted d to reply =
      (r : Response) × (reply ≡ response r) × (check_response (pos (a + d)) to r ≡ none)

  -- An attempt that asks for the bytes from `a + d` on, and gets this reply, ended with this outcome.
  abbrev Attempted : (d : ℕ) (j : Job W) → Ready d j → Reply → Option Error × Copy W → Type 0
  Attempted d j ready reply o =
      ((e : Error) × (o ≡ (some e, first_copy j)))
      ⊎ ((from_chunk : a ≤ a + d) × (to_chunk : a + d ≤ b) × Copied put content total
            (Holds (a + d)) (keeps (a + d)) j.chunk j.tracker a b (a + d) m ready.spans inside fits
            from_chunk to_chunk ready.counter_eq counter_fits o.0 o.1
          × Accepted d j.chunk.end reply)

  take_reply-Attempted :
      (idle : Bool) (reply : Reply) (d : ℕ) (j : Job W) (ready : Ready d j)
      → a + d ≤ b
      → HonestReply content total reply
      → Attempted d j ready reply
          (take_reply put (pos (a + d)) (pos (b + 1 - (a + d))) idle (first_copy j) reply)
  unfolding take_reply
  take_reply-Attempted idle transport_error d j ready h honest = inl (_, refl)
  take_reply-Attempted idle (response r) d j ready h honest =
      elim (Option-cases (check_response (pos (a + d)) j.chunk.end r)) [
        | inl e ↦
            let from_chunk : a ≤ a + d = omega arith in
            rw (e, take_reply)
              (inr (
                from_chunk,
                h,
                copy_body-Copied put content total (Holds (a + d)) (keeps (a + d)) j.chunk j.tracker
                    a b (a + d) m ready.spans inside fits from_chunk h ready.counter_eq counter_fits
                    idle r.body 0 (first_copy j)
                    (rw add-zero (accepted_body content total (a + d) j.chunk.end r e honest))
                    (omega arith) (rw add-zero (first_copy-At d j ready from_chunk h)),
                (r, refl, e),
              ))
        | inr (x, e) ↦ rw (e, take_reply) (inl (_, refl))
      ]

  run_attempt-Attempted :
      (opts : WorkerOptions) (round : Round) (d : ℕ) (j : Job W) (ready : Ready d j)
      → ((r : ℕ) → HonestReply content total (round.reply (pos r) (pos b)))
      → Attempted d j ready
          (round.reply (pos (a + d)) (pos b))
          (run_attempt put factory opts round j)
  run_attempt-Attempted opts round d j ready honest = elim (dec_le (a + d) b) [
    | yes h ↦ elim (Bool-cases round.makes_request) [
      | inl e ↦
          rw (run_attempt_rest opts round d j ready h e)
            (take_reply-Attempted opts.idle_enabled _ d j ready h (honest (a + d)))
      | inr e ↦ inl (bad_request, run_attempt_unmade opts round j e)
    ]
    | no h ↦ inl (run_attempt_full opts round d j ready (omega arith))
  ]

  -- The chunk is complete: a request for the bytes behind the first `d`, of which there are some,
  -- was answered in a round, the answer was accepted, and an attempt has taken its bytes.
  pub record Delivered (env : ℕ → Round) (d : ℕ) (j : Job W) : Type 0 where
    pub some_left : a + d ≤ b
    pub answered : (k : ℕ) × Accepted d (pos b) ((env k).reply (pos (a + d)) (pos b))
    pub downloaded_eq : j.chunk.downloaded ≡ pos (b + 1 - a)
    pub completed_eq : j.chunk.completed ≡ true
    pub counter_eq : j.tracker.downloaded_bytes ≡ pos (m + (b + 1 - a - d))
    pub holds : Holds (a + d) (b + 1) j.dest

  -- Success, with the bytes behind `a + d'` delivered by the last attempt, or an error with at
  -- least as many bytes of the chunk downloaded as before.
  abbrev pub Ended : (ℕ → Round) → ℕ → Option Error → Job W → Type 0
  Ended env d failure j =
      (d' : ℕ) × (d ≤ d')
      × (((failure ≡ none) × Delivered env d' j) ⊎ ((e : Error) × (failure ≡ some e) × Ready d' j))

  -- One round, by the way it ends.
  abbrev RoundEnded : (ℕ → Round) → ℕ → RoundEnd W → Type 0
  RoundEnded env d (stop failure j) = Ended env d failure j
  RoundEnded env d (again e j) = (d' : ℕ) × (d ≤ d') × Ready d' j

  success-Ended :
      (env : ℕ → Round) (k d : ℕ) (j : Job W) (ready : Ready d j) (s : Copy W)
      (from_chunk : a ≤ a + d) (to_chunk : a + d ≤ b)
      → Copied put content total
          (Holds (a + d))
          (keeps (a + d))
          j.chunk
          j.tracker
          a
          b
          (a + d)
          m
          ready.spans
          inside
          fits
          from_chunk
          to_chunk
          ready.counter_eq
          counter_fits
          none
          s
      → Accepted d j.chunk.end ((env k).reply (pos (a + d)) (pos b))
      → Delivered env d (after_success j s)
  success-Ended env k d j ready s from_chunk to_chunk c (r, given, checked) =
      let (t_eq, p_eq) = c.success refl in
      let spans' = moved-Spans a b j.chunk s.chunk _ c.at.chunk_eq ready.spans in
      let marked = mark_completed_lem s.chunk a b spans' in
      let within = ready.within in
      let end : c.p ≡ b + 1 = omega arith in
      let count : m + c.t ≡ m + (b + 1 - a - d) = omega arith in
      record {
        some_left = to_chunk;
        answered = (
          k,
          (
            r,
            given,
            subst (λ to. check_response (pos (a + d)) to r ≡ none) ready.spans.end_eq checked,
          ),
        );
        downloaded_eq = ap (λ (x : Chunk). x.downloaded) marked;
        completed_eq = ap (λ (x : Chunk). x.completed) marked;
        counter_eq = ap (λ (x : Tracker). x.downloaded_bytes) c.at.tracker_eq ∙ ap pos count;
        holds = subst (λ p. Holds (a + d) p s.dest) end c.at.holds;
      }

  -- An attempt that read nothing leaves the job where it was.
  pub untouched-Ready : (d : ℕ) (j : Job W) → Ready d j → Ready d (after_failure j (first_copy j))
  untouched-Ready d j ready =
      let holds = set_up j.chunk d j.dest ready.spans ready.downloaded_eq ready.within ready.kept in
      record {
        spans = ready.spans;
        downloaded_eq = ready.downloaded_eq;
        within = ready.within;
        counter_eq =
            roll_back-pos j.tracker m 0 (ready.counter_eq ∙ ap pos (omega arith)) (omega arith);
        kept = keep (a + d) (a + d) d _ (omega arith) holds;
      }

  failure-Ready :
      (reply : Reply) (d : ℕ) (j : Job W) (ready : Ready d j) (s : Copy W) (e : Error)
      → Attempted d j ready reply (some e, s)
      → (d' : ℕ) × (d ≤ d') × Ready d' (after_failure j s)
  failure-Ready reply d j ready s e (inl (e', same)) =
      let back : first_copy j ≡ s = sym (ap (λ (x : Option Error × Copy W). x.1) same) in
      (d, omega arith, subst (λ x. Ready d (after_failure j x)) back (untouched-Ready d j ready))
  failure-Ready reply d j ready s e (inr (from_chunk, to_chunk, c, accepted)) =
      let d' = min (a + d - a + c.t) (b + 1 - a) in
      let within = ready.within in
      let ahead = c.not_behind in
      let bound = c.inside_file in
      let counter : s.tracker.downloaded_bytes ≡ pos (m + c.t) =
        ap (λ (x : Tracker). x.downloaded_bytes) c.at.tracker_eq in
      (
        d',
        omega arith,
        record {
          spans = moved-Spans a b j.chunk s.chunk _ c.at.chunk_eq ready.spans;
          downloaded_eq = ap (λ (x : Chunk). x.downloaded) c.at.chunk_eq;
          within = omega arith;
          counter_eq =
              ap (λ n. (roll_back s.tracker n).downloaded_bytes) c.at.attempt_eq
              ∙ roll_back-pos s.tracker m c.t counter (omega arith);
          kept = keep (a + d) c.p d' s.dest (omega arith) c.at.holds;
        },
      )

  settle-RoundEnded :
      (env : ℕ → Round) (k d : ℕ) (j : Job W) (ready : Ready d j) (o : Option Error × Copy W)
      → Attempted d j ready ((env k).reply (pos (a + d)) (pos b)) o
      → RoundEnded env d (settle put factory j o)
  settle-RoundEnded env k d j ready (none, s) (inl (e, same)) =
      absurd (none-ne-some (ap (λ (x : Option Error × Copy W). x.0) same))
  settle-RoundEnded env k d j ready (none, s) (inr (from_chunk, to_chunk, c, accepted)) =
      (d, omega arith, inl (refl, success-Ended env k d j ready s from_chunk to_chunk c accepted))
  settle-RoundEnded env k d j ready (some e, s) attempted =
      let (d', le, ready') =
        failure-Ready ((env k).reply (pos (a + d)) (pos b)) d j ready s e attempted in
      elim (Bool-cases (fails_fast e)) [
        | inl f ↦ rw (f, settle) (d', le, inr (e, refl, ready'))
        | inr f ↦ rw (f, settle) (d', le, ready')
      ]

  pub start_round-Ready :
      (opts : WorkerOptions) (attempt d : ℕ) (j : Job W)
      → Ready d j
      → Ready d (start_round opts attempt j)
  unfolding start_round
  start_round-Ready opts zero d j ready = ready
  start_round-Ready opts (suc attempt) d j ready = record {
    spans = record {
      start_eq = ready.spans.start_eq;
      end_eq = ready.spans.end_eq;
      ordered = ready.spans.ordered;
      fits = ready.spans.fits;
    };
    downloaded_eq = ready.downloaded_eq;
    within = ready.within;
    counter_eq = ready.counter_eq;
    kept = ready.kept;
  }

  one_round-RoundEnded :
      (opts : WorkerOptions) (env : ℕ → Round) (attempt d : ℕ) (j : Job W)
      → ((r : ℕ) → HonestReply content total ((env attempt).reply (pos r) (pos b)))
      → Ready d j
      → RoundEnded env d (one_round put factory opts attempt (env attempt) j)
  unfolding one_round
  one_round-RoundEnded opts env attempt d j honest ready =
      let ready' = start_round-Ready opts attempt d j ready in
      if_case (RoundEnded env d) (env attempt).done_before (d, omega arith, inr (_, refl, ready))
        (if_case (RoundEnded env d) (done_in_wait attempt (env attempt))
          (d, omega arith, inr (_, refl, ready'))
          (if_case (RoundEnded env d) (not (env attempt).makes_writer)
            (d, omega arith, inr (_, refl, ready'))
            (settle-RoundEnded env attempt d (start_round opts attempt j) ready' _
              (run_attempt-Attempted opts (env attempt) d _ ready' honest))))

  next-Ready :
      (env : ℕ → Round) (d : ℕ) (o : RoundEnd W) (e : Error) (j : Job W)
      → o ≡ again e j
      → RoundEnded env d o
      → (d' : ℕ) × (d ≤ d') × Ready d' j
  next-Ready env d o e j same ended = rw same at ended

  -- Enough to resume from: whatever rounds are met, the loop ends in success with the chunk
  -- complete, or in an error with no byte of the chunk lost.
  pub download_from-Ended :
      (opts : WorkerOptions) (env : ℕ → Round) (left attempt d : ℕ) (last_error : Option Error)
      (j : Job W)
      → ((k r : ℕ) → HonestReply content total ((env k).reply (pos r) (pos b)))
      → Ready d j
      → let (failure, j') = download_from put factory opts env left attempt last_error j in
        Ended env d failure j'
  unfolding download_from
  download_from-Ended opts env zero attempt d last_error j honest ready =
      (d, omega arith, inr (_, refl, ready))
  download_from-Ended opts env (suc left) attempt d last_error j honest ready =
      elim (RoundEnd-cases (one_round put factory opts attempt (env attempt) j)) [
        | inl (failure, j', e) ↦
            rw (e, download_from)
              (rw e at (one_round-RoundEnded opts env attempt d j (honest attempt) ready))
        | inr (x, j', e) ↦
            let (d', le, ready') =
              next-Ready env d _ _ _ e
                (one_round-RoundEnded opts env attempt d j (honest attempt) ready) in
            let (d'', le', end) =
              download_from-Ended opts env left (suc attempt) d' (some x) j' honest ready' in
            rw (e, download_from) (d'', omega arith, end)
      ]
