-- ===== src/Stream/Liveness.antt =====
-- What keeps the stream alive: no chunk is lost, and no worker leaves too early.
use native.Mathlib.Decide.{dec_lt}
use files_downloader_golang.Common.{
  ℕ, zero, suc, ◌+◌, ◌-◌, ◌^◌, ◌≤◌, ◌<◌, ◌≡◌, ◌≢◌, refl, sym, ap, ◌∙◌, Bool, true, false, Option,
  none, some, List, [], ◌∷◌, length, ◌==◌, ltb, leb, if◌then◌else◌, if_case, if_split, Bool-cases,
  arith, ◌⊎◌, inl, inr, ◌||◌,
}
use files_downloader_golang.Common.Int.{pos, leb_ℤ}
use files_downloader_golang.Common.Word.{add64}
use files_downloader_golang.Common.Text.{Bytes}
use files_downloader_golang.Worker.{Error}
use files_downloader_golang.Stream.{
  ChunkResult, Stream, Phase, idle, holding, fetching, failing, finished, Event, worker, read_call,
  woken, close_call, context_end, wakes, step, Reaches, Slots, slot_in, free_slot, put_slot,
  start_stream, ReadEnd, read, resume, start_read, go_on_read, read_loop, advance, close,
  read_result, set_phase, step_phase, take_job, enter_window, deliver, read_slot, range_from,
  read_fuel, after_fetch,
}
use files_downloader_golang.Stream.Reach.{Leaves, awake-Leaves, Reaches-Leaves}
use files_downloader_golang.Stream.Order.{true-ne-false, slot_in-free_slot}
use files_downloader_golang.Stream.Bounds.{Placed, Reaches-Placed}
use files_downloader_golang.Stream.Window.{head_of_range, held}

pub length-range_from : (i n : ℕ) → length (range_from i n) ≡ n
length-range_from i zero = refl
length-range_from i (suc n) = ap suc (length-range_from (suc i) n)

free_slot-none : (slots : Slots) (i : ℕ) → free_slot slots i ≡ none → slots ≡ none
free_slot-none none i e = refl
free_slot-none (some slots) i e = absurd cc

module _ (count m : ℕ) (result : ℕ → ChunkResult) (fits : count + m < 2 ^ 63) (workers : ℕ) where
  -- Where a chunk is that has left the channel.
  abbrev pub Somewhere : (ℕ → Phase) → Slots → ℕ → Type 0
  Somewhere phase slots i =
      ((r : ChunkResult) × (slot_in slots i ≡ some r)) ⊎ ((w : ℕ) × (held (phase w) ≡ some i))

  -- While the context lasts, no chunk is lost and no worker leaves before the channel is empty.
  pub record LiveIn (jobs : List ℕ) (phase : ℕ → Phase) (slots : Slots) (current : ℕ)
      (closed cancelled : Bool) : Type 0 where
    pub stopped : closed ≡ true → cancelled ≡ true
    pub unclosed : slots ≡ none → cancelled ≡ true
    pub stays : (w : ℕ) → cancelled ≡ false → w < workers → phase w ≡ finished → jobs ≡ []
    pub found :
        (i : ℕ)
        → cancelled ≡ false
        → current ≤ i
        → i + length jobs < count
        → Somewhere phase slots i

  abbrev pub Live : Stream → Type 0
  Live s = LiveIn s.jobs s.phase s.slots s.current_index s.closed s.cancelled

  -- A stream whose context is done.
  over : (s : Stream) → s.cancelled ≡ true → Live s
  over s e = record {
    stopped = λ h. e;
    unclosed = λ h. e;
    stays = λ w h. absurd (true-ne-false (sym e ∙ h));
    found = λ i h. absurd (true-ne-false (sym e ∙ h));
  }

  -- Another worker keeps its chunk.
  other :
      (w : ℕ) (p : Phase) (s : Stream) (i : ℕ)
      → held (s.phase w) ≢ some i
      → Somewhere s.phase s.slots i
      → Somewhere (set_phase w p s).phase s.slots i
  other w p s i ne (inl there) = inl there
  other w p s i ne (inr (v, e)) = inr (v, ground arith)

  take_job-Live :
      (w : ℕ) (jobs : List ℕ) (s : Stream)
      → s.jobs ≡ jobs
      → s.phase w ≡ idle
      → Placed count m result fits s
      → Live s
      → Live (take_job count (pos m) result w jobs s)
  unfolding take_job
  take_job-Live w [] s e e' (next, o) l = record {
    stopped = l.stopped;
    unclosed = l.unclosed;
    stays = λ v h lt h'. e;
    found = λ i h le lt. other w finished s i (ground arith) (l.found i h le lt);
  }
  take_job-Live w (k ∷ jobs) s e e' (next, o) l =
      let (more, k_eq, jobs_eq) = head_of_range k jobs next count (sym e ∙ o.jobs_eq) in
      let size = ap length jobs_eq ∙ length-range_from (suc next) (count - suc next) in
      let before = ap length e in
      record {
        stopped = l.stopped;
        unclosed = l.unclosed;
        stays = λ v h lt h'. let stays = l.stays v h lt in ground arith;
        found = λ i h le lt. elim (dec_lt i next) [
          | yes old ↦ other w (holding k) s i (ground arith) (l.found i h le (omega arith))
          | no new ↦ inr (w, ground arith)
        ];
      }

  after_fetch-stays : (err : Option Error) → after_fetch count (pos m) result err ≢ finished
  after_fetch-stays none = λ h. cc
  after_fetch-stays (some x) = λ h. cc

  put_slot-found :
      (w i : ℕ) (s : Stream) (slots : ℕ → Option ChunkResult) (p : Phase) (k : ℕ)
      → s.phase w ≡ fetching i
      → Somewhere s.phase (some slots) k
      → Somewhere
          (set_phase w p s).phase
          (some (λ k. if k == i then some (result i) else slots k))
          k
  put_slot-found w i s slots p k e (inl (r, h)) = elim (Bool-cases (k == i)) [
    | inl same ↦ inl (result i, ground arith)
    | inr new ↦ inl (r, ground arith)
  ]
  put_slot-found w i s slots p k e (inr (v, h)) = elim (Bool-cases (k == i)) [
    | inl same ↦ inl (result i, ground arith)
    | inr new ↦ inr (v, let has = ap held e in ground arith)
  ]

  put_slot-Live :
      (w i : ℕ) (s : Stream) (slots : Slots)
      → s.phase w ≡ fetching i
      → LiveIn s.jobs s.phase slots s.current_index s.closed s.cancelled
      → Leaves Live (put_slot count (pos m) result w i s slots)
  put_slot-Live w i s none e l = tt
  put_slot-Live w i s (some slots) e l = record {
    stopped = l.stopped;
    unclosed = λ h. absurd cc;
    stays =
        λ v h lt h'. let stays = l.stays v h lt in ground (arith, after_fetch-stays (result i).err);
    found = λ k h le lt.
        put_slot-found w i s slots (after_fetch count (pos m) result (result i).err) k e
          (l.found k h le lt);
  }

  enter_window-Live :
      (w i : ℕ) (s : Stream)
      → s.phase w ≡ holding i
      → Live s
      → Leaves Live (enter_window count (pos m) result w i s)
  unfolding enter_window
  enter_window-Live w i s e l =
      if_split (Leaves Live) (s.closed || s.cancelled)
        (λ done. let stopped = l.stopped in over (set_phase w finished s) (ground arith))
        (λ open_still.
          if_case (Leaves Live) (leb_ℤ (add64 (pos s.current_index) (pos m)) (pos i)) l (record {
            stopped = l.stopped;
            unclosed = l.unclosed;
            stays = λ v h lt h'. let stays = l.stays v h lt in ground arith;
            found = λ k h le lt. elim (l.found k h le lt) [
              | inl there ↦ inl there
              | inr (v, h') ↦ inr (v, let has = ap held e in ground arith)
            ];
          }))

  step_phase-Live :
      (w : ℕ) (p : Phase) (s : Stream)
      → s.phase w ≡ p
      → Placed count m result fits s
      → Live s
      → Leaves Live (step_phase count (pos m) result w p s)
  unfolding step_phase deliver
  step_phase-Live w idle s e o l = take_job-Live w s.jobs s refl e o l
  step_phase-Live w (holding i) s e o l = enter_window-Live w i s e l
  step_phase-Live w (fetching i) s e o l = put_slot-Live w i s s.slots e l
  step_phase-Live w failing s e o l =
      over (set_phase w finished (record s { cancelled = true })) refl
  step_phase-Live w finished s e o l = tt

  advance-Live : (bytes : Bytes) (s : Stream) → Live s → Live (advance count (pos m) result bytes s)
  advance-Live bytes s l = record {
    stopped = l.stopped;
    unclosed = λ h. l.unclosed (free_slot-none s.slots s.current_index h);
    stays = l.stays;
    found = λ k h le lt. elim (l.found k h (omega arith) lt) [
      | inl (r, there) ↦ inl (r, ground (arith, slot_in-free_slot s.slots s.current_index k))
      | inr there ↦ inr there
    ];
  }

  abbrev After : ReadEnd × Stream → Type 0
  After x = Live x.1

  read_result-Live :
      (s : Stream) (err : Option Error) (behind : ReadEnd × Stream)
      → Live s
      → After behind
      → After (read_result count (pos m) result s behind err)
  read_result-Live s none behind l k = k
  read_result-Live s (some e) behind l k = l

  read_slot-Live :
      (room : ℕ) (s : Stream) (go_on : Bytes → ReadEnd × Stream) (found : Option ChunkResult)
      → Live s
      → ((bytes : Bytes) → After (go_on bytes))
      → After (read_slot count (pos m) result room s go_on found)
  read_slot-Live room s go_on none l k = l
  read_slot-Live room s go_on (some r) l k =
      read_result-Live s r.err (go_on r.content) l (k r.content)

  read_loop-Live :
      (fuel room : ℕ) (s : Stream) → Live s → After (read_loop count (pos m) result fuel room s)
  unfolding read_loop
  read_loop-Live zero room s l = l
  read_loop-Live (suc fuel) room s l = if_case After s.cancelled l (
      if_case After (ltb 0 (length s.current_buf)) l (
        if_case After (leb count s.current_index) l (
          read_slot-Live room s
            (λ bytes.
              read_loop count (pos m) result fuel room (advance count (pos m) result bytes s))
            (slot_in s.slots s.current_index) l
            (λ bytes. read_loop-Live fuel room _ (advance-Live bytes s l)))))

  start_read-Live :
      (room : ℕ) (s : Stream) (waiting : Option ℕ)
      → Live s
      → Leaves Live (start_read count (pos m) result room s waiting)
  unfolding read
  start_read-Live room s none l =
      if_case After s.closed l (read_loop-Live (read_fuel count (pos m) result s) room s l)
  start_read-Live room s (some waiting) l = tt

  go_on_read-Live :
      (s : Stream) (waiting : Option ℕ)
      → Live s
      → Leaves Live (go_on_read count (pos m) result s waiting)
  unfolding resume
  go_on_read-Live s none l = tt
  go_on_read-Live s (some room) l =
      awake-Leaves Live s.reader_asleep _
        (read_loop-Live (read_fuel count (pos m) result s) room (record s { waiting = none }) l)

  close-Live : (s : Stream) → Live s → Live (close count (pos m) result s)
  unfolding close
  close-Live s l =
      if_case Live s.closed l
        (over (record s { closed = true; cancelled = true; slots = none; current_buf = [] }) refl)

  step-Live :
      (e : Event) (s : Stream)
      → Placed count m result fits s
      → Live s
      → Leaves Live (step count (pos m) result e s)
  unfolding step
  step-Live (worker w) s o l =
      awake-Leaves Live (s.asleep w) _ (step_phase-Live w (s.phase w) s refl o l)
  step-Live (read_call room) s o l = start_read-Live room s s.waiting l
  step-Live woken s o l = go_on_read-Live s s.waiting l
  step-Live close_call s o l = close-Live s l
  step-Live context_end s o l = over (record s { cancelled = true }) refl
  step-Live wakes s o l = l

  start_stream-Live : Live (start_stream workers count)
  unfolding start_stream
  start_stream-Live = record {
    stopped = λ h. absurd (true-ne-false (sym h));
    unclosed = λ h. absurd cc;
    stays = λ w h lt h'. ground arith;
    found = λ i h le lt. let size = length-range_from 0 count in absurd (omega arith);
  }

  pub Reaches-Live :
      (s : Stream) → Reaches count (pos m) result (start_stream workers count) s → Live s
  Reaches-Live s run =
      Reaches-Leaves count (pos m) result Live _
        (λ e t r. step-Live e t (Reaches-Placed count m result fits workers t r)) s
        start_stream-Live run
