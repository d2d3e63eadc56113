-- ===== src/Stream/Waking.antt =====
-- Who sleeps in `readyCond.Wait`, and why no wake-up is missed.
use files_downloader_golang.Common.{
  ℕ, zero, suc, ◌+◌, ◌^◌, ◌≤◌, ◌<◌, ◌≡◌, refl, sym, ap, ◌∙◌, Bool, true, false, Option, none, some,
  List, [], ◌∷◌, length, ◌==◌, ltb, leb, if_case, if_split, Bool-cases, arith, inl, inr, ◌||◌,
}
use files_downloader_golang.Common.Int.{pos, leb_ℤ}
use files_downloader_golang.Common.Word.{add64}
use files_downloader_golang.Common.Text.{Bytes}
use files_downloader_golang.Worker.{Error}
use files_downloader_golang.Stream.{
  ChunkResult, Stream, Phase, idle, holding, fetching, failing, finished, Event, worker, read_call,
  woken, close_call, context_end, wakes, step, Reaches, Slots, slot_in, put_slot, start_stream,
  ReadEnd, read, resume, start_read, go_on_read, read_loop, advance, close, read_result, set_phase,
  step_phase, take_job, enter_window, deliver, read_slot, read_fuel, broadcast,
}
use files_downloader_golang.Stream.Reach.{Leaves, awake-Leaves, Reaches-Leaves}
use files_downloader_golang.Stream.Order.{true-ne-false}
use files_downloader_golang.Stream.Bounds.{Placed, window_end, Reaches-Placed}

module _ (count m : ℕ) (result : ℕ → ChunkResult) (fits : count + m < 2 ^ 63) (workers : ℕ) where
  -- While the context lasts, a worker that is asleep has a chunk outside the window, and the reader
  -- is asleep only while its next chunk has not come.
  pub record SleepsIn (phase : ℕ → Phase) (slots : Slots) (current : ℕ) (asleep : ℕ → Bool)
      (reader_asleep cancelled : Bool) : Type 0 where
    pub far :
        (w : ℕ)
        → cancelled ≡ false
        → asleep w ≡ true
        → (i : ℕ) × (phase w ≡ holding i) × (current + m ≤ i)
    pub empty : cancelled ≡ false → reader_asleep ≡ true → slot_in slots current ≡ none

  abbrev pub Sleeps : Stream → Type 0
  Sleeps s = SleepsIn s.phase s.slots s.current_index s.asleep s.reader_asleep s.cancelled

  over : (s : Stream) → s.cancelled ≡ true → Sleeps s
  over s e = record {
    far = λ w lasts. absurd (true-ne-false (sym e ∙ lasts));
    empty = λ lasts. absurd (true-ne-false (sym e ∙ lasts));
  }

  broadcast-Sleeps : (s : Stream) → Sleeps (broadcast s)
  broadcast-Sleeps s = record {
    far = λ w lasts h. absurd (true-ne-false (sym h));
    empty = λ lasts h. absurd (true-ne-false (sym h));
  }

  -- A worker that is awake changes its phase.
  set_phase-Sleeps :
      (w : ℕ) (p : Phase) (s : Stream) → s.asleep w ≡ false → Sleeps s → Sleeps (set_phase w p s)
  set_phase-Sleeps w p s awake o = record {
    far = λ v lasts h.
        let (i, e, le) = o.far v lasts h in
        elim (Bool-cases (v == w)) [
          | inl same ↦
              let v_is_w : v ≡ w = ground arith in
              absurd (true-ne-false (sym h ∙ ap s.asleep v_is_w ∙ awake))
          | inr different ↦ (i, ground arith, le)
        ];
    empty = o.empty;
  }

  enter_window-Sleeps :
      (w i : ℕ) (s : Stream)
      → s.phase w ≡ holding i
      → s.asleep w ≡ false
      → Placed count m result fits s
      → Sleeps s
      → Leaves Sleeps (enter_window count (pos m) result w i s)
  unfolding enter_window
  enter_window-Sleeps w i s e awake p o =
      let sum = window_end count m result fits s p in
      if_case (Leaves Sleeps) (s.closed || s.cancelled) (set_phase-Sleeps w finished s awake o) (
        if_split (Leaves Sleeps) (leb_ℤ (add64 (pos s.current_index) (pos m)) (pos i))
          (λ outside. record {
            far = λ v lasts h. elim (Bool-cases (v == w)) [
              | inl same ↦
                  let v_is_w : v ≡ w = ground arith in (i, ap s.phase v_is_w ∙ e, ground arith)
              | inr different ↦ o.far v lasts (ground arith)
            ];
            empty = o.empty;
          })
          (λ near. set_phase-Sleeps w (fetching i) s awake o))

  put_slot-Sleeps :
      (w i : ℕ) (s : Stream) (slots : Slots)
      → Leaves Sleeps (put_slot count (pos m) result w i s slots)
  put_slot-Sleeps w i s none = tt
  put_slot-Sleeps w i s (some slots) = record {
    far = λ v lasts h. absurd (true-ne-false (sym h));
    empty = λ lasts h. absurd (true-ne-false (sym h));
  }

  take_job-Sleeps :
      (w : ℕ) (jobs : List ℕ) (s : Stream)
      → s.asleep w ≡ false
      → Sleeps s
      → Sleeps (take_job count (pos m) result w jobs s)
  unfolding take_job
  take_job-Sleeps w [] s awake o = set_phase-Sleeps w finished s awake o
  take_job-Sleeps w (i ∷ jobs) s awake o = set_phase-Sleeps w (holding i) s awake o

  step_phase-Sleeps :
      (w : ℕ) (p : Phase) (s : Stream)
      → s.phase w ≡ p
      → s.asleep w ≡ false
      → Placed count m result fits s
      → Sleeps s
      → Leaves Sleeps (step_phase count (pos m) result w p s)
  unfolding step_phase deliver
  step_phase-Sleeps w idle s e awake p o = take_job-Sleeps w s.jobs s awake o
  step_phase-Sleeps w (holding i) s e awake p o = enter_window-Sleeps w i s e awake p o
  step_phase-Sleeps w (fetching i) s e awake p o = put_slot-Sleeps w i s s.slots
  step_phase-Sleeps w failing s e awake p o =
      over (set_phase w finished (record s { cancelled = true })) refl
  step_phase-Sleeps w finished s e awake p o = tt

  abbrev After : ReadEnd × Stream → Type 0
  After x = Sleeps x.1

  read_result-Sleeps :
      (s : Stream) (err : Option Error) (behind : ReadEnd × Stream)
      → Sleeps s
      → After behind
      → After (read_result count (pos m) result s behind err)
  read_result-Sleeps s none behind o k = k
  read_result-Sleeps s (some e) behind o k = o

  read_slot-Sleeps :
      (room : ℕ) (s : Stream) (go_on : Bytes → ReadEnd × Stream) (found : Option ChunkResult)
      → slot_in s.slots s.current_index ≡ found
      → Sleeps s
      → ((bytes : Bytes) → After (go_on bytes))
      → After (read_slot count (pos m) result room s go_on found)
  read_slot-Sleeps room s go_on none e o k = record { far = o.far; empty = λ lasts h. e }
  read_slot-Sleeps room s go_on (some r) e o k =
      read_result-Sleeps s r.err (go_on r.content) o (k r.content)

  advance-Sleeps : (bytes : Bytes) (s : Stream) → Sleeps (advance count (pos m) result bytes s)
  advance-Sleeps bytes s = record {
    far = λ w lasts h. absurd (true-ne-false (sym h));
    empty = λ lasts h. absurd (true-ne-false (sym h));
  }

  read_loop-Sleeps :
      (fuel room : ℕ) (s : Stream) → Sleeps s → After (read_loop count (pos m) result fuel room s)
  unfolding read_loop
  read_loop-Sleeps zero room s o = o
  read_loop-Sleeps (suc fuel) room s o = if_case After s.cancelled o (
      if_case After (ltb 0 (length s.current_buf)) o (
        if_case After (leb count s.current_index) o (
          read_slot-Sleeps room s
            (λ bytes.
              read_loop count (pos m) result fuel room (advance count (pos m) result bytes s))
            (slot_in s.slots s.current_index) refl o
            (λ bytes. read_loop-Sleeps fuel room _ (advance-Sleeps bytes s)))))

  start_read-Sleeps :
      (room : ℕ) (s : Stream) (waiting : Option ℕ)
      → Sleeps s
      → Leaves Sleeps (start_read count (pos m) result room s waiting)
  unfolding read
  start_read-Sleeps room s none o =
      if_case After s.closed o (read_loop-Sleeps (read_fuel count (pos m) result s) room s o)
  start_read-Sleeps room s (some waiting) o = tt

  go_on_read-Sleeps :
      (s : Stream) (waiting : Option ℕ)
      → Sleeps s
      → Leaves Sleeps (go_on_read count (pos m) result s waiting)
  unfolding resume
  go_on_read-Sleeps s none o = tt
  go_on_read-Sleeps s (some room) o =
      awake-Leaves Sleeps s.reader_asleep _
        (read_loop-Sleeps (read_fuel count (pos m) result s) room (record s { waiting = none }) o)

  close-Sleeps : (s : Stream) → Sleeps s → Sleeps (close count (pos m) result s)
  unfolding close
  close-Sleeps s o = if_case Sleeps s.closed o (
      over
        (broadcast (record s { closed = true; cancelled = true; slots = none; current_buf = [] }))
        refl)

  step_worker-Sleeps :
      (w : ℕ) (s : Stream)
      → Placed count m result fits s
      → Sleeps s
      → Leaves Sleeps (step count (pos m) result (worker w) s)
  unfolding step
  step_worker-Sleeps w s p o =
      if_split (Leaves Sleeps) (s.asleep w) (λ asleep. tt)
        (λ awake. step_phase-Sleeps w (s.phase w) s refl awake p o)

  step-Sleeps :
      (e : Event) (s : Stream)
      → Placed count m result fits s
      → Sleeps s
      → Leaves Sleeps (step count (pos m) result e s)
  unfolding step
  step-Sleeps (worker w) s p o = step_worker-Sleeps w s p o
  step-Sleeps (read_call room) s p o = start_read-Sleeps room s s.waiting o
  step-Sleeps woken s p o = go_on_read-Sleeps s s.waiting o
  step-Sleeps close_call s p o = close-Sleeps s o
  step-Sleeps context_end s p o = over (record s { cancelled = true }) refl
  step-Sleeps wakes s p o = broadcast-Sleeps s

  start_stream-Sleeps : Sleeps (start_stream workers count)
  unfolding start_stream
  start_stream-Sleeps = record {
    far = λ w lasts h. absurd (true-ne-false (sym h));
    empty = λ lasts h. absurd (true-ne-false (sym h));
  }

  pub Reaches-Sleeps :
      (s : Stream) → Reaches count (pos m) result (start_stream workers count) s → Sleeps s
  Reaches-Sleeps s run =
      Reaches-Leaves count (pos m) result Sleeps _
        (λ e t r. step-Sleeps e t (Reaches-Placed count m result fits workers t r)) s
        start_stream-Sleeps run
