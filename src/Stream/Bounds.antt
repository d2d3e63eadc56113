-- ===== src/Stream/Bounds.antt =====
-- How far ahead of the reader the workers get: the prefetch window.
use files_downloader_golang.Common.{
  ℕ, zero, suc, ◌+◌, ◌-◌, ◌^◌, ◌≤◌, ◌<◌, ◌≡◌, refl, ap, Option, none, some, length, ltb, leb,
  if_case, if_split, Option-cases, arith, ◌⊎◌, inl, inr, ◌||◌,
}
use files_downloader_golang.Common.Int.{pos, leb_ℤ}
use files_downloader_golang.Common.Word.{add64, add64-pos}
use files_downloader_golang.Common.Text.{Bytes}
use files_downloader_golang.Worker.{Error}
use files_downloader_golang.Stream.{
  ChunkResult, Stream, Phase, idle, holding, fetching, failing, finished, Event, worker, read_call,
  woken, close_call, context_end, wakes, step, Reaches, slot_in, start_stream, ReadEnd, read,
  resume, start_read, go_on_read, read_loop, advance, close, read_result, step_phase, enter_window,
  deliver, read_slot, range_from, read_fuel,
}
use files_downloader_golang.Stream.Reach.{Leaves, awake-Leaves, Reaches-Leaves}
use files_downloader_golang.Stream.Order.{none-ne-some}
use files_downloader_golang.Stream.Window.{
  fetched, fetched-held, PlacedIn, let_go, take_job-Placed, fetch-Placed, put_slot-Placed,
  advance-Placed,
}

module _ (count m : ℕ) (result : ℕ → ChunkResult) (fits : count + m < 2 ^ 63) where
  abbrev pub Placed : Stream → Type 0
  Placed s = (next : ℕ) × PlacedIn count m result fits s.jobs s.phase s.slots s.current_index next

  pub window_end :
      (s : Stream) → Placed s → add64 (pos s.current_index) (pos m) ≡ pos (s.current_index + m)
  window_end s (next, o) =
      let le = o.current_le in let le' = o.next_le in add64-pos s.current_index m (omega arith)

  enter_window-Placed :
      (w i : ℕ) (s : Stream)
      → s.phase w ≡ holding i
      → Placed s
      → Leaves Placed (enter_window count (pos m) result w i s)
  unfolding enter_window
  enter_window-Placed w i s e p =
      let sum = window_end s p in
      if_case (Leaves Placed) (s.closed || s.cancelled)
        (let_go count m result fits w finished s refl refl p)
        (if_split (Leaves Placed) (leb_ℤ (add64 (pos s.current_index) (pos m)) (pos i)) (λ far. p)
          (λ near. fetch-Placed count m result fits w i s e (ground arith) p))

  step_phase-Placed :
      (w : ℕ) (p : Phase) (s : Stream)
      → s.phase w ≡ p
      → Placed s
      → Leaves Placed (step_phase count (pos m) result w p s)
  unfolding step_phase deliver
  step_phase-Placed w idle s e o = take_job-Placed count m result fits w s.jobs s refl e o
  step_phase-Placed w (holding i) s e o = enter_window-Placed w i s e o
  step_phase-Placed w (fetching i) s e o = put_slot-Placed count m result fits w i s s.slots e o
  step_phase-Placed w failing s e o = let_go count m result fits w finished s refl refl o
  step_phase-Placed w finished s e o = tt

  abbrev After : ReadEnd × Stream → Type 0
  After x = Placed x.1

  read_result-Placed :
      (s : Stream) (err : Option Error) (behind : ReadEnd × Stream)
      → Placed s
      → After behind
      → After (read_result count (pos m) result s behind err)
  read_result-Placed s none behind o k = k
  read_result-Placed s (some e) behind o k = o

  read_slot-Placed :
      (room : ℕ) (s : Stream) (go_on : Bytes → ReadEnd × Stream) (found : Option ChunkResult)
      → slot_in s.slots s.current_index ≡ found
      → Placed s
      → ((bytes : Bytes) → Placed (advance count (pos m) result bytes s) → After (go_on bytes))
      → After (read_slot count (pos m) result room s go_on found)
  read_slot-Placed room s go_on none e o k = o
  read_slot-Placed room s go_on (some r) e o k =
      read_result-Placed s r.err (go_on r.content) o
        (k r.content (advance-Placed count m result fits s r e o))

  read_loop-Placed :
      (fuel room : ℕ) (s : Stream) → Placed s → After (read_loop count (pos m) result fuel room s)
  unfolding read_loop
  read_loop-Placed zero room s o = o
  read_loop-Placed (suc fuel) room s o = if_case After s.cancelled o (
      if_case After (ltb 0 (length s.current_buf)) o (
        if_case After (leb count s.current_index) o (
          read_slot-Placed room s
            (λ bytes.
              read_loop count (pos m) result fuel room (advance count (pos m) result bytes s))
            (slot_in s.slots s.current_index) refl o
            (λ bytes o'. read_loop-Placed fuel room _ o'))))

  start_read-Placed :
      (room : ℕ) (s : Stream) (waiting : Option ℕ)
      → Placed s
      → Leaves Placed (start_read count (pos m) result room s waiting)
  unfolding read
  start_read-Placed room s none o =
      if_case After s.closed o (read_loop-Placed (read_fuel count (pos m) result s) room s o)
  start_read-Placed room s (some waiting) o = tt

  go_on_read-Placed :
      (s : Stream) (waiting : Option ℕ)
      → Placed s
      → Leaves Placed (go_on_read count (pos m) result s waiting)
  unfolding resume
  go_on_read-Placed s none o = tt
  go_on_read-Placed s (some room) o =
      awake-Leaves Placed s.reader_asleep _
        (read_loop-Placed (read_fuel count (pos m) result s) room (record s { waiting = none }) o)

  close-Placed : (s : Stream) → Placed s → Placed (close count (pos m) result s)
  unfolding close
  close-Placed s (next, o) =
      if_case Placed s.closed (next, o)
        (
          next,
          record {
            jobs_eq = o.jobs_eq;
            next_le = o.next_le;
            current_le = o.current_le;
            held_range = o.held_range;
            held_once = o.held_once;
            fetched_range = o.fetched_range;
            slot_range = λ k r h. absurd (none-ne-some h);
            slot_free = λ v k r h. absurd (none-ne-some h);
          },
        )

  step-Placed : (e : Event) (s : Stream) → Placed s → Leaves Placed (step count (pos m) result e s)
  unfolding step
  step-Placed (worker w) s o =
      awake-Leaves Placed (s.asleep w) _ (step_phase-Placed w (s.phase w) s refl o)
  step-Placed (read_call room) s o = start_read-Placed room s s.waiting o
  step-Placed woken s o = go_on_read-Placed s s.waiting o
  step-Placed close_call s o = close-Placed s o
  step-Placed context_end s o = o
  step-Placed wakes s o = o

  start_stream-Placed : (workers : ℕ) → Placed (start_stream workers count)
  unfolding start_stream
  start_stream-Placed workers = (
    0,
    record {
      jobs_eq = let all : count ≡ count - 0 = omega arith in ap (range_from 0) all;
      next_le = omega arith;
      current_le = omega arith;
      held_range = λ w i h. ground arith;
      held_once = λ v w i h. ground arith;
      fetched_range = λ w i h. ground arith;
      slot_range = λ k r h. absurd (none-ne-some h);
      slot_free = λ v k r h. absurd (none-ne-some h);
    },
  )

  pub Reaches-Placed :
      (workers : ℕ) (s : Stream)
      → Reaches count (pos m) result (start_stream workers count) s
      → Placed s
  Reaches-Placed workers s run =
      Reaches-Leaves count (pos m) result Placed _ (λ e t r. step-Placed e t) s
        (start_stream-Placed workers) run

  -- In every state that the steps lead to, from any number of workers: a chunk whose download is
  -- running, or whose data wait in a slot, is no chunk that the reader has passed and lies fewer
  -- than `m` chunks ahead of it, for a window of `m`. (`count + m` must fit an int64.)
  pub prefetch_bounded :
      (workers i : ℕ) (s : Stream)
      → Reaches count (pos m) result (start_stream workers count) s
      → ((w : ℕ) × (fetched (s.phase w) ≡ some i))
        ⊎ ((r : ChunkResult) × (slot_in s.slots i ≡ some r))
      → (s.current_index ≤ i) × (i < s.current_index + m)
  prefetch_bounded workers i s run there =
      let (next, o) = Reaches-Placed workers s run in
      elim there [
        | inl (w, e) ↦ ((o.held_range w i (fetched-held (s.phase w) i e)).0, o.fetched_range w i e)
        | inr (r, e) ↦ let range = o.slot_range i r e in (range.0, range.1)
      ]

  -- In every state that the steps lead to (`count + m` fits an int64), no two workers download the
  -- same chunk, and none downloads a chunk whose result is in a slot.
  pub fetched_once :
      (workers v w i : ℕ) (s : Stream)
      → Reaches count (pos m) result (start_stream workers count) s
      → fetched (s.phase v) ≡ some i
      → fetched (s.phase w) ≡ some i
      → (v ≡ w) × (slot_in s.slots i ≡ none)
  fetched_once workers v w i s run e e' =
      let (next, o) = Reaches-Placed workers s run in
      let mine = fetched-held (s.phase v) i e in
      (
        o.held_once v w i mine (fetched-held (s.phase w) i e'),
        elim (Option-cases (slot_in s.slots i)) [
          | inl free ↦ free
          | inr (r, full) ↦ absurd (o.slot_free v i r full mine)
        ],
      )
