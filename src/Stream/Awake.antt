-- ===== src/Stream/Awake.antt =====
-- The stream does not stop for good while chunks are missing.
use native.Mathlib.Decide.{dec_lt}
use files_downloader_golang.Common.{
  ℕ, ◌+◌, ◌-◌, ◌^◌, ◌≤◌, ◌<◌, ◌≡◌, ◌≢◌, refl, sym, ap, ◌∙◌, Bool, false, Option, none, some, List,
  [], ◌∷◌, length, if◌then◌else◌, if_split, Option-cases, Bool-cases, arith, ◌⊎◌, inl, inr, ◌||◌,
}
use files_downloader_golang.Common.Int.{pos, leb_ℤ}
use files_downloader_golang.Common.Word.{add64}
use files_downloader_golang.Stream.{
  ChunkResult, Stream, Phase, idle, holding, fetching, failing, finished, running, worker, step,
  Reaches, Slots, slot_in, put_slot, start_stream, set_phase, step_phase, take_job, enter_window,
  deliver, blocked,
}
use files_downloader_golang.Stream.Order.{none-ne-some, true-ne-false}
use files_downloader_golang.Stream.Bounds.{Placed, window_end, Reaches-Placed}
use files_downloader_golang.Stream.Window.{held}
use files_downloader_golang.Stream.Liveness.{Live, Reaches-Live, length-range_from}
use files_downloader_golang.Stream.Waking.{Sleeps, Reaches-Sleeps}

held_same : {i k : ℕ} → ◌≡◌ {A = Option ℕ} (some i) (some k) → i ≡ k
held_same e = cc

module _ (count m : ℕ) (result : ℕ → ChunkResult) (fits : count + m < 2 ^ 63) (workers : ℕ) where
  -- Worker `w` is awake and can take a step behind which it is awake.
  abbrev pub CanStep : ℕ → Stream → Type 0
  CanStep w s =
      (u : Stream) × (step count (pos m) result (worker w) s ≡ running u)
      × (s.asleep w ≡ false)
      × (u.asleep w ≡ false)

  awake_step :
      (w : ℕ) (s : Stream)
      → s.asleep w ≡ false
      → step count (pos m) result (worker w) s ≡ step_phase count (pos m) result w (s.phase w) s
  unfolding step
  awake_step w s awake =
      ap (λ (b : Bool). if b then blocked else step_phase count (pos m) result w (s.phase w) s)
        awake

  enter_window-running :
      (w i : ℕ) (s : Stream)
      → s.closed ≡ false
      → s.cancelled ≡ false
      → add64 (pos s.current_index) (pos m) ≡ pos (s.current_index + m)
      → i < s.current_index + m
      → enter_window count (pos m) result w i s ≡ running (set_phase w (fetching i) s)
  unfolding enter_window
  enter_window-running w i s opened lasts sum near =
      if_split (λ x. x ≡ running (set_phase w (fetching i) s)) (s.closed || s.cancelled)
        (λ done. absurd (ground arith))
        (λ go.
          if_split (λ x. x ≡ running (set_phase w (fetching i) s))
            (leb_ℤ (add64 (pos s.current_index) (pos m)) (pos i)) (λ far. absurd (ground arith))
            (λ h. refl))

  put_slot-running :
      (w i : ℕ) (s : Stream) (slots : Slots)
      → slots ≢ none
      → (u : Stream) × (put_slot count (pos m) result w i s slots ≡ running u)
        × (u.asleep w ≡ false)
  put_slot-running w i s none ne = absurd (ne refl)
  put_slot-running w i s (some slots) ne = (_, refl, refl)

  take_job-asleep :
      (w : ℕ) (jobs : List ℕ) (s : Stream)
      → (take_job count (pos m) result w jobs s).asleep w ≡ s.asleep w
  unfolding take_job
  take_job-asleep w [] s = refl
  take_job-asleep w (i ∷ jobs) s = refl

  free-CanStep :
      (w : ℕ) (s : Stream) (p : Phase)
      → s.phase w ≡ p
      → held p ≡ none
      → p ≢ finished
      → s.asleep w ≡ false
      → CanStep w s
  unfolding step_phase
  free-CanStep w s idle e h ne awake = (
    _,
    awake_step w s awake ∙ ap (λ p. step_phase count (pos m) result w p s) e,
    awake,
    take_job-asleep w s.jobs s ∙ awake,
  )
  free-CanStep w s failing e h ne awake =
      (_, awake_step w s awake ∙ ap (λ p. step_phase count (pos m) result w p s) e, awake, awake)
  free-CanStep w s finished e h ne awake = absurd (ne refl)
  free-CanStep w s (holding i) e h ne awake = absurd cc
  free-CanStep w s (fetching i) e h ne awake = absurd cc

  holder-CanStep :
      (w i : ℕ) (s : Stream) (p : Phase)
      → 1 ≤ m
      → s.phase w ≡ p
      → held p ≡ some i
      → i ≡ s.current_index
      → s.cancelled ≡ false
      → s.asleep w ≡ false
      → Placed count m result fits s
      → Live count m result fits workers s
      → CanStep w s
  unfolding step_phase deliver
  holder-CanStep w i s (holding k) ahead e h at_reader lasts awake o l =
      let stopped = l.stopped in
      (
        set_phase w (fetching k) s,
        awake_step w s awake
            ∙ ap (λ p. step_phase count (pos m) result w p s) e
            ∙ enter_window-running w k s (ground arith) lasts (window_end count m result fits s o)
                (ground arith),
        awake,
        awake,
      )
  holder-CanStep w i s (fetching k) ahead e h at_reader lasts awake o l =
      let unclosed = l.unclosed in
      let (u, e', awake') =
        put_slot-running w k s s.slots (λ h'. true-ne-false (sym (unclosed h') ∙ lasts)) in
      (
        u,
        awake_step w s awake ∙ ap (λ p. step_phase count (pos m) result w p s) e ∙ e',
        awake,
        awake',
      )
  holder-CanStep w i s idle ahead e h at_reader lasts awake o l = absurd cc
  holder-CanStep w i s failing ahead e h at_reader lasts awake o l = absurd cc
  holder-CanStep w i s finished ahead e h at_reader lasts awake o l = absurd cc

  -- A worker without a chunk, or with the reader's next one, is awake.
  near_awake :
      (w : ℕ) (s : Stream)
      → 1 ≤ m
      → s.cancelled ≡ false
      → Sleeps count m result fits workers s
      → ((i : ℕ) → held (s.phase w) ≡ some i → i ≡ s.current_index)
      → s.asleep w ≡ false
  near_awake w s ahead lasts o near = elim (Bool-cases (s.asleep w)) [
    | inl asleep ↦
        let (i, e, le) = o.far w lasts asleep in
        let same = near i (ap held e) in absurd (omega arith)
    | inr awake ↦ awake
  ]

  some_worker-CanStep :
      (s : Stream)
      → 1 ≤ workers
      → 1 ≤ m
      → Reaches count (pos m) result (start_stream workers count) s
      → s.cancelled ≡ false
      → s.current_index < count
      → slot_in s.slots s.current_index ≡ none
      → (w : ℕ) × CanStep w s
  some_worker-CanStep s some_worker ahead run lasts more missing =
      let l = Reaches-Live count m result fits workers s run in
      let sleeps = Reaches-Sleeps count m result fits workers s run in
      let (next, o) = Reaches-Placed count m result fits workers s run in
      let size = ap length o.jobs_eq ∙ length-range_from next (count - next) in
      let next_le = o.next_le in
      elim (dec_lt s.current_index next) [
        | yes out ↦ elim (l.found s.current_index lasts (omega arith) (omega arith)) [
          | inl (r, e) ↦ absurd (none-ne-some (sym missing ∙ e))
          | inr (w, e) ↦
              let awake = near_awake w s ahead lasts sleeps (λ i h. held_same (sym h ∙ e)) in
              (
                w,
                holder-CanStep w s.current_index s (s.phase w) ahead refl e refl lasts awake
                    (next, o) l,
              )
        ]
        | no queued ↦
            let nothing : (i : ℕ) → held (s.phase 0) ≡ some i → ⊥ =
              λ i e. let range = o.held_range 0 i e in omega arith in
            (
              0,
              free-CanStep 0 s (s.phase 0) refl
                  (elim (Option-cases (held (s.phase 0))) [
                    | inl free ↦ free
                    | inr (i, e) ↦ absurd (nothing i e)
                  ])
                  (λ gone. let empty = ap length (l.stays 0 lasts some_worker gone) in omega arith)
                  (near_awake 0 s ahead lasts sleeps (λ i h. absurd (nothing i h))),
            )
      ]

  -- With at least one worker and a window of at least one chunk (`count + m` fits an int64), in every
  -- state that the steps lead to: while the context lasts and chunks are left to read, either the
  -- chunk that the reader needs next is there and the reader is not asleep, or some worker is awake
  -- and can take a step that does not put it to sleep.
  pub stream_progress :
      (s : Stream)
      → 1 ≤ workers
      → 1 ≤ m
      → Reaches count (pos m) result (start_stream workers count) s
      → s.cancelled ≡ false
      → s.current_index < count
      → ((r : ChunkResult) × (slot_in s.slots s.current_index ≡ some r) × (s.reader_asleep ≡ false))
        ⊎ ((w : ℕ) × CanStep w s)
  stream_progress s some_worker ahead run lasts more =
      let sleeps = Reaches-Sleeps count m result fits workers s run in
      elim (Option-cases (slot_in s.slots s.current_index)) [
        | inl missing ↦ inr (some_worker-CanStep s some_worker ahead run lasts more missing)
        | inr (r, e) ↦ elim (Bool-cases s.reader_asleep) [
          | inl asleep ↦ absurd (none-ne-some (sym (sleeps.empty lasts asleep) ∙ e))
          | inr awake ↦ inl (r, e, awake)
        ]
      ]
