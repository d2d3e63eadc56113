-- ===== src/Stream/Closing.antt =====
-- `Close` sets the map of the slots to nil, and a worker that still downloads writes to it.
use files_downloader_golang.Common.{ℕ, ◌≡◌, refl, ap, ◌∙◌, true, false, none, some, []}
use files_downloader_golang.Common.Int.{ℤ}
use files_downloader_golang.Stream.{
  ChunkResult, Stream, Phase, idle, holding, fetching, failing, finished, panicked, worker, step,
  step_phase, deliver, close, broadcast,
}
use files_downloader_golang.Stream.Window.{fetched}

module _ (count : ℕ) (window : ℤ) (result : ℕ → ChunkResult) where
  abbrev closed_now : Stream → Stream
  closed_now s =
      broadcast (record s { closed = true; cancelled = true; slots = none; current_buf = [] })

  step_phase-panicked :
      (w i : ℕ) (p : Phase) (s : Stream)
      → fetched p ≡ some i
      → s.slots ≡ none
      → step_phase count window result w p s ≡ panicked
  unfolding step_phase deliver
  step_phase-panicked w i (fetching k) s e gone = rw gone refl
  step_phase-panicked w i (holding k) s e gone = absurd cc
  step_phase-panicked w i idle s e gone = absurd cc
  step_phase-panicked w i failing s e gone = absurd cc
  step_phase-panicked w i finished s e gone = absurd cc

  close-open : (s : Stream) → s.closed ≡ false → close count window result s ≡ closed_now s
  unfolding close
  close-open s opened = rw opened refl

  -- When a stream is closed while a worker downloads a chunk, the end of that download panics,
  -- whatever it comes to.
  pub close_panics :
      (w i : ℕ) (s : Stream)
      → s.closed ≡ false
      → fetched (s.phase w) ≡ some i
      → step count window result (worker w) (close count window result s) ≡ panicked
  unfolding step
  close_panics w i s opened e =
      ap (λ t. step count window result (worker w) t) (close-open s opened)
      ∙ step_phase-panicked w i (s.phase w) (closed_now s) e refl
