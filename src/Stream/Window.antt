-- ===== src/Stream/Window.antt =====
-- Where each chunk of the stream is: with the reader, in a slot, with one worker or in the channel.
use native.Mathlib.Decide.{dec_lt}
use files_downloader_golang.Common.{
  ℕ, suc, ◌+◌, ◌-◌, ◌^◌, ◌≤◌, ◌<◌, ◌≡◌, ◌≢◌, refl, sym, ap, ◌∙◌, Option, none, some, List, [], ◌∷◌,
  arith,
}
use files_downloader_golang.Common.Int.{pos}
use files_downloader_golang.Worker.{Error}
use files_downloader_golang.Stream.{
  ChunkResult, Stream, Phase, idle, holding, fetching, failing, finished, Slots, slot_in, free_slot,
  put_slot, advance, set_phase, take_job, range_from, after_fetch,
}
use files_downloader_golang.Stream.Reach.{Leaves}
use files_downloader_golang.Stream.Order.{slot_in-free_slot}

-- The chunk that a worker has.
abbrev pub held : Phase → Option ℕ
held (holding i) = some i
held (fetching i) = some i
held idle = none
held failing = none
held finished = none

-- The chunk that a worker downloads.
abbrev pub fetched : Phase → Option ℕ
fetched (fetching i) = some i
fetched (holding i) = none
fetched idle = none
fetched failing = none
fetched finished = none

pub fetched-held : (p : Phase) (i : ℕ) → fetched p ≡ some i → held p ≡ some i
fetched-held (fetching k) i e = e
fetched-held (holding k) i e = cc
fetched-held idle i e = cc
fetched-held failing i e = cc
fetched-held finished i e = cc

pub after_fetch-none :
    (count m : ℕ) (result : ℕ → ChunkResult) (err : Option Error)
    → (held (after_fetch count (pos m) result err) ≡ none)
      × (fetched (after_fetch count (pos m) result err) ≡ none)
after_fetch-none count m result none = (refl, refl)
after_fetch-none count m result (some e) = (refl, refl)

by_free :
    (slots : Slots) (c k : ℕ) (r : ChunkResult)
    → slot_in (free_slot slots c) k ≡ some r
    → slot_in slots k ≡ some r
by_free slots c k r h = ground (arith, slot_in-free_slot slots c k)

pub head_of_range :
    (i : ℕ) (jobs : List ℕ) (next count : ℕ)
    → i ∷ jobs ≡ range_from next (count - next)
    → (next < count) × (i ≡ next) × (jobs ≡ range_from (suc next) (count - suc next))
head_of_range i jobs next count e = elim (dec_lt next count) [
  | yes more ↦
      let size : count - next ≡ suc (count - suc next) = omega arith in
      let e' : i ∷ jobs ≡ next ∷ range_from (suc next) (count - suc next) =
        e ∙ ap (range_from next) size in
      (more, cc, cc)
  | no over ↦
      let size : count - next ≡ 0 = omega arith in
      let e' : i ∷ jobs ≡ [] = e ∙ ap (range_from next) size in absurd cc
]

module _ (count m : ℕ) (result : ℕ → ChunkResult) (fits : count + m < 2 ^ 63) where
  -- The channel holds the chunks from `next` on; those below it are with the reader, in a slot in
  -- the window, or with one worker.
  pub record PlacedIn (jobs : List ℕ) (phase : ℕ → Phase) (slots : Slots) (current next : ℕ)
      : Type 0 where
    pub jobs_eq : jobs ≡ range_from next (count - next)
    pub next_le : next ≤ count
    pub current_le : current ≤ next
    pub held_range : (w i : ℕ) → held (phase w) ≡ some i → (current ≤ i) × (i < next)
    pub held_once : (v w i : ℕ) → held (phase v) ≡ some i → held (phase w) ≡ some i → v ≡ w
    pub fetched_range : (w i : ℕ) → fetched (phase w) ≡ some i → i < current + m
    pub slot_range :
        (i : ℕ) (r : ChunkResult)
        → slot_in slots i ≡ some r
        → (current ≤ i) × (i < current + m) × (i < next)
    pub slot_free : (w i : ℕ) (r : ChunkResult) → slot_in slots i ≡ some r → held (phase w) ≢ some i

  abbrev Placed : Stream → Type 0
  Placed s = (next : ℕ) × PlacedIn s.jobs s.phase s.slots s.current_index next

  -- A worker that lets go of its chunk, or has none.
  pub let_go :
      (w : ℕ) (p : Phase) (s : Stream)
      → held p ≡ none
      → fetched p ≡ none
      → Placed s
      → Placed (set_phase w p s)
  let_go w p s e e' (next, o) = (
    next,
    record {
      jobs_eq = o.jobs_eq;
      next_le = o.next_le;
      current_le = o.current_le;
      held_range = λ v i h. let before = o.held_range v i in ground arith;
      held_once = λ u v i h k. let before = o.held_once u v i in ground arith;
      fetched_range = λ v i h. let before = o.fetched_range v i in ground arith;
      slot_range = o.slot_range;
      slot_free = λ v i r h k. let before = o.slot_free v i r h in ground arith;
    },
  )

  pub take_job-Placed :
      (w : ℕ) (jobs : List ℕ) (s : Stream)
      → s.jobs ≡ jobs
      → s.phase w ≡ idle
      → Placed s
      → Placed (take_job count (pos m) result w jobs s)
  unfolding take_job
  take_job-Placed w [] s e e' p = let_go w finished s refl refl p
  take_job-Placed w (i ∷ jobs) s e e' (next, o) =
      let (more, i_eq, jobs_eq) = head_of_range i jobs next count (sym e ∙ o.jobs_eq) in
      (
        suc next,
        record {
          jobs_eq = jobs_eq;
          next_le = more;
          current_le = let le = o.current_le in omega arith;
          held_range =
              λ v k h. let before = o.held_range v k in let le = o.current_le in ground arith;
          held_once = λ u v k h h'.
              let before = o.held_once u v k in
              let left = o.held_range u k in let right = o.held_range v k in ground arith;
          fetched_range = λ v k h. let before = o.fetched_range v k in ground arith;
          slot_range = λ k r h. let before = o.slot_range k r h in omega arith;
          slot_free = λ v k r h h'.
              let before = o.slot_free v k r h in let range = o.slot_range k r h in ground arith;
        },
      )

  pub fetch-Placed :
      (w i : ℕ) (s : Stream)
      → s.phase w ≡ holding i
      → i < s.current_index + m
      → Placed s
      → Placed (set_phase w (fetching i) s)
  fetch-Placed w i s e lt (next, o) = (
    next,
    record {
      jobs_eq = o.jobs_eq;
      next_le = o.next_le;
      current_le = o.current_le;
      held_range = λ v k h. let before = o.held_range v k in ground arith;
      held_once = λ u v k h h'. let before = o.held_once u v k in ground arith;
      fetched_range = λ v k h. let before = o.fetched_range v k in ground arith;
      slot_range = o.slot_range;
      slot_free = λ v k r h h'. let before = o.slot_free v k r h in ground arith;
    },
  )

  -- A delivered chunk moves from its worker to its slot.
  pub put_slot-Placed :
      (w i : ℕ) (s : Stream) (slots : Slots)
      → s.phase w ≡ fetching i
      → (next : ℕ) × PlacedIn s.jobs s.phase slots s.current_index next
      → Leaves Placed (put_slot count (pos m) result w i s slots)
  put_slot-Placed w i s none e o = tt
  put_slot-Placed w i s (some slots) e (next, o) =
      let mine = o.held_range w i (ap held e) in
      let near = o.fetched_range w i (ap fetched e) in
      let (none_held, none_fetched) = after_fetch-none count m result (result i).err in
      (
        next,
        record {
          jobs_eq = o.jobs_eq;
          next_le = o.next_le;
          current_le = o.current_le;
          held_range = λ v k h. let before = o.held_range v k in ground arith;
          held_once = λ u v k h h'. let before = o.held_once u v k in ground arith;
          fetched_range = λ v k h. let before = o.fetched_range v k in ground arith;
          slot_range = λ k r h. let before = o.slot_range k r in ground arith;
          slot_free = λ v k r h h'.
              let before = o.slot_free v k r in
              let once = o.held_once v w i in let has = ap held e in ground arith;
        },
      )

  -- The reader takes the chunk of its own slot.
  pub advance-Placed :
      (s : Stream) (r : ChunkResult)
      → slot_in s.slots s.current_index ≡ some r
      → Placed s
      → Placed (advance count (pos m) result r.content s)
  advance-Placed s r found (next, o) =
      let range = o.slot_range s.current_index r found in
      (
        next,
        record {
          jobs_eq = o.jobs_eq;
          next_le = o.next_le;
          current_le = omega arith;
          held_range = λ v k h.
              let before = o.held_range v k h in
              let free = o.slot_free v s.current_index r found in ground arith;
          held_once = o.held_once;
          fetched_range = λ v k h. let before = o.fetched_range v k h in omega arith;
          slot_range = λ k r' h.
              let before = o.slot_range k r' in
              ground (arith, slot_in-free_slot s.slots s.current_index k);
          slot_free = λ v k r' h. o.slot_free v k r' (by_free s.slots s.current_index k r' h);
        },
      )
