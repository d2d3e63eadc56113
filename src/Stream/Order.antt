-- ===== src/Stream/Order.antt =====
-- The reader's bytes: the chunks' data in the order of the chunks. What each step but a read keeps.
use native.Mathlib.Decide.{dec_lt}
use files_downloader_golang.Common.{
  ℕ, zero, suc, ◌+◌, ◌≤◌, ◌<◌, ◌≡◌, refl, sym, ap, ◌∙◌, Bool, true, false, Option, none, some, List,
  [], ◌∷◌, ◌++◌, take, drop, length, take-append-drop, append-nil, append_assoc, ◌==◌, ltb,
  if◌then◌else◌, if_case, arith,
}
use files_downloader_golang.Common.Int.{ℤ}
use files_downloader_golang.Common.Text.{Bytes}
use files_downloader_golang.Stream.{
  ChunkResult, Stream, Phase, idle, holding, fetching, failing, finished, Slots, slot_in, free_slot,
  put_slot, advance, hand_over, close, step_phase, take_job, enter_window, deliver,
}
use files_downloader_golang.Stream.Reach.{Leaves}

pub none-ne-some : {r : ChunkResult} → ◌≡◌ {A = Option ChunkResult} none (some r) → ⊥
none-ne-some h = cc

pub true-ne-false : ◌≡◌ {A = Bool} true false → ⊥
true-ne-false h = cc

pub no_bytes : (xs : Bytes) → ltb 0 (length xs) ≡ false → xs ≡ []
no_bytes [] h = refl
no_bytes (x ∷ xs) h = ground arith

pub slot_in-free_slot :
    (slots : Slots) (c k : ℕ)
    → slot_in (free_slot slots c) k ≡ (if k == c then none else slot_in slots k)
slot_in-free_slot none c k = ground arith
slot_in-free_slot (some slots) c k = refl

-- The data of the first `k` chunks, one behind the other.
abbrev pub joined : (ℕ → ChunkResult) → ℕ → Bytes
joined result zero = []
joined result (suc k) = joined result k ++ (result k).content

-- The downloads of the first `k` chunks succeed.
abbrev pub AllFetched : (ℕ → ChunkResult) → ℕ → Type 0
AllFetched result zero = Unit
AllFetched result (suc k) = AllFetched result k × ((result k).err ≡ none)

pub joined-prefix :
    (result : ℕ → ChunkResult) (c d : ℕ)
    → (rest : Bytes) × (joined result c ++ rest ≡ joined result (d + c))
joined-prefix result c zero =
    let all : c ≡ 0 + c = omega arith in ([], append-nil (joined result c) ∙ ap (joined result) all)
joined-prefix result c (suc d) =
    let (rest, e) = joined-prefix result c d in
    let all : suc (d + c) ≡ suc d + c = omega arith in
    (
      rest ++ (result (d + c)).content,
      sym (append_assoc (joined result c) rest (result (d + c)).content)
          ∙ ap (λ x. x ++ (result (d + c)).content) e
          ∙ ap (joined result) all,
    )

pub all_fetched :
    (result : ℕ → ChunkResult) (k : ℕ)
    → ((i : ℕ) → i < k → (result i).err ≡ none)
    → AllFetched result k
all_fetched result zero good = tt
all_fetched result (suc k) good =
    (all_fetched result k (λ i lt. good i (omega arith)), good k (omega arith))

module _ (count : ℕ) (window : ℤ) (result : ℕ → ChunkResult) where
  -- The slots hold results of their chunks; the bytes read and those of the current buffer are the
  -- data of the chunks passed, none of which has failed.
  pub record OrderedIn (slots : Slots) (current : ℕ) (buf : Bytes) (closed cancelled : Bool)
      (received : Bytes) : Type 0 where
    pub slot_eq : (i : ℕ) (r : ChunkResult) → slot_in slots i ≡ some r → r ≡ result i
    pub within : current ≤ count
    pub good : (i : ℕ) → i < current → (result i).err ≡ none
    pub left : Bytes
    pub received_eq : received ++ left ≡ joined result current
    pub left_eq : closed ≡ false → left ≡ buf
    pub stopped : closed ≡ true → cancelled ≡ true

  abbrev Ordered : Stream → Type 0
  Ordered s = OrderedIn s.slots s.current_index s.current_buf s.closed s.cancelled s.received

  put_slot-Ordered :
      (w i : ℕ) (s : Stream) (slots : Slots)
      → OrderedIn slots s.current_index s.current_buf s.closed s.cancelled s.received
      → Leaves Ordered (put_slot count window result w i s slots)
  put_slot-Ordered w i s none o = tt
  put_slot-Ordered w i s (some slots) o = record {
    slot_eq = λ k r e. let before = o.slot_eq k r in ground arith;
    within = o.within;
    good = o.good;
    left = o.left;
    received_eq = o.received_eq;
    left_eq = o.left_eq;
    stopped = o.stopped;
  }

  pub cancelled-Ordered : (s : Stream) → Ordered s → Ordered (record s { cancelled = true })
  cancelled-Ordered s o = record {
    slot_eq = o.slot_eq;
    within = o.within;
    good = o.good;
    left = o.left;
    received_eq = o.received_eq;
    left_eq = o.left_eq;
    stopped = λ e. refl;
  }

  take_job-Ordered :
      (w : ℕ) (jobs : List ℕ) (s : Stream)
      → Ordered s
      → Ordered (take_job count window result w jobs s)
  unfolding take_job
  take_job-Ordered w [] s o = o
  take_job-Ordered w (i ∷ jobs) s o = o

  pub step_phase-Ordered :
      (w : ℕ) (p : Phase) (s : Stream)
      → Ordered s
      → Leaves Ordered (step_phase count window result w p s)
  unfolding step_phase enter_window deliver
  step_phase-Ordered w idle s o = take_job-Ordered w s.jobs s o
  step_phase-Ordered w (holding i) s o = ground arith
  step_phase-Ordered w (fetching i) s o = put_slot-Ordered w i s s.slots o
  step_phase-Ordered w failing s o = cancelled-Ordered s o
  step_phase-Ordered w finished s o = tt

  pub close-Ordered : (s : Stream) → Ordered s → Ordered (close count window result s)
  unfolding close
  close-Ordered s o = if_case Ordered s.closed o (record {
    slot_eq = λ i r e. absurd (none-ne-some e);
    within = o.within;
    good = o.good;
    left = o.left;
    received_eq = o.received_eq;
    left_eq = λ e. absurd (true-ne-false e);
    stopped = λ e. refl;
  })

  pub hand_over-Ordered :
      (room : ℕ) (s : Stream)
      → s.closed ≡ false
      → Ordered s
      → Ordered (hand_over count window result room s)
  hand_over-Ordered room s opened o = record {
    slot_eq = o.slot_eq;
    within = o.within;
    good = o.good;
    left = drop room s.current_buf;
    received_eq =
        append_assoc s.received (take room s.current_buf) (drop room s.current_buf)
        ∙ ap (λ x. s.received ++ x) (take-append-drop room s.current_buf ∙ sym (o.left_eq opened))
        ∙ o.received_eq;
    left_eq = λ e. refl;
    stopped = o.stopped;
  }

  -- Behind an empty buffer the next chunk's data follow.
  pub advance-Ordered :
      (s : Stream) (r : ChunkResult)
      → s.closed ≡ false
      → s.current_buf ≡ []
      → s.current_index < count
      → slot_in s.slots s.current_index ≡ some r
      → r.err ≡ none
      → Ordered s
      → Ordered (advance count window result r.content s)
  advance-Ordered s r opened empty more found fine o =
      let same = o.slot_eq s.current_index r found in
      record {
        slot_eq = λ i r' e.
            let before = o.slot_eq i r' in
            ground (arith, slot_in-free_slot s.slots s.current_index i);
        within = omega arith;
        good = λ i lt. elim (dec_lt i s.current_index) [
          | yes below ↦ o.good i below
          | no above ↦
              let i_eq : i ≡ s.current_index = omega arith in
              ap (λ k. (result k).err) i_eq ∙ ap (λ (x : ChunkResult). x.err) (sym same) ∙ fine
        ];
        left = r.content;
        received_eq =
            sym (
              ap (λ x. x ++ r.content)
                (ap (λ x. s.received ++ x) (o.left_eq opened ∙ empty) ∙ append-nil s.received))
            ∙ ap (λ x. x ++ r.content) o.received_eq
            ∙ ap (λ (x : ChunkResult). joined result s.current_index ++ x.content) same;
        left_eq = λ e. refl;
        stopped = o.stopped;
      }
