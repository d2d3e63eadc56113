-- ===== src/Stream/Reading.antt =====
-- What the reads return: the data of all chunks in order, or an error.
use files_downloader_golang.Common.{
  ℕ, zero, suc, ◌+◌, ◌-◌, ◌<◌, ◌≡◌, ◌≢◌, refl, sym, ap, ◌∙◌, subst, true, false, Option, none, some,
  [], ◌++◌, length, append-nil, append_assoc, ltb, leb, if_case, if_split, arith,
}
use files_downloader_golang.Common.Int.{ℤ}
use files_downloader_golang.Common.Text.{Bytes}
use files_downloader_golang.Worker.{Error}
use files_downloader_golang.Stream.{
  ChunkResult, Stream, Event, worker, read_call, woken, close_call, context_end, wakes, step,
  Reaches, slot_in, start_stream, ReadEnd, read, resume, start_read, go_on_read, read_loop, advance,
  read_result, read_slot, got, chunk_failed, context_failed, waits, end_of_stream, starved,
  read_fuel,
}
use files_downloader_golang.Stream.Reach.{Leaves, awake-Leaves, Reaches-Leaves}
use files_downloader_golang.Stream.Order.{
  OrderedIn, none-ne-some, true-ne-false, no_bytes, joined, AllFetched, joined-prefix, all_fetched,
  cancelled-Ordered, step_phase-Ordered, close-Ordered, hand_over-Ordered, advance-Ordered,
}

module _ (count : ℕ) (window : ℤ) (result : ℕ → ChunkResult) where
  abbrev Ordered : Stream → Type 0
  Ordered s =
      OrderedIn count window result s.slots s.current_index s.current_buf s.closed s.cancelled
        s.received

  complete :
      (s : Stream)
      → s.closed ≡ false
      → s.current_buf ≡ []
      → leb count s.current_index ≡ true
      → Ordered s
      → (s.received ≡ joined result count) × AllFetched result count
  complete s opened empty over o =
      let within = o.within in
      let all : s.current_index ≡ count = ground arith in
      (
        sym (append-nil s.received)
            ∙ ap (λ x. s.received ++ x) (sym (o.left_eq opened ∙ empty))
            ∙ o.received_eq
            ∙ ap (joined result) all,
        all_fetched result count (λ i lt. o.good i (omega arith)),
      )

  -- Nothing is left of the data when a read reports the end of the stream.
  abbrev Ended : ReadEnd × Stream → Type 0
  Ended (end_of_stream, s) = (s.received ≡ joined result count) × AllFetched result count
  Ended (starved, s) = ⊥
  Ended (_, s) = Unit

  abbrev Reads : ReadEnd × Stream → Type 0
  Reads x = Ordered x.1 × Ended x

  read_result-Reads :
      (s : Stream) (r : ChunkResult) (err : Option Error) (behind : ReadEnd × Stream)
      → r.err ≡ err
      → Ordered s
      → (r.err ≡ none → Reads behind)
      → Reads (read_result count window result s behind err)
  read_result-Reads s r none behind e o k = k e
  read_result-Reads s r (some x) behind e o k = (o, tt)

  read_slot-Reads :
      (room : ℕ) (s : Stream) (go_on : Bytes → ReadEnd × Stream) (found : Option ChunkResult)
      → s.closed ≡ false
      → s.current_buf ≡ []
      → s.current_index < count
      → slot_in s.slots s.current_index ≡ found
      → Ordered s
      → ((bytes : Bytes) → Ordered (advance count window result bytes s) → Reads (go_on bytes))
      → Reads (read_slot count window result room s go_on found)
  read_slot-Reads room s go_on none opened empty more e o k = (o, tt)
  read_slot-Reads room s go_on (some r) opened empty more e o k =
      read_result-Reads s r r.err (go_on r.content) refl o
        (λ fine. k r.content (advance-Ordered count window result s r opened empty more e fine o))

  read_loop-Reads :
      (fuel room : ℕ) (s : Stream)
      → count < fuel + s.current_index
      → Ordered s
      → Reads (read_loop count window result fuel room s)
  unfolding read_loop
  read_loop-Reads zero room s enough o = absurd (let within = o.within in omega arith)
  read_loop-Reads (suc fuel) room s enough o =
      if_split Reads s.cancelled (λ stop. (o, tt))
        (λ go.
          let opened : s.closed ≡ false = let stopped = o.stopped in ground arith in
          if_split Reads (ltb 0 (length s.current_buf))
            (λ some_left. (hand_over-Ordered count window result room s opened o, tt))
            (λ none_left.
              if_split Reads (leb count s.current_index)
                (λ over. (o, complete s opened (no_bytes s.current_buf none_left) over o))
                (λ more.
                  read_slot-Reads room s
                    (λ bytes.
                      read_loop count window result fuel room (advance count window result bytes s))
                    (slot_in s.slots s.current_index) opened (no_bytes s.current_buf none_left)
                    (ground arith) refl o
                    (λ bytes o'. read_loop-Reads fuel room _ (omega arith) o'))))

  read-open :
      (room : ℕ) (s : Stream)
      → s.closed ≡ false
      → read count window result room s
        ≡ read_loop count window result (read_fuel count window result s) room s
  unfolding read
  read-open room s opened = rw opened refl

  read-Ordered : (room : ℕ) (s : Stream) → Ordered s → Ordered (read count window result room s).1
  unfolding read
  read-Ordered room s o =
      if_case (λ (x : ReadEnd × Stream). Ordered x.1) s.closed o
        (read_loop-Reads (read_fuel count window result s) room s (omega arith) o).0

  start_read-Ordered :
      (room : ℕ) (s : Stream) (waiting : Option ℕ)
      → Ordered s
      → Leaves Ordered (start_read count window result room s waiting)
  start_read-Ordered room s none o = read-Ordered room s o
  start_read-Ordered room s (some waiting) o = tt

  go_on_read-Ordered :
      (s : Stream) (waiting : Option ℕ)
      → Ordered s
      → Leaves Ordered (go_on_read count window result s waiting)
  unfolding resume
  go_on_read-Ordered s none o = tt
  go_on_read-Ordered s (some room) o = awake-Leaves Ordered s.reader_asleep _ (
      (read_loop-Reads (read_fuel count window result s) room (record s { waiting = none })
        (omega arith) o).0)

  step-Ordered :
      (e : Event) (s : Stream) → Ordered s → Leaves Ordered (step count window result e s)
  unfolding step
  step-Ordered (worker w) s o =
      awake-Leaves Ordered (s.asleep w) _ (step_phase-Ordered count window result w (s.phase w) s o)
  step-Ordered (read_call room) s o = start_read-Ordered room s s.waiting o
  step-Ordered woken s o = go_on_read-Ordered s s.waiting o
  step-Ordered close_call s o = close-Ordered count window result s o
  step-Ordered context_end s o = cancelled-Ordered count window result s o
  step-Ordered wakes s o = o

  start_stream-Ordered : (workers : ℕ) → Ordered (start_stream workers count)
  unfolding start_stream
  start_stream-Ordered workers = record {
    slot_eq = λ i r e. absurd (none-ne-some e);
    within = omega arith;
    good = λ i lt. absurd (omega arith);
    left = [];
    received_eq = refl;
    left_eq = λ e. refl;
    stopped = λ e. absurd (true-ne-false (sym e));
  }

  Reaches-Ordered :
      (workers : ℕ) (s : Stream)
      → Reaches count window result (start_stream workers count) s
      → Ordered s
  Reaches-Ordered workers s run =
      Reaches-Leaves count window result Ordered _ (λ e t r. step-Ordered e t) s
        (start_stream-Ordered workers) run

  -- In every state that the workers, the consumer and the context can bring about, in any order of
  -- their steps, the bytes that the reads have returned are a beginning of the chunks' data in the
  -- order of the chunks.
  pub stream_in_order :
      (workers : ℕ) (s : Stream)
      → Reaches count window result (start_stream workers count) s
      → (rest : Bytes) × (s.received ++ rest ≡ joined result count)
  stream_in_order workers s run =
      let o = Reaches-Ordered workers s run in
      let (rest, e) = joined-prefix result s.current_index (count - s.current_index) in
      let within = o.within in
      let all : count - s.current_index + s.current_index ≡ count = omega arith in
      (
        o.left ++ rest,
        sym (append_assoc s.received o.left rest)
            ∙ ap (λ x. x ++ rest) o.received_eq
            ∙ e
            ∙ ap (joined result) all,
      )

  -- A `Read` of a stream that is not closed reports the end only when the reads have returned the
  -- data of all chunks and no chunk's download has failed.
  pub stream_complete :
      (workers room : ℕ) (s u : Stream)
      → Reaches count window result (start_stream workers count) s
      → s.closed ≡ false
      → read count window result room s ≡ (end_of_stream, u)
      → (u.received ≡ joined result count) × AllFetched result count
  stream_complete workers room s u run opened e =
      let reads =
        read_loop-Reads (read_fuel count window result s) room s (omega arith)
          (Reaches-Ordered workers s run) in
      let same : read_loop count window result (read_fuel count window result s) room s
          ≡ (end_of_stream, u) =
        sym (read-open room s opened) ∙ e in
      subst Ended same reads.1

  Ended-not_starved : (end : ReadEnd) (s : Stream) → Ended (end, s) → end ≢ starved
  Ended-not_starved starved s ended = absurd ended
  Ended-not_starved (got bytes) s ended = λ h. cc
  Ended-not_starved end_of_stream s ended = λ h. cc
  Ended-not_starved (chunk_failed x) s ended = λ h. cc
  Ended-not_starved context_failed s ended = λ h. cc
  Ended-not_starved waits s ended = λ h. cc

  -- The loop of `Read` ends, by a result or a wait, within one round for each chunk that is left
  -- and one more.
  pub read_ends :
      (workers room : ℕ) (s : Stream)
      → Reaches count window result (start_stream workers count) s
      → (read count window result room s).0 ≢ starved
  unfolding read
  read_ends workers room s run e =
      let o = Reaches-Ordered workers s run in
      let reads = read_loop-Reads (read_fuel count window result s) room s (omega arith) o in
      if_case (λ (x : ReadEnd × Stream). x.0 ≢ starved) s.closed (λ h. cc)
        (Ended-not_starved _ _ reads.1) e
