-- ===== src/Worker/Copying.antt =====
-- The copy loop against a server that answers with the file's bytes, for any destination.
use Prim.Native.Nat.{min}
use files_downloader_golang.Common.{
  ℕ, ◌+◌, ◌-◌, ◌^◌, ◌≤◌, ◌<◌, ◌≡◌, refl, ap, ap₂, ◌∙◌, Bool, true, false, Option, none, some, [],
  ◌∷◌, ◌⊎◌, take, length, arith, inl, inr,
}
use native.Mathlib.Nat.{add-zero, add_assoc}
use files_downloader_golang.Common.Int.{pos}
use files_downloader_golang.Common.Word.{add64, sub64, add64-pos, sub64-pos}
use files_downloader_golang.Common.Text.{Bytes}
use files_downloader_golang.Chunk.{Chunk, set_downloaded}
use files_downloader_golang.Chunk.Methods.{Spans, set_downloaded_clamp}
use files_downloader_golang.Progress.{Tracker, add_bytes}
use files_downloader_golang.Progress.Counters.{add_bytes-pos}
use files_downloader_golang.Worker.{
  WriteEnd, accepted, short, refused, ReadError, Body, more, last, Error, Copy,
}
use files_downloader_golang.Worker.Attempt.{counted, take_bytes, end_failure, copy_body}
use files_downloader_golang.Worker.Content.{Matches, HonestBody, Complete, Matches-take}

-- The attempt asks for the bytes `r` to `b` of a chunk that covers `a` to `b`, in a file of `total`
-- bytes. `Holds p w` says that the destination has taken the file's bytes up to offset `p`.
module _ {W : Type 0} (put : W → Bytes → W) (content : ℕ → ℕ) (total : ℕ) (Holds : ℕ → W → Type 0)
    (keeps : (p : ℕ) (w : W) (bs : Bytes)
      → Matches content p bs
      → Holds p w
      → Holds (p + length bs) (put w bs))
    (chunk : Chunk) (tracker : Tracker) (a b r m : ℕ) (spans : Spans chunk a b) (inside : b < total)
    (fits : total ≤ 2 ^ 62) (from_chunk : a ≤ r) (to_chunk : r ≤ b)
    (counter_eq : tracker.downloaded_bytes ≡ pos m) (counter_fits : m + total < 2 ^ 63) where
  -- The loop has read `t` bytes, and the destination holds the file up to `p`.
  pub record At (t p : ℕ) (s : Copy W) : Type 0 where
    pub chunk_eq : s.chunk ≡ record chunk { downloaded = pos (min (r - a + t) (b + 1 - a)) }
    pub tracker_eq : s.tracker ≡ record tracker { downloaded_bytes = pos (m + t) }
    pub attempt_eq : s.attempt_bytes ≡ pos t
    pub read_eq : s.total_read ≡ pos t
    pub holds : Holds p s.dest

  counted-At :
      (t : ℕ) (s : Copy W) (bs : Bytes)
      → Matches content (r + t) bs
      → r + t + length bs ≤ total
      → At t (r + t) s
      → At (t + length bs) (r + t + length bs) (counted put (pos r) s bs)
  unfolding counted
  counted-At t s bs match le at =
      let n = length bs in
      let read : add64 (pos t) (pos n) ≡ pos (t + n) = add64-pos t n (omega arith) in
      let reach : add64 (pos (t + n)) (pos r) ≡ pos (t + n + r) =
        add64-pos (t + n) r (omega arith) in
      let back : sub64 (pos (t + n + r)) (pos a) ≡ pos (t + n + r - a) =
        sub64-pos (t + n + r) a (omega arith) (omega arith) in
      let here = record chunk { downloaded = pos (min (r - a + t) (b + 1 - a)) } in
      let spans' : Spans here a b = record {
        start_eq = spans.start_eq;
        end_eq = spans.end_eq;
        ordered = spans.ordered;
        fits = spans.fits;
      } in
      let read_eq' : add64 s.total_read (pos n) ≡ pos (t + n) =
        ap (λ x. add64 x (pos n)) at.read_eq ∙ read in
      let start_eq' : s.chunk.start ≡ pos a =
        ap (λ (c : Chunk). c.start) at.chunk_eq ∙ spans.start_eq in
      let offset : sub64 (add64 (add64 s.total_read (pos n)) (pos r)) s.chunk.start
          ≡ pos (t + n + r - a) =
        cc in
      let moved : set_downloaded s.chunk
            (sub64 (add64 (add64 s.total_read (pos n)) (pos r)) s.chunk.start)
          ≡ set_downloaded here (pos (t + n + r - a)) =
        ap₂ set_downloaded at.chunk_eq offset in
      record {
        chunk_eq =
            moved
            ∙ set_downloaded_clamp here a b (t + n + r - a) spans'
            ∙ ap (λ x. record chunk { downloaded = pos x }) (omega arith);
        tracker_eq =
            ap (λ x. add_bytes x (pos n)) at.tracker_eq
            ∙ add_bytes-pos (record tracker { downloaded_bytes = pos (m + t) }) (m + t) n refl
                (omega arith)
            ∙ ap (λ x. record tracker { downloaded_bytes = pos x }) (omega arith);
        attempt_eq = ap (λ x. add64 x (pos n)) at.attempt_eq ∙ read;
        read_eq = read_eq';
        holds = keeps (r + t) s.dest bs match at.holds;
      }

  -- The loop ended with `t` bytes read in the state `s`; success means that they are all the bytes
  -- asked for.
  pub record Copied (failure : Option Error) (s : Copy W) : Type 0 where
    pub t : ℕ
    pub p : ℕ
    pub at : At t p s
    pub inside_file : r + t ≤ total
    pub not_behind : r + t ≤ p
    pub success : failure ≡ none → (t ≡ b + 1 - r) × (p ≡ r + t)

  partly-Copied :
      (e : Error) (t n : ℕ) (s : Copy W) (bs : Bytes)
      → Matches content (r + t) bs
      → r + t + length bs ≤ total
      → At t (r + t) s
      → Copied (some e) (record s { dest = put s.dest (take n bs) })
  partly-Copied e t n s bs match le at = record {
    t = t;
    p = r + t + length (take n bs);
    at = record {
      chunk_eq = at.chunk_eq;
      tracker_eq = at.tracker_eq;
      attempt_eq = at.attempt_eq;
      read_eq = at.read_eq;
      holds = keeps (r + t) s.dest (take n bs) (Matches-take content n (r + t) bs match) at.holds;
    };
    inside_file = omega arith;
    not_behind = omega arith;
    success = λ x. cc;
  }

  stopped : (e : Error) (t : ℕ) (s : Copy W) → r + t ≤ total → At t (r + t) s → Copied (some e) s
  stopped e t s le at = record {
    t = t;
    p = r + t;
    at = at;
    inside_file = le;
    not_behind = omega arith;
    success = λ x. cc;
  }

  -- One read: either all its bytes are written and counted, or the loop ends.
  take_bytes-cases :
      (t : ℕ) (s : Copy W) (bs : Bytes) (end : WriteEnd)
      → Matches content (r + t) bs
      → r + t + length bs ≤ total
      → At t (r + t) s
      → ((s' : Copy W) × (take_bytes put (pos r) s bs end ≡ (none, s'))
          × At (t + length bs) (r + (t + length bs)) s')
        ⊎ ((e : Error) × (s' : Copy W) × (take_bytes put (pos r) s bs end ≡ (some e, s'))
            × Copied (some e) s')
  unfolding take_bytes
  take_bytes-cases t s [] end match le at = inl (s, refl, rw add-zero at)
  take_bytes-cases t s (b ∷ bs) accepted match le at =
      inl (_, refl, rw (← add_assoc r t (length (b ∷ bs))) (counted-At t s (b ∷ bs) match le at))
  take_bytes-cases t s (b ∷ bs) (short n) match le at =
      inr (_, _, refl, partly-Copied _ t n s (b ∷ bs) match le at)
  take_bytes-cases t s (b ∷ bs) (refused n) match le at =
      inr (_, _, refl, partly-Copied _ t n s (b ∷ bs) match le at)

  finish-Copied :
      (e : ReadError) (t : ℕ) (s : Copy W)
      → r + t ≤ total
      → At t (r + t) s
      → Copied (end_failure (pos (b + 1 - r)) e s.total_read) s
  unfolding end_failure
  finish-Copied e t s le at = record {
    t = t;
    p = r + t;
    at = at;
    inside_file = le;
    not_behind = omega arith;
    success = λ x. (ground (arith, at.read_eq), refl);
  }

  pub copy_body-Copied :
      (idle : Bool) (body : Body) (t : ℕ) (s : Copy W)
      → HonestBody content total (r + t) body
      → r + t ≤ total
      → At t (r + t) s
      → let (failure, s') = copy_body put (pos r) (pos (b + 1 - r)) idle s body in Copied failure s'
  unfolding copy_body
  copy_body-Copied idle (last true bs end fired e) t s honest le at = stopped _ t s le at
  copy_body-Copied idle (last false bs end fired e) t s (match, within) le at =
      elim (take_bytes-cases t s bs end match within at) [
        | inl (s', f, at') ↦ rw f (finish-Copied _ (t + length bs) s' (omega arith) at')
        | inr (e', s', f, c) ↦ rw f c
      ]
  copy_body-Copied idle (more true bs end rest) t s honest le at = stopped _ t s le at
  copy_body-Copied idle (more false bs end rest) t s (match, within, honest) le at =
      elim (take_bytes-cases t s bs end match within at) [
        | inl (s', f, at') ↦ rw f (
            copy_body-Copied idle rest (t + length bs) s' (rw (← add_assoc r t (length bs)) honest)
              (omega arith) at')
        | inr (e', s', f, c) ↦ rw f c
      ]

  take_bytes_accepted :
      (t : ℕ) (s : Copy W) (bs : Bytes)
      → Matches content (r + t) bs
      → r + t + length bs ≤ total
      → At t (r + t) s
      → (s' : Copy W) × (take_bytes put (pos r) s bs accepted ≡ (none, s'))
        × At (t + length bs) (r + (t + length bs)) s'
  unfolding take_bytes
  take_bytes_accepted t s [] match le at = (s, refl, rw add-zero at)
  take_bytes_accepted t s (b ∷ bs) match le at =
      (_, refl, rw (← add_assoc r t (length (b ∷ bs))) (counted-At t s (b ∷ bs) match le at))

  -- A complete body is copied with no error.
  pub copy_body-Complete :
      (idle : Bool) (body : Body) (t : ℕ) (s : Copy W)
      → HonestBody content total (r + t) body
      → Complete (b + 1 - r - t) body
      → r + t ≤ b + 1
      → At t (r + t) s
      → (copy_body put (pos r) (pos (b + 1 - r)) idle s body).0 ≡ none
  unfolding copy_body end_failure
  copy_body-Complete idle (last done bs end fired e) t s (match, within) (x, y, z, v, w) le at =
      let (s', run, at') = take_bytes_accepted t s bs match within at in
      let read = at'.read_eq in
      let all : t + length bs ≡ b + 1 - r = omega arith in rw (x, y, v, w, run) (ground arith)
  copy_body-Complete idle (more done bs end rest) t s (match, within, honest) (x, y, z, complete) le
        at =
      let (s', run, at') = take_bytes_accepted t s bs match within at in
      let left : b + 1 - r - t - length bs ≡ b + 1 - r - (t + length bs) = omega arith in
      rw (x, y, run)
        (copy_body-Complete idle rest (t + length bs) s' (rw (← add_assoc r t (length bs)) honest)
          (rw left at complete) (omega arith) at')
