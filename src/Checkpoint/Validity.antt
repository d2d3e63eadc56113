-- ===== src/Checkpoint/Validity.antt =====
-- What `IsResumeValid` guarantees, and which checkpoints pass it.
use Prim.Native.Nat.{min}
use files_downloader_golang.Common.{
  ℕ, ◌+◌, ◌-◌, ◌^◌, ◌≤◌, ◌<◌, ◌≡◌, ◌↔◌, ◌⊎◌, ap, sym, Bool, ◌&&◌, ◌||◌, Bool-cases, inl, inr, refl,
  true, Option, none, some, List, [], ◌∷◌, arith, length, length-map, map, subst, Option-cases,
}
use files_downloader_golang.Common.Int.{ℤ, pos, pos_part, ◌≤ℤ◌}
use files_downloader_golang.Common.Word.{add64, sub64, add64-pos, sub64-pos}
use files_downloader_golang.Common.Text.{text_eq, text_eq_iff, trim_by, Bytes}
use files_downloader_golang.Chunk.{Chunk, calculate_chunks}
use files_downloader_golang.Chunk.Tiling.{Tiles, calculate_chunks-Tiles}
use files_downloader_golang.Probe.{FileInfo}
use files_downloader_golang.Checkpoint.{
  ChunkState, Checkpoint, is_quote, state_of, new_checkpoint, state_ok, states_ok, same_version,
  is_resume_valid,
}

-- The entry at position `i` covers the bytes from `s` to `e`, and `d` of them are there.
pub record Covers (total i s e d : ℕ) (st : ChunkState) : Type 0 where
  pub index_eq : st.index ≡ pos i
  pub start_eq : st.start ≡ pos s
  pub end_eq : st.end ≡ pos e
  pub downloaded_eq : st.downloaded ≡ pos d
  pub ordered : s ≤ e
  pub inside : e < total
  pub counted : d ≤ e + 1 - s
  pub whole : st.completed ≡ true → d ≡ e + 1 - s

-- The entries cover the bytes from `s` to the end of the file, in order and without gap.
abbrev pub Cover : ℕ → ℕ → ℕ → List (Option ChunkState) → Type 0
Cover total i s [] = s ≡ total
Cover total i s (none ∷ sts) = ⊥
Cover total i s (some st ∷ sts) =
    (e : ℕ) × (d : ℕ) × Covers total i s e d st × Cover total (i + 1) (e + 1) sts

space-pos :
    (s e : ℕ) → s ≤ e → e + 1 < 2 ^ 63 → add64 (sub64 (pos e) (pos s)) (pos 1) ≡ pos (e + 1 - s)
space-pos s e h k =
    let gap : sub64 (pos e) (pos s) ≡ pos (e - s) = sub64-pos e s h (omega arith) in
    let one : add64 (pos (e - s)) (pos 1) ≡ pos (e - s + 1) = add64-pos (e - s) 1 (omega arith) in
    rw (gap, one) (ground arith)

-- The numbers that the test of an entry shows the entry to hold.
numbers :
    (total i s : ℕ) (st : ChunkState)
    → state_ok (pos total) (pos i) (pos s) st ≡ true
    → (e : ℕ) × (d : ℕ) × (st.index ≡ pos i)
      × (st.start ≡ pos s)
      × (st.end ≡ pos e)
      × (st.downloaded ≡ pos d)
      × (s ≤ e)
      × (e < total)
unfolding state_ok
numbers total i s st ok = (
  pos_part st.end,
  pos_part st.downloaded,
  ground arith,
  ground arith,
  ground arith,
  ground arith,
  ground arith,
  ground arith,
)

-- One entry: the code's test is the description.
state_ok-Covers :
    (total i s : ℕ) (st : ChunkState)
    → total < 2 ^ 63
    → state_ok (pos total) (pos i) (pos s) st ≡ true
    → (e : ℕ) × (d : ℕ) × Covers total i s e d st
unfolding state_ok
state_ok-Covers total i s st h ok =
    let (e, d, i_eq, s_eq, e_eq, d_eq, le, lt) = numbers total i s st ok in
    let space = space-pos s e le (omega arith) in
    (
      e,
      d,
      record {
        index_eq = i_eq;
        start_eq = s_eq;
        end_eq = e_eq;
        downloaded_eq = d_eq;
        ordered = le;
        inside = lt;
        counted = ground arith;
        whole = λ c. ground arith;
      },
    )

Covers-state_ok :
    (total i s e d : ℕ) (st : ChunkState)
    → total < 2 ^ 63
    → Covers total i s e d st
    → state_ok (pos total) (pos i) (pos s) st ≡ true
unfolding state_ok
Covers-state_ok total i s e d st h c =
    let ordered = c.ordered in
    let inside = c.inside in
    let space = space-pos s e ordered (omega arith) in ground (arith, c.whole)

states_ok-Cover :
    (total i s : ℕ) (sts : List (Option ChunkState))
    → total < 2 ^ 63
    → i ≤ s
    → s ≤ total
    → states_ok (pos total) (pos i) (pos s) sts ≡ true
    → Cover total i s sts
unfolding states_ok
states_ok-Cover total i s [] h k b ok = ground arith
states_ok-Cover total i s (none ∷ sts) h k b ok = cc
states_ok-Cover total i s (some st ∷ sts) h k b ok =
    let (e, d, c) = state_ok-Covers total i s st h (ground arith) in
    let ordered = c.ordered in
    let inside = c.inside in
    let i_step = add64-pos i 1 (omega arith) in
    let s_step = add64-pos e 1 (omega arith) in
    (
      e,
      d,
      c,
      states_ok-Cover total (i + 1) (e + 1) sts h (omega arith) (omega arith)
          (ground (arith, c.end_eq)),
    )

Cover-states_ok :
    (total i s : ℕ) (sts : List (Option ChunkState))
    → total < 2 ^ 63
    → i ≤ s
    → s ≤ total
    → Cover total i s sts
    → states_ok (pos total) (pos i) (pos s) sts ≡ true
unfolding states_ok
Cover-states_ok total i s [] h k b c = ground arith
Cover-states_ok total i s (none ∷ sts) h k b c = absurd c
Cover-states_ok total i s (some st ∷ sts) h k b (e, d, c, rest) =
    let ordered = c.ordered in
    let inside = c.inside in
    let i_step = add64-pos i 1 (omega arith) in
    let s_step = add64-pos e 1 (omega arith) in
    let later = Cover-states_ok total (i + 1) (e + 1) sts h (omega arith) (omega arith) rest in
    let now = Covers-state_ok total i s e d st h c in ground (arith, c.end_eq)

Cover-length :
    (total : ℕ) (sts : List (Option ChunkState)) → 1 ≤ total → Cover total 0 0 sts → 1 ≤ length sts
Cover-length total [] h c = absurd (omega arith)
Cover-length total (st ∷ sts) h c = omega arith

-- The validators that the checkpoint holds are those of the fresh probe, entity tags up to quotes
-- around them; a probe that gives no time agrees with any.
abbrev pub SameVersion : Checkpoint → FileInfo → Type 0
SameVersion cp info =
    ((trim_by is_quote cp.etag ≡ []) ⊎ (trim_by is_quote cp.etag ≡ trim_by is_quote info.etag))
    × ((cp.last_modified ≡ [])
        ⊎ (info.last_modified ≡ none)
        ⊎ (info.last_modified ≡ some cp.last_modified))

and_true : (a b : Bool) → a && b ≡ true → (a ≡ true) × (b ≡ true)
and_true a b e = ground arith

true_and : (a b : Bool) → a ≡ true → b ≡ true → a && b ≡ true
true_and a b e e' = ground arith

tags_agree :
    (stored fresh : Bytes)
    → ((text_eq stored [] || text_eq stored fresh) ≡ true) ↔ ((stored ≡ []) ⊎ (stored ≡ fresh))
tags_agree stored fresh =
    let (blank, blank') = text_eq_iff stored [] in
    let (same, same') = text_eq_iff stored fresh in
    (
      λ ok. elim (Bool-cases (text_eq stored [])) [
        | inl e ↦ inl (blank e)
        | inr e ↦ inr (same (ground arith))
      ],
      λ a. elim a [ inl e ↦ rw (blank' e) refl | inr e ↦ let t = same' e in ground arith ],
    )

times_agree :
    (stored : Bytes) (fresh : Option Bytes)
    → ((text_eq stored [] || elim fresh [ none ↦ true | some t ↦ text_eq stored t ]) ≡ true)
      ↔ ((stored ≡ []) ⊎ (fresh ≡ none) ⊎ (fresh ≡ some stored))
times_agree stored none = (λ ok. inr (inl refl), λ a. ground arith)
times_agree stored (some t) =
    let (ok_to, of_ok) = tags_agree stored t in
    (
      λ ok. elim (ok_to ok) [ inl e ↦ inl e | inr e ↦ inr (inr (ap some (sym e))) ],
      λ a. elim a [ inl e ↦ of_ok (inl e) | inr (inl e) ↦ cc | inr (inr e) ↦ of_ok (inr cc) ],
    )

same_version_iff :
    (cp : Checkpoint) (info : FileInfo) → (same_version cp info ≡ true) ↔ SameVersion cp info
unfolding same_version
same_version_iff cp info =
    let (tag, tag') = tags_agree (trim_by is_quote cp.etag) (trim_by is_quote info.etag) in
    let (time, time') = times_agree cp.last_modified info.last_modified in
    (
      λ ok. (tag (and_true _ _ ok).0, time (and_true _ _ ok).1),
      λ (a, b). true_and _ _ (tag' a) (time' b),
    )

-- What the fresh probe and the checkpoint must agree on.
abbrev pub Agrees : ℕ → Checkpoint → FileInfo → Type 0
Agrees total cp info =
    (cp.content_length ≡ pos total)
    × (info.content_length ≡ pos total)
    × (info.accept_ranges ≡ true)
    × SameVersion cp info
    × (cp.total_chunks ≡ pos (length cp.chunks))

-- The test for a checkpoint whose length is known.
pub is_resume_valid-Agrees :
    (cp : Checkpoint) (info : FileInfo) (total : ℕ)
    → 1 ≤ total
    → total < 2 ^ 63
    → cp.content_length ≡ pos total
    → (is_resume_valid cp (some info) ≡ true) ↔ (Agrees total cp info × Cover total 0 0 cp.chunks)
unfolding is_resume_valid
is_resume_valid-Agrees cp info total lo h e = (
  λ ok. (
    (e, ground arith, ground arith, (same_version_iff cp info).0 (ground arith), ground arith),
    states_ok-Cover total 0 0 cp.chunks h (omega arith) (omega arith) (ground arith),
  ),
  λ (a, c).
      let version = (same_version_iff cp info).1 a.3 in
      let some_chunk = Cover-length total cp.chunks lo c in
      let states = Cover-states_ok total 0 0 cp.chunks h (omega arith) (omega arith) c in
      ground arith,
)

pub Tiles-Cover :
    (n total i s : ℕ) (cs : List Chunk)
    → 1 ≤ n
    → Tiles n total i s cs
    → Cover total i s (map (λ ch. some (state_of ch)) cs)
Tiles-Cover n total i s [] h t = t
Tiles-Cover n total i s (c ∷ cs) h (more, e, t) =
    let next = min (s + n) total in
    let last : next - 1 + 1 ≡ next = omega arith in
    (
      next - 1,
      0,
      record {
        index_eq = rw e;
        start_eq = rw e;
        end_eq = rw e;
        downloaded_eq = rw e;
        ordered = omega arith;
        inside = omega arith;
        counted = omega arith;
        whole = rw e (λ c. cc);
      },
      rw last (Tiles-Cover n total (i + 1) next cs h t),
    )

text_eq_refl : (t : Bytes) → text_eq t t ≡ true
text_eq_refl t = (text_eq_iff t t).1 refl

same_version-new :
    (info : FileInfo) (cs : List Chunk) (csize : ℤ)
    → same_version (new_checkpoint info cs csize) info ≡ true
unfolding new_checkpoint same_version
same_version-new info cs csize = elim (Option-cases info.last_modified) [
  | inl e ↦ ground (arith, text_eq_refl (trim_by is_quote info.etag))
  | inr (t, e) ↦ ground (arith, text_eq_refl (trim_by is_quote info.etag), text_eq_refl t)
]

-- A checkpoint made for a new download passes `IsResumeValid` against the probe that it was made
-- from, if the server accepts ranges and the chunks are those of `CalculateChunks`.
pub new_checkpoint-is_resume_valid :
    (info : FileInfo) (total : ℕ) (preferred concurrency : ℤ) (cs : List Chunk)
    → info.content_length ≡ pos total
    → info.accept_ranges ≡ true
    → 1 ≤ total
    → total ≤ 2 ^ 62
    → concurrency ≤ℤ pos (2 ^ 61 - 1)
    → calculate_chunks (pos total) preferred concurrency ≡ some cs
    → is_resume_valid (new_checkpoint info cs preferred) (some info) ≡ true
unfolding new_checkpoint
new_checkpoint-is_resume_valid info total preferred concurrency cs e ranges h1 h2 h3 run =
    let (ds, n, made, lo, tiles) = calculate_chunks-Tiles total preferred concurrency h1 h2 h3 in
    let same : ds ≡ cs = cc in
    let cp = new_checkpoint info cs preferred in
    (is_resume_valid-Agrees cp info total h1 (omega arith) e).1 (
      (
        e,
        e,
        ranges,
        (same_version_iff cp info).0 (same_version-new info cs preferred),
        rw length-map,
      ),
      Tiles-Cover n total 0 0 cs lo (subst (Tiles n total 0 0) same tiles),
    )
