-- ===== src/Sink/Table.antt =====
-- The table of the chunks: what holds of each, and what replacing one changes.
use native.Mathlib.Decide.{dec_le}
use files_downloader_golang.Common.{
  ℕ, zero, suc, ◌+◌, ◌-◌, ◌≤◌, ◌<◌, ◌≡◌, refl, sym, subst, ◌∙◌, ap, true, Option, some, List, [],
  ◌∷◌, get_elem?, set, ◌==◌, if◌then◌else◌, arith,
}
use files_downloader_golang.Common.Int.{pos, pos_part}
use files_downloader_golang.Chunk.{Chunk}
use files_downloader_golang.Checkpoint.{state_of}
use files_downloader_golang.Checkpoint.Validity.{Covers, Cover}
use files_downloader_golang.Checkpoint.Progress.{states_of, held}
use files_downloader_golang.Worker.Frame.{Framed}

-- What the table shows of one chunk.
abbrev pub Placed : ℕ → Chunk → Type 0
Placed total c = (i : ℕ) × (s : ℕ) × (e : ℕ) × (d : ℕ) × Covers total i s e d (state_of c)

pub some-injective {ℓ} : {A : Type ℓ} {x c : A} → ◌≡◌ {A = Option A} (some x) (some c) → x ≡ c
some-injective h = cc

pub get_elem?-Placed :
    (total i s k : ℕ) (cs : List Chunk) {c : Chunk}
    → Cover total i s (states_of cs)
    → get_elem? cs k ≡ some c
    → Placed total c
get_elem?-Placed total i s k [] cover found = absurd cc
get_elem?-Placed total i s zero (x ∷ cs) (e, d, covers, rest) found =
    (i, s, e, d, subst (λ y. Covers total i s e d (state_of y)) (some-injective found) covers)
get_elem?-Placed total i s (suc k) (x ∷ cs) (e, d, covers, rest) found =
    get_elem?-Placed total (i + 1) (e + 1) k cs rest found

-- Every byte of the file lies in some chunk.
pub locate :
    (total i s x : ℕ) (cs : List Chunk)
    → Cover total i s (states_of cs)
    → s ≤ x
    → x < total
    → (k : ℕ) × (c : Chunk) × (b : ℕ) × (e : ℕ) × (get_elem? cs k ≡ some c)
      × (c.start ≡ pos b)
      × (c.end ≡ pos e)
      × (b ≤ x)
      × (x ≤ e)
locate total i s x [] cover lo hi = absurd (omega arith)
locate total i s x (c ∷ cs) (e, d, covers, rest) lo hi = elim (dec_le x e) [
  | yes in_here ↦ (0, c, s, e, refl, covers.start_eq, covers.end_eq, lo, in_here)
  | no behind ↦
      let (k, c', b, e', found, s_eq, e_eq, le, le') =
        locate total (i + 1) (e + 1) x cs rest (omega arith) hi in
      (suc k, c', b, e', found, s_eq, e_eq, le, le')
]

pub set-Cover :
    (total i s k a b d : ℕ) (cs : List Chunk) {c : Chunk} (c' : Chunk)
    → Cover total i s (states_of cs)
    → get_elem? cs k ≡ some c
    → Framed c c'
    → c'.downloaded ≡ pos d
    → c.start ≡ pos a
    → c.end ≡ pos b
    → d ≤ b + 1 - a
    → (c'.completed ≡ true → d ≡ b + 1 - a)
    → Cover total i s (states_of (set cs k c'))
set-Cover total i s k a b d [] c' cover found f d_eq s_eq e_eq le whole = absurd cc
set-Cover total i s zero a b d (x ∷ cs) {c} c' (e, d', covers, rest) found f d_eq s_eq e_eq le
      whole =
    let same : x ≡ c = some-injective found in
    let s_same : s ≡ a = ground arith in
    let e_same : e ≡ b = ground arith in
    (
      e,
      d,
      record {
        index_eq = f.index_eq ∙ ap (λ (y : Chunk). y.index) (sym same) ∙ covers.index_eq;
        start_eq = f.start_eq ∙ ap (λ (y : Chunk). y.start) (sym same) ∙ covers.start_eq;
        end_eq = f.end_eq ∙ ap (λ (y : Chunk). y.end) (sym same) ∙ covers.end_eq;
        downloaded_eq = d_eq;
        ordered = covers.ordered;
        inside = covers.inside;
        counted = omega arith;
        whole = λ h. let all = whole h in omega arith;
      },
      rest,
    )
set-Cover total i s (suc k) a b d (x ∷ cs) c' (e, d', covers, rest) found f d_eq s_eq e_eq le
      whole =
    (
      e,
      d',
      covers,
      set-Cover total (i + 1) (e + 1) k a b d cs c' rest found f d_eq s_eq e_eq le whole,
    )

pub held-set :
    (k : ℕ) (cs : List Chunk) {c : Chunk} (c' : Chunk)
    → get_elem? cs k ≡ some c
    → held (set cs k c') + pos_part c.downloaded ≡ held cs + pos_part c'.downloaded
held-set k [] c' found = absurd cc
held-set zero (x ∷ cs) c' found =
    omega (arith, ap (λ (y : Chunk). pos_part y.downloaded) (some-injective found))
held-set (suc k) (x ∷ cs) c' found = omega (arith, held-set k cs c' found)

pub get_elem?-set :
    (i k : ℕ) (cs : List Chunk) {c : Chunk} (c' : Chunk)
    → get_elem? cs i ≡ some c
    → get_elem? (set cs i c') k ≡ (if i == k then some c' else get_elem? cs k)
get_elem?-set i k [] c' found = absurd cc
get_elem?-set zero zero (x ∷ cs) c' found = refl
get_elem?-set zero (suc k) (x ∷ cs) c' found = ground arith
get_elem?-set (suc i) zero (x ∷ cs) c' found = ground arith
get_elem?-set (suc i) (suc k) (x ∷ cs) c' found = get_elem?-set i k cs c' found ∙ ground arith
