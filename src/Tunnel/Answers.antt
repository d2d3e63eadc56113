-- ===== src/Tunnel/Answers.antt =====
-- What the DNS forwarder answers, and what it keeps.
use files_downloader_golang.Common.{
  ℕ, suc, ◌+◌, ◌≤◌, ◌<◌, ◌≡◌, refl, sym, ap, ◌∙◌, subst, ◌⊎◌, inl, inr, Bool, true, Option, none,
  some, List, [], ◌∷◌, drop, length, arith, ltb, if◌then◌else◌, if_split, if_case,
}
use files_downloader_golang.Common.Text.{Bytes, text_eq, text_eq_iff}
use files_downloader_golang.Tunnel.Dns.{
  Entry, Cache, find, remove, store, Outcome, silent, panics, sent, put_id, Upstream, ask, keep,
  fetch, from_cache, handle_query,
}

-- An answer that was stored: when, for which question, and what it was.
pub record Put : Type 0 where
  pub time : ℕ
  pub key : Bytes
  pub answer : Bytes

-- The cache after the answers were stored, the latest first: the order in which the goroutines of
-- the queries came to it.
abbrev pub after_puts : List Put → Cache
after_puts [] = []
after_puts (p ∷ puts) = store p.time p.key p.answer (after_puts puts)

abbrev pub Among : Put → List Put → Type 0
Among p [] = ⊥
Among p (q ∷ puts) = (p ≡ q) ⊎ Among p puts

-- The entry comes from a stored answer for the question.
abbrev FromPut : List Put → Bytes → Entry → Type 0
FromPut puts key e =
    (p : Put) × Among p puts × (p.key ≡ key) × (p.answer ≡ e.answer) × (e.expires ≡ p.time + 60)

abbrev AllFrom : List Put → Cache → Type 0
AllFrom puts [] = Unit
AllFrom puts ((k, e) ∷ cache) = FromPut puts k e × AllFrom puts cache

later-AllFrom :
    (p : Put) (puts : List Put) (cache : Cache) → AllFrom puts cache → AllFrom (p ∷ puts) cache
later-AllFrom p puts [] f = tt
later-AllFrom p puts ((k, e) ∷ cache) ((q, among, key, answer, time), rest) =
    ((q, inr among, key, answer, time), later-AllFrom p puts cache rest)

remove-AllFrom :
    (puts : List Put) (key : Bytes) (cache : Cache)
    → AllFrom puts cache
    → AllFrom puts (remove key cache)
unfolding remove
remove-AllFrom puts key [] f = tt
remove-AllFrom puts key ((k, e) ∷ cache) (now, rest) =
    let later = remove-AllFrom puts key cache rest in
    if_case (AllFrom puts) (text_eq key k) later (now, later)

after_puts-AllFrom : (puts : List Put) → AllFrom puts (after_puts puts)
unfolding store
after_puts-AllFrom [] = tt
after_puts-AllFrom (p ∷ puts) =
    let before = later-AllFrom p puts (after_puts puts) (after_puts-AllFrom puts) in
    (
      (p, inl refl, refl, refl, refl),
      remove-AllFrom (p ∷ puts) p.key _
          (if_case (AllFrom (p ∷ puts)) (ltb 2000 (length (after_puts puts))) tt before),
    )

-- What was found is there, for the question asked.
abbrev Found : List Put → Bytes → Option Entry → Type 0
Found puts key none = Unit
Found puts key (some e) = FromPut puts key e

find-Found :
    (puts : List Put) (key : Bytes) (cache : Cache)
    → AllFrom puts cache
    → Found puts key (find key cache)
unfolding find
find-Found puts key [] f = tt
find-Found puts key ((k, e) ∷ cache) (now, rest) =
    if_split (Found puts key) (text_eq key k)
      (λ same. subst (λ q. FromPut puts q e) (sym ((text_eq_iff key k).0 same)) now)
      (λ other. find-Found puts key cache rest)

-- The answer `a` is a new one from upstream, or one that was stored for the same question less than
-- a minute before, under the client's transaction id.
abbrev pub Right : List Put → Upstream → ℕ → Bytes → Bytes → Type 0
Right puts up now query a =
    (ask up query ≡ some a)
    ⊎ ((p : Put) × Among p puts
        × (p.key ≡ drop 12 query)
        × (now < p.time + 60)
        × (put_id query p.answer ≡ sent a))

abbrev Answers : List Put → Upstream → ℕ → Bytes → Outcome → Type 0
Answers puts up now query silent = Unit
Answers puts up now query panics = Unit
Answers puts up now query (sent a) = Right puts up now query a

fetch-Answers :
    (puts : List Put) (up : Upstream) (now later : ℕ) (query : Bytes) (cache : Cache)
    (o : Option Bytes)
    → ask up query ≡ o
    → Answers puts up now query (keep later (drop 12 query) cache o).0
fetch-Answers puts up now later query cache none e = tt
fetch-Answers puts up now later query cache (some a) e = inl e

hit-Answers :
    (puts : List Put) (up : Upstream) (now : ℕ) (query : Bytes) (e : Entry) (o : Outcome)
    → FromPut puts (drop 12 query) e
    → now < e.expires
    → put_id query e.answer ≡ o
    → Answers puts up now query o
hit-Answers puts up now query e silent f lt q = tt
hit-Answers puts up now query e panics f lt q = tt
hit-Answers puts up now query e (sent a) (p, among, key, answer, time) lt q =
    inr (p, among, key, omega arith, ap (put_id query) answer ∙ q)

found-Answers :
    (puts : List Put) (up : Upstream) (now later : ℕ) (query : Bytes) (cache : Cache)
    (o : Option Entry)
    → Found puts (drop 12 query) o
    → Answers puts up now query (from_cache up now later query cache o).0
unfolding fetch from_cache
found-Answers puts up now later query cache none f =
    fetch-Answers puts up now later query cache (ask up query) refl
found-Answers puts up now later query cache (some e) f =
    if_split (λ (r : Outcome × Cache). Answers puts up now query r.0) (ltb now e.expires)
      (λ t. hit-Answers puts up now query e (put_id query e.answer) f (ground arith) refl)
      (λ t. fetch-Answers puts up now later query cache (ask up query) refl)

-- Whatever answers were stored before, in whatever order, an answer that is sent to a client is the
-- one that upstream gives to the query now, or, but for the transaction id, which is the client's,
-- one that was stored for the same question less than 60 seconds before.
pub handle_query_answers :
    (puts : List Put) (up : Upstream) (now later : ℕ) (query a : Bytes)
    → (handle_query up now later query (after_puts puts)).0 ≡ sent a
    → Right puts up now query a
unfolding handle_query
handle_query_answers puts up now later query a e = subst (Answers puts up now query) e (
    found-Answers puts up now later query (after_puts puts) _
      (find-Found puts (drop 12 query) (after_puts puts) (after_puts-AllFrom puts)))

length-remove : (key : Bytes) (cache : Cache) → length (remove key cache) ≤ length cache
unfolding remove
length-remove key [] = omega arith
length-remove key ((k, e) ∷ cache) =
    let rest = length-remove key cache in
    if_case (λ (c : Cache). length c ≤ suc (length cache)) (text_eq key k) (omega arith)
      (omega arith)

-- The cache never has more than 2001 entries.
pub after_puts_bounded : (puts : List Put) → length (after_puts puts) ≤ 2001
unfolding store
after_puts_bounded [] = omega arith
after_puts_bounded (p ∷ puts) =
    let before = after_puts puts in
    if_split (λ (c : Cache). suc (length (remove p.key c)) ≤ 2001) (ltb 2000 (length before))
      (λ t. omega (arith, length-remove p.key []))
      (λ f.
        let few : length before ≤ 2000 = ground arith in omega (arith, length-remove p.key before))

text_eq_refl : (t : Bytes) → text_eq t t ≡ true
text_eq_refl t = (text_eq_iff t t).1 refl

put_id-short : (query : Bytes) (x : ℕ) → put_id query (x ∷ []) ≡ panics
unfolding put_id
put_id-short [] x = refl
put_id-short (h ∷ []) x = refl
put_id-short (h ∷ l ∷ query) x = refl

find-store :
    (now : ℕ) (key answer : Bytes) (cache : Cache)
    → find key (store now key answer cache) ≡ some (record { answer = answer; expires = now + 60 })
unfolding store find
find-store now key answer cache = rw (text_eq_refl key) refl

missed :
    (up : Upstream) (now later : ℕ) (query answer : Bytes) (cache : Cache)
    → find (drop 12 query) cache ≡ none
    → ask up query ≡ some answer
    → handle_query up now later query cache
      ≡ (sent answer, store later (drop 12 query) answer cache)
unfolding handle_query from_cache fetch
missed up now later query answer cache miss answered =
    ap (from_cache up now later query cache) miss ∙ ap (keep later (drop 12 query) cache) answered

hit_at :
    (up : Upstream) (now later : ℕ) (query : Bytes) (e : Entry) (cache : Cache)
    → find (drop 12 query) cache ≡ some e
    → now < e.expires
    → handle_query up now later query cache ≡ (put_id query e.answer, cache)
unfolding handle_query from_cache
hit_at up now later query e cache found lt =
    let fresh : ltb now e.expires ≡ true = ground arith in
    ap (from_cache up now later query cache) found
    ∙ ap (λ (b : Bool). if b then (put_id query e.answer, cache) else fetch up later query cache)
        fresh

-- An answer of one byte, which upstream gives to a query that is not cached, is stored; and the
-- next query with the same question within the minute makes the program panic.
pub short_answer_panics :
    (up up' : Upstream) (now later now' later' x : ℕ) (query query' : Bytes) (cache : Cache)
    → find (drop 12 query) cache ≡ none
    → ask up query ≡ some (x ∷ [])
    → drop 12 query' ≡ drop 12 query
    → now' < later + 60
    → (handle_query up' now' later' query' (handle_query up now later query cache).1).0 ≡ panics
short_answer_panics up up' now later now' later' x query query' cache miss answered same soon =
    let stored = store later (drop 12 query) (x ∷ []) cache in
    let first = missed up now later query (x ∷ []) cache miss answered in
    let found = ap (λ k. find k stored) same ∙ find-store later (drop 12 query) (x ∷ []) cache in
    ap (λ (r : Outcome × Cache). (handle_query up' now' later' query' r.1).0) first
    ∙ ap (λ (r : Outcome × Cache). r.0)
        (hit_at up' now' later' query' (record { answer = x ∷ []; expires = later + 60 }) stored
          found soon)
    ∙ put_id-short query' x
