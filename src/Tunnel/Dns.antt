-- ===== src/Tunnel/Dns.antt =====
-- pkg/tunnel/dns.go: the DNS forwarder. The cache is a list of its entries by question, with one
-- entry for a question. Times are seconds; the upstream connection is data.
use files_downloader_golang.Common.{
  ℕ, ◌+◌, ◌*◌, ◌/◌, ◌%◌, Bool, not, ◌||◌, Option, none, some, List, [], ◌∷◌, take, drop, length,
  ◌==◌, ltb, if◌then◌else◌,
}
use files_downloader_golang.Common.Text.{Bytes, text_eq}
use files_downloader_golang.Tunnel.Socks.{read_full}

-- `dnsCacheEntry`, whose `data` is `answer` here.
pub record Entry : Type 0 where
  pub answer : Bytes
  pub expires : ℕ

abbrev pub Cache : Type 0
Cache = List (Bytes × Entry)

unfoldable pub find : Bytes → Cache → Option Entry
find key [] = none
find key ((k, e) ∷ cache) = if text_eq key k then some e else find key cache

unfoldable pub remove : Bytes → Cache → Cache
remove key [] = []
remove key ((k, e) ∷ cache) =
    let rest = remove key cache in if text_eq key k then rest else (k, e) ∷ rest

-- The end of `handleQuery`: a large cache is dropped, and the answer is kept for a minute.
unfoldable pub store : ℕ → Bytes → Bytes → Cache → Cache
unfolding remove
store now key answer cache =
    let base = if ltb 2000 (length cache) then [] else cache in
    (key, record { answer = answer; expires = now + 60 }) ∷ remove key base

-- What becomes of a query: nothing, a panic of the program, or an answer to the client.
pub data Outcome : Type 0 where
  silent panics : Outcome
  sent : Bytes → Outcome

-- `PutUint16(resp[:2], txID)`, which panics on fewer than two bytes.
unfoldable pub put_id : Bytes → Bytes → Outcome
put_id (hi ∷ lo ∷ query) (x ∷ y ∷ answer) = sent (hi ∷ lo ∷ answer)
put_id _ _ = panics

-- The SSH client, its two dials, the write of the request and what the server then sends.
pub record Upstream : Type 0 where
  pub client_ready : Bool
  pub first_dials : Bool
  pub second_dials : Bool
  pub frame_written : Bool
  pub stream : Bytes → Bytes

-- A query behind its length, a uint16.
unfoldable pub frame : Bytes → Bytes
frame query = let n = length query % 65536 in n / 256 ∷ n % 256 ∷ query

-- The frame of the answer behind its length.
unfoldable pub take_answer : Option (Bytes × Bytes) → Option Bytes
unfolding read_full
take_answer (some (hi ∷ lo ∷ [], rest)) =
    let n = hi * 256 + lo in
    if n == 0 || ltb 4096 n
    then none
    else elim (read_full n rest) [ none ↦ none | some (answer, behind) ↦ some answer ]
take_answer _ = none

unfoldable pub ask : Upstream → Bytes → Option Bytes
unfolding take_answer frame read_full
ask up query =
    if not up.client_ready || not (up.first_dials || up.second_dials) || not up.frame_written
    then none
    else take_answer (read_full 2 (up.stream (frame query)))

-- Behind a miss; `later` is the time at which the answer is stored.
abbrev pub keep : ℕ → Bytes → Cache → Option Bytes → Outcome × Cache
keep later key cache none = (silent, cache)
keep later key cache (some answer) = (sent answer, store later key answer cache)

unfoldable pub fetch : Upstream → ℕ → Bytes → Cache → Outcome × Cache
unfolding ask store
fetch up later query cache = keep later (drop 12 query) cache (ask up query)

-- Behind the look into the cache.
unfoldable pub from_cache : Upstream → ℕ → ℕ → Bytes → Cache → Option Entry → Outcome × Cache
unfolding fetch put_id
from_cache up now later query cache none = fetch up later query cache
from_cache up now later query cache (some e) =
    if ltb now e.expires then (put_id query e.answer, cache) else fetch up later query cache

-- `handleQuery`, on a query of 12 bytes or more.
unfoldable pub handle_query : Upstream → ℕ → ℕ → Bytes → Cache → Outcome × Cache
unfolding from_cache find
handle_query up now later query cache =
    from_cache up now later query cache (find (drop 12 query) cache)

-- What `serveLoop` hands on of a datagram.
unfoldable pub received : Bytes → Option Bytes
received packet = let query = take 2048 packet in if ltb (length query) 12 then none else some query
