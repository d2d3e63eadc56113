-- ===== src/Stream/Reach.antt =====
-- Induction on the steps of the stream.
use files_downloader_golang.Common.{
  Bool, true, false, if◌then◌else◌, ℕ, ◌≡◌, refl, subst, List, [], ◌∷◌,
}
use files_downloader_golang.Common.Int.{ℤ}
use files_downloader_golang.Stream.{
  ChunkResult, Stream, Next, running, blocked, panicked, Event, step, Reaches, here, by_step,
}

-- The state that a step leaves, where it leaves one, satisfies `P`.
abbrev pub Leaves : (Stream → Type 0) → Next → Type 0
Leaves P (running s) = P s
Leaves P blocked = Unit
Leaves P panicked = Unit

-- A goroutine that is asleep takes no step.
pub awake-Leaves :
    (P : Stream → Type 0) (asleep : Bool) (n : Next)
    → Leaves P n
    → Leaves P (if asleep then blocked else n)
awake-Leaves P true n p = tt
awake-Leaves P false n p = p

pub Reaches-Leaves :
    (count : ℕ) (window : ℤ) (result : ℕ → ChunkResult) (P : Stream → Type 0) (s : Stream)
    → ((e : Event) (t : Stream)
        → Reaches count window result s t
        → P t
        → Leaves P (step count window result e t))
    → (u : Stream) → P s
    → Reaches count window result s u
    → P u
Reaches-Leaves count window result P s kept u p here = p
Reaches-Leaves count window result P s kept u p (by_step e r runs) =
    subst (Leaves P) runs (kept e _ r (Reaches-Leaves count window result P s kept _ p r))

-- The steps of the events in a list, the latest first.
abbrev pub go_on : (Stream → Next) → Next → Next
go_on f (running s) = f s
go_on f blocked = blocked
go_on f panicked = panicked

abbrev pub steps : ℕ → ℤ → (ℕ → ChunkResult) → List Event → Stream → Next
steps count window result [] s = running s
steps count window result (e ∷ es) s =
    go_on (step count window result e) (steps count window result es s)

running-injective : (s u : Stream) → running s ≡ running u → s ≡ u
running-injective s u e = cc

go_on-Reaches :
    (count : ℕ) (window : ℤ) (result : ℕ → ChunkResult) (e : Event) (s u : Stream) (before : Next)
    → ((t : Stream) → before ≡ running t → Reaches count window result s t)
    → go_on (step count window result e) before ≡ running u
    → Reaches count window result s u
go_on-Reaches count window result e s u (running t) k runs = by_step e (k t refl) runs
go_on-Reaches count window result e s u blocked k runs = absurd cc
go_on-Reaches count window result e s u panicked k runs = absurd cc

pub steps-Reaches :
    (count : ℕ) (window : ℤ) (result : ℕ → ChunkResult) (es : List Event) (s u : Stream)
    → steps count window result es s ≡ running u
    → Reaches count window result s u
steps-Reaches count window result [] s u runs =
    subst (Reaches count window result s) (running-injective s u runs) here
steps-Reaches count window result (e ∷ es) s u runs =
    go_on-Reaches count window result e s u (steps count window result es s)
      (λ t before. steps-Reaches count window result es s t before) runs
