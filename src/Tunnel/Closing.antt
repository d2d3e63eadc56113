-- ===== src/Tunnel/Closing.antt =====
-- Which connections of the SOCKS5 server are closed.
use files_downloader_golang.Common.{
  ℕ, ◌≡◌, refl, ap, sym, ◌∙◌, subst, Bool, true, false, not, ◌||◌, List, [], ◌∷◌, arith, ◌==◌,
  if◌then◌else◌, if_split,
}
use files_downloader_golang.Tunnel.Registry.{
  Stage, unknown, accepted, handled, deleted, over, accepts, registers, hangs_up, deletes, finishes,
  sets_closed, sweeps, Server, new_server, ServerEvent, put, is_unknown, accept, register_at,
  hang_up_at, delete_at, finish_at, sweep, step_server, run_server,
}

-- What is so of a connection at its stage, by whether its handler has closed it: is it registered,
-- and is it closed?
abbrev Kept : Bool → Bool → Stage → Bool → Bool → Type 0
Kept swept hung unknown registered shut = (registered ≡ false) × (shut ≡ false) × (hung ≡ false)
Kept swept hung accepted registered shut = (registered ≡ false) × (shut ≡ false) × (hung ≡ false)
Kept swept hung handled registered shut = (registered ≡ not swept) × (shut ≡ swept || hung)
Kept swept hung deleted registered shut = registered ≡ false
Kept swept hung over registered shut = (registered ≡ false) × (shut ≡ true)

abbrev KeptAt : Server → ℕ → Type 0
KeptAt s c = Kept s.swept (s.hung_up c) (s.stage c) (s.registered c) (s.shut c)

record Guarded (s : Server) : Type 0 where
  pub flagged : s.swept ≡ true → s.closed ≡ true
  pub kept : (c : ℕ) → KeptAt s c

-- What changes of one connection: the stage, or that and the rest.
stage_put :
    (swept u same : Bool) (p q : Stage) (b h : Bool)
    → (same ≡ true → Kept swept u p b h)
    → Kept swept u q b h
    → Kept swept u (if same then p else q) b h
stage_put swept u true p q b h new old = new refl
stage_put swept u false p q b h new old = old

shut_put :
    (swept u same : Bool) (p q : Stage) (b h : Bool)
    → (same ≡ true → Kept swept u p b true)
    → Kept swept u q b h
    → Kept swept u (if same then p else q) b (if same then true else h)
shut_put swept u true p q b h new old = new refl
shut_put swept u false p q b h new old = old

registered_put :
    (swept u same : Bool) (p q : Stage) (v b h : Bool)
    → (same ≡ true → Kept swept u p v h)
    → Kept swept u q b h
    → Kept swept u (if same then p else q) (if same then v else b) h
registered_put swept u true p q v b h new old = new refl
registered_put swept u false p q v b h new old = old

hung_put :
    (swept u same : Bool) (q : Stage) (b h : Bool)
    → (same ≡ true → Kept swept true q b true)
    → Kept swept u q b h
    → Kept swept (if same then true else u) q b (if same then true else h)
hung_put swept u true q b h new old = new refl
hung_put swept u false q b h new old = old

-- What is kept of connection `d`, if it is the one at stage `p`.
same-Kept :
    (c d : ℕ) (p : Stage) (s : Server)
    → s.stage c ≡ p
    → Guarded s
    → d == c ≡ true
    → Kept s.swept (s.hung_up d) p (s.registered d) (s.shut d)
same-Kept c d p s e g same =
    let d_is_c : d ≡ c = ground arith in
    subst (λ q. Kept s.swept (s.hung_up d) q (s.registered d) (s.shut d)) (ap s.stage d_is_c ∙ e)
      (g.kept d)

accept_at-Guarded :
    (c : ℕ) (s : Server) (p : Stage)
    → s.stage c ≡ p
    → Guarded s
    → Guarded (if is_unknown p then record s { stage = put c accepted s.stage } else s)
accept_at-Guarded c s unknown e g = record {
  flagged = g.flagged;
  kept = λ d.
      stage_put s.swept (s.hung_up d) (d == c) accepted (s.stage d) (s.registered d) (s.shut d)
        (same-Kept c d unknown s e g) (g.kept d);
}
accept_at-Guarded c s accepted e g = g
accept_at-Guarded c s handled e g = g
accept_at-Guarded c s deleted e g = g
accept_at-Guarded c s over e g = g

open-Kept :
    (swept closed u b h : Bool)
    → closed ≡ false
    → (swept ≡ true → closed ≡ true)
    → Kept swept u accepted b h
    → Kept swept u handled true h
open-Kept true closed u b h o flagged (r, k, n) = absurd (ground (arith, flagged refl))
open-Kept false closed u b h o flagged (r, k, n) = (refl, ground arith)

register_at-Guarded :
    (c : ℕ) (s : Server) (p : Stage) → s.stage c ≡ p → Guarded s → Guarded (register_at c p s)
unfolding register_at
register_at-Guarded c s accepted e g =
    if_split Guarded s.closed
      (λ t. record {
        flagged = g.flagged;
        kept = λ d.
            shut_put s.swept (s.hung_up d) (d == c) over (s.stage d) (s.registered d) (s.shut d)
              (λ same. ((same-Kept c d accepted s e g same).0, refl)) (g.kept d);
      })
      (λ f. record {
        flagged = g.flagged;
        kept = λ d.
            registered_put s.swept (s.hung_up d) (d == c) handled (s.stage d) true (s.registered d)
              (s.shut d)
              (λ same.
                open-Kept s.swept s.closed (s.hung_up d) (s.registered d) (s.shut d) f g.flagged
                  (same-Kept c d accepted s e g same))
              (g.kept d);
      })
register_at-Guarded c s unknown e g = g
register_at-Guarded c s handled e g = g
register_at-Guarded c s deleted e g = g
register_at-Guarded c s over e g = g

hung-Kept :
    (swept u : Bool) (p : Stage) (b h : Bool)
    → p ≡ handled
    → Kept swept u handled b h
    → Kept swept true p b true
hung-Kept swept u p b h e (r, k) = subst (λ q. Kept swept true q b true) (sym e) (r, ground arith)

hang_up_at-Guarded :
    (c : ℕ) (s : Server) (p : Stage) → s.stage c ≡ p → Guarded s → Guarded (hang_up_at c p s)
unfolding hang_up_at
hang_up_at-Guarded c s handled e g = record {
  flagged = g.flagged;
  kept = λ d.
      hung_put s.swept (s.hung_up d) (d == c) (s.stage d) (s.registered d) (s.shut d)
        (λ same.
          let d_is_c : d ≡ c = ground arith in
          hung-Kept s.swept (s.hung_up d) (s.stage d) (s.registered d) (s.shut d)
            (ap s.stage d_is_c ∙ e) (same-Kept c d handled s e g same))
        (g.kept d);
}
hang_up_at-Guarded c s unknown e g = g
hang_up_at-Guarded c s accepted e g = g
hang_up_at-Guarded c s deleted e g = g
hang_up_at-Guarded c s over e g = g

delete_at-Guarded :
    (c : ℕ) (s : Server) (p : Stage) → s.stage c ≡ p → Guarded s → Guarded (delete_at c p s)
unfolding delete_at
delete_at-Guarded c s handled e g = record {
  flagged = g.flagged;
  kept = λ d.
      registered_put s.swept (s.hung_up d) (d == c) deleted (s.stage d) false (s.registered d)
        (s.shut d) (λ same. refl) (g.kept d);
}
delete_at-Guarded c s unknown e g = g
delete_at-Guarded c s accepted e g = g
delete_at-Guarded c s deleted e g = g
delete_at-Guarded c s over e g = g

finish_at-Guarded :
    (c : ℕ) (s : Server) (p : Stage) → s.stage c ≡ p → Guarded s → Guarded (finish_at c p s)
unfolding finish_at
finish_at-Guarded c s deleted e g = record {
  flagged = g.flagged;
  kept = λ d.
      shut_put s.swept (s.hung_up d) (d == c) over (s.stage d) (s.registered d) (s.shut d)
        (λ same. (same-Kept c d deleted s e g same, refl)) (g.kept d);
}
finish_at-Guarded c s unknown e g = g
finish_at-Guarded c s accepted e g = g
finish_at-Guarded c s handled e g = g
finish_at-Guarded c s over e g = g

swept-Kept :
    (swept u : Bool) (p : Stage) (b h : Bool) → Kept swept u p b h → Kept true u p false (b || h)
swept-Kept swept u unknown b h (r, k, n) = (refl, ground (arith, r, k), n)
swept-Kept swept u accepted b h (r, k, n) = (refl, ground (arith, r, k), n)
swept-Kept true u handled b h (r, k) = (refl, ground (arith, r, k))
swept-Kept false u handled b h (r, k) = (refl, ground (arith, r, k))
swept-Kept swept u deleted b h r = refl
swept-Kept swept u over b h (r, k) = (refl, ground (arith, r, k))

sweep-Guarded : (s : Server) → Guarded s → Guarded (sweep s)
unfolding sweep
sweep-Guarded s g =
    if_split Guarded s.closed
      (λ t. record {
        flagged = λ e. t;
        kept = λ c.
            swept-Kept s.swept (s.hung_up c) (s.stage c) (s.registered c) (s.shut c) (g.kept c);
      })
      (λ f. g)

step_server-Guarded : (e : ServerEvent) (s : Server) → Guarded s → Guarded (step_server e s)
unfolding step_server accept
step_server-Guarded (accepts c) s g = accept_at-Guarded c s (s.stage c) refl g
step_server-Guarded (registers c) s g = register_at-Guarded c s (s.stage c) refl g
step_server-Guarded (hangs_up c) s g = hang_up_at-Guarded c s (s.stage c) refl g
step_server-Guarded (deletes c) s g = delete_at-Guarded c s (s.stage c) refl g
step_server-Guarded (finishes c) s g = finish_at-Guarded c s (s.stage c) refl g
step_server-Guarded sets_closed s g = record { flagged = λ e. refl; kept = g.kept }
step_server-Guarded sweeps s g = sweep-Guarded s g

run_server-Guarded :
    (events : List ServerEvent) (s : Server) → Guarded s → Guarded (run_server events s)
unfolding run_server
run_server-Guarded [] s g = g
run_server-Guarded (e ∷ events) s g =
    run_server-Guarded events (step_server e s) (step_server-Guarded e s g)

-- When is a connection closed, at its stage?
abbrev pub ShutAs : Server → ℕ → Stage → Type 0
ShutAs s c unknown = s.shut c ≡ false
ShutAs s c accepted = s.shut c ≡ false
ShutAs s c handled = s.shut c ≡ s.swept || s.hung_up c
ShutAs s c deleted = s.registered c ≡ false
ShutAs s c over = s.shut c ≡ true

Kept-ShutAs :
    (s : Server) (c : ℕ) (p : Stage)
    → Kept s.swept (s.hung_up c) p (s.registered c) (s.shut c)
    → ShutAs s c p
Kept-ShutAs s c unknown (r, k, n) = k
Kept-ShutAs s c accepted (r, k, n) = k
Kept-ShutAs s c handled (r, k) = k
Kept-ShutAs s c deleted r = r
Kept-ShutAs s c over (r, k) = k

-- In any order of accepting and registering connections, of the handlers' own closing, of the two
-- steps of the function behind a handler and of the steps of `Close`, a connection whose handler
-- runs is closed exactly if `Close` has been through the registered ones or its handler has closed
-- it; one that is accepted and not yet registered is open, and one that is over is closed. Between
-- the two steps of the function behind the handler a connection is not registered, and nothing is
-- said of its being closed.
pub run_server_closes :
    (events : List ServerEvent) (c : ℕ)
    → ShutAs (run_server events new_server) c ((run_server events new_server).stage c)
run_server_closes events c =
    let g =
      run_server-Guarded events new_server
        (record { flagged = λ e. absurd cc; kept = λ d. (refl, refl, refl) }) in
    let s = run_server events new_server in Kept-ShutAs s c (s.stage c) (g.kept c)
