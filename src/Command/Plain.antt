-- ===== src/Command/Plain.antt =====
-- runServe of cmd/webguard-instance/main.go for a service that is no execution controller: the goroutine
-- that shuts down stops the dispatch and the health server without a drain. What this goroutine changes is
-- all that is modelled here; the scheduler and the health server are those of Command.
use webguard_instance.Base.{
  if_some, Bool, true, false, Option, none, some, ◌≡◌, refl, sym, ◌∙◌, subst, arith, if◌then◌else◌,
}

pub data PlainStage : Type 0 where
  waiting stopping_dispatch stopping_health ended : PlainStage

pub record PlainServer : Type 0 where
  pub stage : PlainStage
  pub signaled : Bool
  pub dispatch_done : Bool
  pub health_done : Bool

abbrev pub new_plain_server : PlainServer
new_plain_server = record {
  stage = waiting;
  signaled = false;
  dispatch_done = false;
  health_done = false;
}

abbrev plain_readiness : Bool → PlainServer → Bool
plain_readiness config_ready s = config_ready

unfoldable pub plain_shutdown_at : PlainStage → PlainServer → Option PlainServer
plain_shutdown_at waiting s =
    if s.signaled then some (record s { stage = stopping_dispatch }) else none
plain_shutdown_at stopping_dispatch s =
    some (record s { dispatch_done = true; stage = stopping_health })
plain_shutdown_at stopping_health s = some (record s { health_done = true; stage = ended })
plain_shutdown_at ended s = none

pub data PlainMove : PlainServer → PlainServer → Type 0 where
  signals : (s : PlainServer) → PlainMove s (record s { signaled = true })
  shuts_down : (s u : PlainServer) → plain_shutdown_at s.stage s ≡ some u → PlainMove s u

pub data PlainMoves (s : PlainServer) : PlainServer → Type 0 where
  starts : PlainMoves s s
  moves : {t u : PlainServer} → PlainMoves s t → PlainMove t u → PlainMoves s u

abbrev past_signal : PlainStage → Bool
past_signal waiting = false
past_signal _ = true

abbrev past_dispatch : PlainStage → Bool
past_dispatch stopping_health = true
past_dispatch ended = true
past_dispatch _ = false

abbrev past_health : PlainStage → Bool
past_health ended = true
past_health _ = false

-- The contexts at a stage of the shutdown.
record IsPlain (g : PlainStage) (s : PlainServer) : Type 0 where
  pub signal : past_signal g ≡ true → s.signaled ≡ true
  pub dispatch : s.dispatch_done ≡ past_dispatch g
  pub health : s.health_done ≡ past_health g

plain_shutdown_at-IsPlain :
    (g : PlainStage) (s u : PlainServer)
    → plain_shutdown_at g s ≡ some u
    → IsPlain g s
    → IsPlain u.stage u
unfolding plain_shutdown_at
plain_shutdown_at-IsPlain waiting s u h p =
    let next : s.signaled ≡ true
        → IsPlain stopping_dispatch (record s { stage = stopping_dispatch }) =
      λ e. record { signal = λ g. e; dispatch = p.dispatch; health = p.health } in
    let (e, same) = if_some s.signaled (record s { stage = stopping_dispatch }) u h in
    subst (λ (v : PlainServer). IsPlain v.stage v) same (next e)
plain_shutdown_at-IsPlain stopping_dispatch s u h p =
    let next : IsPlain stopping_health
        (record s { dispatch_done = true; stage = stopping_health }) =
      record { signal = λ g. p.signal refl; dispatch = refl; health = p.health } in
    subst (λ (v : PlainServer). IsPlain v.stage v) (cc (h)) next
plain_shutdown_at-IsPlain stopping_health s u h p =
    let next : IsPlain ended (record s { health_done = true; stage = ended }) = record {
      signal = λ g. p.signal refl;
      dispatch = p.dispatch;
      health = refl;
    } in
    subst (λ (v : PlainServer). IsPlain v.stage v) (cc (h)) next
plain_shutdown_at-IsPlain ended s u h p = absurd (ground arith)

PlainMoves-IsPlain : {u : PlainServer} → PlainMoves new_plain_server u → IsPlain u.stage u
PlainMoves-IsPlain starts = record {
  signal = λ h. absurd (ground arith);
  dispatch = refl;
  health = refl;
}
PlainMoves-IsPlain (moves before (signals s)) =
    let p = PlainMoves-IsPlain before in
    record { signal = λ h. refl; dispatch = p.dispatch; health = p.health }
PlainMoves-IsPlain (moves before (shuts_down s u h)) =
    plain_shutdown_at-IsPlain s.stage s u h (PlainMoves-IsPlain before)

-- The health server is stopped only after the dispatch, and the dispatch only after a signal.
plain_shutdown_orderly :
    (s : PlainServer)
    → PlainMoves new_plain_server s
    → (s.health_done ≡ true → s.dispatch_done ≡ true) × (s.dispatch_done ≡ true → s.signaled ≡ true)
plain_shutdown_orderly s reached =
    let p = PlainMoves-IsPlain reached in
    (λ h. ordered s.stage p.health p.dispatch h, λ h. p.signal (early s.stage (sym p.dispatch ∙ h)))
  where
    ordered :
        (g : PlainStage)
        → s.health_done ≡ past_health g
        → s.dispatch_done ≡ past_dispatch g
        → s.health_done ≡ true
        → s.dispatch_done ≡ true
    ordered g h d e = ground arith

    early : (g : PlainStage) → past_dispatch g ≡ true → past_signal g ≡ true
    early g h = ground arith
