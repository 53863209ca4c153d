-- ===== src/Reconciler/Loop/Terms.antt =====
-- The terms of leadership: what was queued in a term that is over is never handled.
use nstance.Base.{
  ℕ, ◌+◌, ◌≤◌, ◌<◌, ◌≡◌, refl, sym, subst, ap, ◌∙◌, true, false, List, [], ◌∷◌, arith, nat_eq, All,
  length,
}
use nstance.Reconciler.{QueuedEvent, World, Env}
use nstance.Reconciler.Expiry.{stop_all_expiry_timers}
use nstance.Reconciler.Loop.{start, stop, loop_once, run}

-- The events belong to no later term than the one given, or to earlier ones.
abbrev pub NoLater : ℕ → List QueuedEvent → Type 0
NoLater term = All (λ (q : QueuedEvent). q.term ≤ term)

abbrev Earlier : ℕ → List QueuedEvent → Type 0
Earlier term = All (λ (q : QueuedEvent). q.term < term)

earlier : (a b : ℕ) → a < b → (qs : List QueuedEvent) → NoLater a qs → Earlier b qs
earlier a b lt [] h = h
earlier a b lt (q ∷ qs) h = let first = h.0 in (ground arith, earlier a b lt qs h.1)

differs : (a b : ℕ) → a < b → nat_eq a b ≡ false
differs a b h = ground arith

loop_once-drops :
    (env : Env) (q : QueuedEvent) (qs : List QueuedEvent) (w : World)
    → w.cancelled ≡ false
    → q.term < w.term
    → loop_once env (record w { queue = q ∷ qs }) ≡ record w { queue = qs }
unfolding loop_once
loop_once-drops env q qs w c lt = simp (c, differs q.term w.term lt)

run-drops :
    (env : Env) (qs : List QueuedEvent) (w : World)
    → w.cancelled ≡ false
    → Earlier w.term qs
    → run env (length qs) (record w { queue = qs }) ≡ record w { queue = [] }
unfolding run
run-drops env [] w c h = refl
run-drops env (q ∷ qs) w c h =
    ap (run env (length qs)) (loop_once-drops env q qs w c h.0) ∙ run-drops env qs w c h.1

abbrev restarted : World → World
restarted w = record w { term = w.term + 2; cancelled = false; started = true; expiry_timers = [] }

start-stop : (w : World) → w.started ≡ true → start (stop w) ≡ restarted w
unfolding start stop stop_all_expiry_timers
start-stop w on = ground (arith, on)

-- After a leader has stopped and started again, as many turns of the loop as there are events in the queue
-- empty it and do nothing else, where every queued event is of the term before or of an earlier one.
pub restart-drops_old_events :
    (env : Env) (w : World)
    → w.started ≡ true
    → NoLater w.term w.queue
    → run env (length w.queue) (start (stop w)) ≡ record (start (stop w)) { queue = [] }
restart-drops_old_events env w on h =
    subst (λ x. run env (length w.queue) x ≡ record x { queue = [] }) (sym (start-stop w on))
      (run-drops env w.queue (restarted w) refl
        (earlier w.term (w.term + 2) (ground arith) w.queue h))
