-- ===== src/Engine/Legacy.antt =====
-- The queue of old requests: `drop_legacy`, `clear_legacy`, `enqueue_legacy` and the task of
-- `kick_legacy` (rust/src/ops/engine.rs). What happens between two waits of the task is one function;
-- the runner's answer is an argument.
use zte_u60_pro_mu5250_data.Common.{
  ℕ, ◌-◌, String, str_eq, Bool, true, false, ◌&&◌, ◌||◌, not, Option, none, some, List, [], ◌∷◌,
  ◌++◌, ltb, is_some, if◌then◌else◌,
}
use zte_u60_pro_mu5250_data.Engine.State.{Config, LegacyReq, St, legacy_line, World, log}

module _ {V : Type 0} where
  unfoldable pub log_dropped : List (LegacyReq V) → String → World V → World V
  log_dropped [] why w = w
  log_dropped (r ∷ more) why w = log_dropped more why (log w (legacy_line r "dropped" (some why)))

  unfoldable pub drop_legacy : String → World V → World V
  drop_legacy why w =
      let w' = log_dropped w.st.queue why w in record w' { st = record w'.st { queue = [] } }

  unfoldable pub clear_legacy : String → World V → World V
  clear_legacy why w = drop_legacy why w

  -- The requests that an entry leaves standing: those of other items.
  unfoldable pub without_item : String → List (LegacyReq V) → List (LegacyReq V)
  without_item item [] = []
  without_item item (r ∷ more) =
      let rest = without_item item more in if str_eq r.item item then rest else r ∷ rest

  unfoldable pub log_replaced : String → List (LegacyReq V) → World V → World V
  log_replaced item [] w = w
  log_replaced item (r ∷ more) w =
      log_replaced item more
        (if str_eq r.item item then log w (legacy_line r "replaced" none) else w)

  unfoldable pub enqueue_legacy : String → String → V → ℕ → World V → World V
  enqueue_legacy item action params now w =
      let w' = log_replaced item w.st.queue w in
      let r : LegacyReq V = record { item = item; action = action; params = params; at_ms = now } in
      let w'' = log w' (legacy_line r "queued" none) in
      record w'' { st = record w''.st { queue = without_item item w''.st.queue ++ r ∷ [] } }

  -- `kick_legacy` up to the start of its task; the answer is whether it starts one.
  unfoldable pub kick_legacy : Bool → World V → World V × Bool
  kick_legacy has_runner w =
      if not has_runner || w.draining then (w, false) else (record w { draining = true }, true)

  unfoldable pub fresh : ℕ → ℕ → List (LegacyReq V) → List (LegacyReq V)
  fresh ttl now [] = []
  fresh ttl now (r ∷ more) =
      let rest = fresh ttl now more in if ltb (now - r.at_ms) ttl then r ∷ rest else rest

  unfoldable pub log_expired : ℕ → ℕ → List (LegacyReq V) → World V → World V
  log_expired ttl now [] w = w
  log_expired ttl now (r ∷ more) w =
      log_expired ttl now more
        (if ltb (now - r.at_ms) ttl then w else log w (legacy_line r "dropped" (some "expired")))

  take_first : World V → List (LegacyReq V) → World V × Option (LegacyReq V)
  take_first w [] = (record w { st = record w.st { queue = [] } }, none)
  take_first w (r ∷ more) = (record w { st = record w.st { queue = more } }, some r)

  -- The task takes the next request, if nothing is in progress.
  unfoldable pub drain_take : Config → ℕ → World V → World V × Option (LegacyReq V)
  unfolding take_first
  drain_take cfg now w =
      if is_some w.st.active || is_some w.st.session
      then (w, none)
      else take_first (log_expired cfg.legacy_ttl_ms now w.st.queue w)
          (fresh cfg.legacy_ttl_ms now w.st.queue)

  unfoldable pub is_waiting : St V → Bool
  is_waiting s = elim s.queue [
    | [] ↦ false
    | r ∷ more ↦ not (is_some s.active) && not (is_some s.session)
  ]

  -- It found none: it puts the flag down, and goes on only if there is work again.
  unfoldable pub drain_stop : World V → World V
  drain_stop w = record w { draining = false }

  unfoldable pub drain_again : World V → World V × Bool
  unfolding is_waiting
  drain_again w =
      if is_waiting w.st && not w.draining then (record w { draining = true }, true) else (w, false)

  unfoldable pub has_item : String → List (LegacyReq V) → Bool
  has_item item [] = false
  has_item item (r ∷ more) = str_eq r.item item || has_item item more

  -- The runner was too busy: the request goes back, unless a newer one of its item came.
  unfoldable pub put_back : LegacyReq V → World V → World V
  put_back req w =
      if has_item req.item w.st.queue
      then w
      else record w { st = record w.st { queue = req ∷ w.st.queue } }
