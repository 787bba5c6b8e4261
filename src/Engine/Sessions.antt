-- ===== src/Engine/Sessions.antt =====
-- Sessions of the network search: `reap_session`, `session_open`, `session_renew`, `session_close`,
-- `session_gate` (rust/src/ops/engine.rs).
use zte_u60_pro_mu5250_data.Common.{
  ℕ, ◌-◌, String, str_eq, Bool, false, ◌&&◌, ◌||◌, Option, none, some, List, [], ◌∷◌, leb,
  if◌then◌else◌, Result, ok, err,
}
use zte_u60_pro_mu5250_data.Txn.Types.{Source, Txn}
use zte_u60_pro_mu5250_data.Engine.State.{Session, World, log, session_line}

abbrev pub session_max_ms : ℕ
session_max_ms = 420000

abbrev pub session_lease_ms : ℕ
session_lease_ms = 60000

abbrev pub session_steps : List String
session_steps = "netselect.scan" ∷ "netselect.register" ∷ []

abbrev pub session_optional : List String
session_optional = "netselect.auto" ∷ "cellular.redial" ∷ []

abbrev pub session_blocks : List String
session_blocks =
    "cellular.set" ∷ "network.set_mode" ∷ "band.set_lte" ∷ "band.set_nr_sa" ∷ "band.set_nr_nsa"
    ∷ "band.reset" ∷ "cell.lock_lte" ∷ "cell.lock_nr" ∷ "apn.set_mode" ∷ "apn.enable" ∷ "apn.add"
    ∷ "apn.modify" ∷ "apn.delete" ∷ "modem.online" ∷ "apn.set_pdp_type" ∷ []

unfoldable pub has : List String → String → Bool
has [] a = false
has (x ∷ more) a = str_eq x a || has more a

pub data SessionError : Type 0 where
  session_busy : Session → SessionError
  txn_busy : Txn → SessionError
  gone : SessionError

-- Why the session ends by itself, if it does.
unfoldable pub over : Session → ℕ → Option String
over s now =
    if leb session_max_ms (now - s.opened_ms)
    then some "expired"
    else if leb session_lease_ms (now - s.renewed_ms)
    then some "agent_gone"
    else none

abbrev pub is_current : Session → Option String → Bool
is_current s none = false
is_current s (some id) = str_eq s.id id

module _ {V : Type 0} where
  abbrev pub set_session : World V → Option Session → World V
  set_session w s = record w { st = record w.st { session = s } }

  unfoldable pub reap_session : ℕ → World V → World V
  reap_session now w = elim w.st.session [
    | none ↦ w
    | some s ↦ elim (over s now) [
      | none ↦ w
      | some why ↦ log (set_session w none) (session_line s "ended" (some why) (now - s.opened_ms))
    ]
  ]

  -- With the id drawn for the session.
  unfoldable pub session_open :
      String → Source → ℕ → World V → World V × Result SessionError Session
  session_open id source now w =
      let w' = reap_session now w in
      elim w'.st.session [
        | some s ↦ (w', err (session_busy s))
        | none ↦ elim w'.st.active [
          | some t ↦ (w', err (txn_busy t))
          | none ↦
              let s : Session = record {
                id = id;
                source = source;
                opened_ms = now;
                renewed_ms = now;
              } in
              (log (set_session w' (some s)) (session_line s "opened" none 0), ok s)
        ]
      ]

  -- The time left of the session.
  unfoldable pub session_renew : String → ℕ → World V → World V × Result SessionError ℕ
  session_renew id now w =
      let w' = reap_session now w in
      elim w'.st.session [
        | none ↦ (w', err gone)
        | some s ↦
            if str_eq s.id id
            then (
              set_session w' (some (record s { renewed_ms = now })),
              ok (session_max_ms - (now - s.opened_ms)),
            )
            else (w', err gone)
      ]

  unfoldable pub session_close :
      String → Option String → ℕ → World V → World V × Result SessionError (Unit {0})
  session_close id result now w =
      let w' = reap_session now w in
      elim w'.st.session [
        | none ↦ (w', err gone)
        | some s ↦
            if str_eq s.id id
            then (
              log (set_session w' none) (session_line s "closed" result (now - s.opened_ms)),
              ok tt,
            )
            else (w', err gone)
      ]

  unfoldable pub session_gate :
      String → Option String → ℕ → World V → World V × Result SessionError (Unit {0})
  session_gate action session now w =
      let w' = reap_session now w in
      let stepping = has session_steps action in
      let optional = has session_optional action in
      elim w'.st.session [
        | none ↦ if stepping then (w', err gone) else (w', ok tt)
        | some s ↦
            if is_current s session && (stepping || optional)
            then (set_session w' (some (record s { renewed_ms = now })), ok tt)
            else if stepping || optional || has session_blocks action
            then (w', err (session_busy s))
            else (w', ok tt)
      ]
