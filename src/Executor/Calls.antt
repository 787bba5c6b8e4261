-- ===== src/Executor/Calls.antt =====
-- Calls of the device: `raw_call` with the skips of a round, the cooldown and the cut of legacy reads,
-- and `call_here` with the gate on writes (rust/src/executor.rs; `UbusError` and `RoundSkips` are in
-- rust/src/ubus/client.rs). The backend, the clock and JSON values are parameters.
use zte_u60_pro_mu5250_data.Common.{
  ℕ, zero, suc, ◌+◌, ◌-◌, ℤ, String, str_eq, Bool, true, false, ◌&&◌, ◌||◌, not, Option, none, some,
  List, [], ◌∷◌, length, ltb, ◌==◌, if◌then◌else◌, Result, ok, err,
}
use zte_u60_pro_mu5250_data.Executor.Liveness.{Liveness, call_started, call_done}

abbrev pub gate_probes : ℕ
gate_probes = 4

abbrev pub legacy_timeout_limit : ℕ
legacy_timeout_limit = 6

pub data UbusError : Type 0 where
  invalid_argument : String → UbusError
  timeout : String → String → UbusError
  skipped not_found : String → UbusError
  bad_status : String → String → ℤ → UbusError
  no_data : String → String → UbusError
  io_error protocol_error : String → UbusError

-- The device as the backend sees it; `send` takes the `round` flag, which sets its timeout.
pub record Backend : Type 1 where
  pub World : Type 0
  pub Value : Type 0
  pub empty_object : Value
  pub data_query : Value
  pub clock : World → ℕ
  pub send : World → Bool → String → String → Value → World × Result UbusError Value

unfoldable pub contains : List String → String → Bool
contains [] o = false
contains (s ∷ more) o = str_eq s o || contains more o

-- `RoundSkips::record`
unfoldable pub record_error : List String → UbusError → List String
record_error skips (timeout o detail) = if contains skips o then skips else o ∷ skips
record_error skips _ = skips

module _ (be : Backend) where
  open be use {World, Value}

  -- The part of `Shared` and its `RoundState` that calls use.
  pub record Shared : Type 0 where
    pub world : World
    pub skips : List String
    pub used : ℕ
    pub cut_logged : Bool
    pub gate : Option String
    pub writing : Bool
    pub cooldown : List (String × ℕ)
    pub sent : ℕ
    pub live : Liveness
    pub cooldown_ms : ℕ
    pub requests : List (String × String × Value)

  unfoldable pub find_until : List (String × ℕ) → String → Option ℕ
  find_until [] o = none
  find_until ((p, until) ∷ more) o = if str_eq p o then some until else find_until more o

  unfoldable pub remove_until : List (String × ℕ) → String → List (String × ℕ)
  remove_until [] o = []
  remove_until ((p, until) ∷ more) o =
      let rest = remove_until more o in if str_eq p o then rest else (p, until) ∷ rest

  unfoldable pub cooling : Shared → String → Shared × Bool
  unfolding find_until remove_until
  cooling s o = elim (find_until s.cooldown o) [
    | none ↦ (s, false)
    | some until ↦
        if ltb (be.clock s.world) until
        then (s, true)
        else (record s { cooldown = remove_until s.cooldown o }, false)
  ]

  unfoldable pub legacy_cut : Shared → Shared × Bool
  legacy_cut s =
      if ltb (length s.skips) legacy_timeout_limit
      then (s, false)
      else (record s { cut_logged = true }, true)

  -- The three tests in front of a call, each made only if those before it failed.
  unfoldable pub left_out : Bool → Bool → Bool → Shared → String → Shared × Bool
  left_out round legacy cool s o =
      if round && contains s.skips o
      then (s, true)
      else (let (s', cold) = if cool then cooling s o else (s, false) in
          if cold then (s', true) else if legacy then legacy_cut s' else (s', false))

  unfoldable pub is_timed_out : Result UbusError Value → Bool
  is_timed_out (err (timeout o detail)) = true
  is_timed_out _ = false

  unfoldable pub note_failure : List String → Result UbusError Value → List String
  note_failure skips (ok v) = skips
  note_failure skips (err e) = record_error skips e

  -- What follows the backend's answer.
  unfoldable pub after_call : Bool → Bool → String → ℕ → Shared → Result UbusError Value → Shared
  unfolding is_timed_out note_failure
  after_call round cool o start s r =
      let s' =
        if round
        then record s { used = s.used + (be.clock s.world - start); skips = note_failure s.skips r }
        else s in
      if cool && is_timed_out r
      then record s' {
        cooldown = (o, be.clock s.world + s.cooldown_ms) ∷ remove_until s'.cooldown o;
      }
      else s'

  unfoldable pub raw_call :
      Bool → Bool → String → String → Value → Shared → Shared × Result UbusError Value
  raw_call round cool o m args s =
      let legacy = round && cool in
      let cool' = legacy && not (s.cooldown_ms == 0) in
      let (s1, out) = left_out round legacy cool' s o in
      if out
      then (s1, err (skipped o))
      else (let (w, r) = be.send s1.world round o m args in
          (
            after_call round cool' o (be.clock s1.world)
                (record s1 {
                  world = w;
                  live = call_done (call_started s1.live (be.clock s1.world)) (be.clock w);
                  sent = s1.sent + 1;
                })
                r,
            r,
          ))

  abbrev pub probes : List (String × String)
  probes =
      ("zte_nwinfo_api", "nwinfo_get_netinfo")
      ∷ ("zwrt_data", "get_wwaniface")
      ∷ ("zwrt_zte_mdm.api", "get_sim_info")
      ∷ ("zwrt_apn_object", "get_apn_mode")
      ∷ ("zwrt_router.api", "router_get_status_no_auth")
      ∷ ("zwrt_bsp.usb", "list")
      ∷ ("zwrt_wms", "zwrt_wms_get_wms_capacity")
      ∷ ("zwrt_nfc", "zwrt_nfc_wifi_get")
      ∷ []

  request_of : List (String × String × Value) → String → String × String × Value
  request_of [] o = ("system", "board", be.empty_object)
  request_of ((p, m, a) ∷ more) o = if str_eq p o then (p, m, a) else request_of more o

  probe_of :
      List (String × String) → List (String × String × Value) → String → String × String × Value
  probe_of [] requests o = request_of requests o
  probe_of ((p, m) ∷ more) requests o =
      if str_eq p o
      then (p, m, if str_eq p "zwrt_data" then be.data_query else be.empty_object)
      else probe_of more requests o

  unfoldable pub probe_for : Shared → String → String × String × Value
  unfolding probe_of request_of
  probe_for s o = probe_of probes s.requests o

  -- `n` passes of the loop of `reopen_gate`, and the opening after it.
  unfoldable pub probe_loop : ℕ → String × String × Value → Shared → Shared
  unfolding is_timed_out
  probe_loop zero p s = record s { gate = none }
  probe_loop (suc n) (o, m, a) s =
      let (s', r) = raw_call false false o m a s in
      let rest = probe_loop n (o, m, a) s' in
      if is_timed_out r then rest else record s' { gate = none }

  unfoldable pub reopen_gate : Shared → Shared
  reopen_gate s = elim s.gate [ none ↦ s | some o ↦ probe_loop gate_probes (probe_for s o) s ]

  unfoldable pub call_here :
      Bool → Bool → String → String → Value → Shared → Shared × Result UbusError Value
  unfolding is_timed_out
  call_here round cool o m args s =
      let writing = not round && s.writing in
      let s1 = if writing then reopen_gate s else s in
      let (s2, r) = raw_call round cool o m args s1 in
      if writing && is_timed_out r then (record s2 { gate = some o }, r) else (s2, r)
