-- ===== src/Record/Skips.antt =====
-- `Record::append`, `skip`, `set_owner` and `emit`: the lines that go into the writer's channel, and the
-- merging of skips in a row (rust/src/ops/record.rs). The channel is bounded: `room` is what it still
-- takes, and its receiver makes room. The content of a line is of any type `L`.
use zte_u60_pro_mu5250_data.Common.{
  ℕ, ◌+◌, ◌-◌, String, str_eq, Bool, true, false, ◌&&◌, Option, none, some, List, [], ◌∷◌, ◌==◌,
  if◌then◌else◌,
}

-- Source and item.
abbrev pub Key : Type 0
Key = String × String

pub data Which : Type 0 where
  start stop : Which

pub data Msg (L : Type 0) : Type 0 where
  line : L → Msg L
  skip_line : Key → String → Which → ℕ → Msg L
  dropped_line : ℕ → Msg L
  owners : Msg L

pub record Journal (L : Type 0) : Type 0 where
  pub skips : List (Key × String × ℕ)
  pub dropped : ℕ
  pub room : ℕ
  pub sent : List (Msg L)

unfoldable pub same_key : Key → Key → Bool
same_key (s, i) (t, j) = str_eq s t && str_eq i j

unfoldable pub find_skip : List (Key × String × ℕ) → Key → Option (String × ℕ)
unfolding same_key
find_skip [] k = none
find_skip ((j, reason, n) ∷ more) k = if same_key j k then some (reason, n) else find_skip more k

unfoldable pub remove_skip : List (Key × String × ℕ) → Key → List (Key × String × ℕ)
unfolding same_key
remove_skip [] k = []
remove_skip ((j, reason, n) ∷ more) k =
    let rest = remove_skip more k in if same_key j k then rest else (j, reason, n) ∷ rest

module _ {L : Type 0} where
  -- `try_send`: whether the channel took the message.
  unfoldable pub try_send : Journal L → Msg L → Journal L × Bool
  try_send j m =
      if j.room == 0 then (j, false) else (record j { room = j.room - 1; sent = m ∷ j.sent }, true)

  -- A message of `emit` or `set_owner` that the channel may refuse.
  unfoldable pub send_or_count : Journal L → Msg L → Journal L
  unfolding try_send
  send_or_count j m =
      let (j', taken) = try_send j m in if taken then j' else record j' { dropped = j'.dropped + 1 }

  unfoldable pub report_dropped : Journal L → Journal L
  unfolding try_send
  report_dropped j =
      if j.dropped == 0
      then j
      else (let (j', taken) = try_send j (dropped_line j.dropped) in
          if taken then record j' { dropped = 0 } else j')

  -- `emit`
  unfoldable pub emit_msg : Journal L → Msg L → Journal L
  emit_msg j m = send_or_count (report_dropped j) m

  unfoldable pub end_skip : Journal L → Key → String × ℕ → Journal L
  end_skip j k (reason, n) =
      emit_msg (record j { skips = remove_skip j.skips k }) (skip_line k reason stop n)

  -- `append`, with the key of the line if it has one.
  unfoldable pub append : Journal L → Option Key → L → Journal L
  append j none l = emit_msg j (line l)
  append j (some k) l = elim (find_skip j.skips k) [
    | none ↦ emit_msg j (line l)
    | some r ↦ emit_msg (end_skip j k r) (line l)
  ]

  unfoldable pub start_skip : Journal L → Key → String → Journal L
  start_skip j k reason =
      emit_msg (record j { skips = (k, reason, 1) ∷ j.skips }) (skip_line k reason start 1)

  -- `skip`
  unfoldable pub skip : Journal L → Key → String → Journal L
  unfolding start_skip
  skip j k reason = elim (find_skip j.skips k) [
    | none ↦ start_skip j k reason
    | some (r, n) ↦
        if str_eq r reason
        then record j { skips = (k, r, n + 1) ∷ remove_skip j.skips k }
        else start_skip (end_skip j k (r, n)) k reason
  ]

  -- `set_owner`, what it sends.
  unfoldable pub send_owners : Journal L → Journal L
  send_owners j = send_or_count j owners

  -- The writer has taken `n` messages out of the channel.
  unfoldable pub make_room : Journal L → ℕ → Journal L
  make_room j n = record j { room = j.room + n }

-- What happens to a journal.
pub data Act (L : Type 0) : Type 0 where
  append_act : Option Key → L → Act L
  skip_act : Key → String → Act L
  owner_act : Act L
  room_act : ℕ → Act L

module _ {L : Type 0} where
  unfoldable pub act : Journal L → Act L → Journal L
  act j (append_act k l) = append j k l
  act j (skip_act k reason) = skip j k reason
  act j owner_act = send_owners j
  act j (room_act n) = make_room j n

  unfoldable pub act_all : Journal L → List (Act L) → Journal L
  act_all j [] = j
  act_all j (a ∷ more) = act_all (act j a) more
