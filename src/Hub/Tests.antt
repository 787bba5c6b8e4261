-- ===== src/Hub/Tests.antt =====
-- Blocks over numbers as JSON values, and the theorems about the hub on them.
use zte_u60_pro_mu5250_data.Common.{
  ℕ, ◌+◌, ◌==◌, true, false, none, some, List, [], ◌∷◌, map, refl, ◌≡◌, ok,
}
use zte_u60_pro_mu5250_data.Hub.Blocks.{
  Json, on_change, live_policy, Block, BlockView, view, new_block, Inner, same_value, max_age,
}
use zte_u60_pro_mu5250_data.Hub.Publishing.{publish, Counts}
use zte_u60_pro_mu5250_data.Hub.Reads.{
  Steps, record_named, read_result, sweep, read_good, reshape_dependents, reshape_block, read_ok,
  shape,
}
use zte_u60_pro_mu5250_data.Hub.Rounds.{
  round_end, expire_locked, emit_heartbeat, end_block, expire_block,
}
use zte_u60_pro_mu5250_data.Hub.Replay.{known}
use zte_u60_pro_mu5250_data.Hub.Copies.{receive}
use zte_u60_pro_mu5250_data.Hub.Observed.{times}
use zte_u60_pro_mu5250_data.Hub.Mirror.{Follows, record_named-Follows, round_end-Follows}

abbrev numbers : Json
numbers = record { Value = ℕ; null = 0; eq = λ a b. a == b; is_object = λ v. true }

abbrev battery : Block numbers
battery = new_block numbers (record {
  name = "battery";
  object = "zwrt_bsp.battery";
  method = "list";
  args = 0;
  interval = 10000;
  policy = on_change numbers;
  derived = false;
  shape = some (λ v get. v + 1);
  deps = "charger" ∷ [];
})

abbrev charger : Block numbers
charger = new_block numbers (record {
  name = "charger";
  object = "zwrt_bsp.charger";
  method = "list";
  args = 0;
  interval = 0;
  policy = live_policy numbers;
  derived = false;
  shape = none;
  deps = [];
})

abbrev hub : List (Block numbers)
hub = battery ∷ charger ∷ []

abbrev after_battery : Steps numbers
after_battery = read_result numbers 0 0 (ok 41) 1000 hub 7 battery

record_named-Follows_example :
    (r : Steps numbers) × (record_named numbers 0 "battery" (ok 41) 1000 hub 7 ≡ some r)
    × Follows numbers 0 hub r
    × (times numbers r.1 ≡ 7 ∷ 0 ∷ [])
unfolding new_block
record_named-Follows_example =
    record_named-Follows numbers 0 "battery" (ok 41) 1000 hub 7 ((refl, tt), (tt, tt))

abbrev running : Inner numbers
running = record { seq = 1; blocks = after_battery.1; last_heartbeat = none }

abbrev ended : Inner numbers
ended = (round_end numbers 40000 1000 running).0

ended_shows :
    map (known numbers) ended.blocks ≡ ("battery", 2, true, 42) ∷ ("charger", 0, true, 0) ∷ []
unfolding round_end read_result known emit_heartbeat sweep expire_locked read_good same_value
    new_block reshape_dependents end_block expire_block reshape_block read_ok publish max_age shape
ended_shows = refl

-- A copy that has not heard of the times yet.
abbrev copy : List (BlockView numbers)
copy = map (λ (b : Block numbers). record (view numbers b) { observed_at = 0 }) running.blocks

round_end-Follows_example :
    Counts numbers 1 (round_end numbers 40000 1000 running).1 ended.seq
    × (receive numbers (round_end numbers 40000 1000 running).1 copy
        ≡ map (view numbers) ended.blocks)
unfolding read_result read_good same_value new_block reshape_dependents sweep reshape_block read_ok
    publish known view
round_end-Follows_example =
    round_end-Follows numbers 40000 1000 running copy ((refl, tt), (tt, tt)) refl
