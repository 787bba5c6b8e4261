-- ===== src/Requests/Tests.antt =====
-- The theorems on requests at concrete inputs.
use zte_u60_pro_mu5250_data.Common.{true, false, none, some, [], ◌≡◌, refl, inl}
use zte_u60_pro_mu5250_data.Engine.State.{World, new_engine}
use zte_u60_pro_mu5250_data.Engine.Active.{preempt}
use zte_u60_pro_mu5250_data.Engine.Legacy.{has_item}
use zte_u60_pro_mu5250_data.Engine.Sessions.{has}
use zte_u60_pro_mu5250_data.Json.{
  string, object, Fields, end, field, int, get, as_object, as_u64, has_no_fields,
}
use zte_u60_pro_mu5250_data.Control.Params.{boolean_param, boolean_value, string_param}
use zte_u60_pro_mu5250_data.Requests.Actions.{
  params_of, is_safety, affects_network, writes, source_or_legacy, find_spec, target,
}
use zte_u60_pro_mu5250_data.Requests.Routes.{good}
use zte_u60_pro_mu5250_data.Requests.Handling.{
  Served, handle, on_busy, job_begin, run_job, internal_task, refuse, legacy_item,
}
use zte_u60_pro_mu5250_data.Requests.Refusing.{Gated, gated_job, job_begin-Gated}
use zte_u60_pro_mu5250_data.Requests.Urgent.{
  safety_goes_on, described_never_busy, QueuedOrRun, SourceKnown,
}

abbrev fresh_engine : World Fields
fresh_engine = new_engine true none none false

abbrev served : Served
served = record { engine = fresh_engine; interval_ms = 1000; marks = []; lines = [] }

abbrev body : Fields → Fields
body params = field "params" (object params) end

-- The screen asks for the data connection to be switched off.
abbrev off : Fields
off = body (field "enabled" (int 0) end)

off_is_safe : is_safety "cellular.set" (params_of off) ≡ true
unfolding is_safety params_of get boolean_param boolean_value has_no_fields as_object int as_u64
off_is_safe = refl

no_source : SourceKnown off
unfolding get
no_source = inl refl

safety_goes_on_example :
    (handle 120000 "s1" true "cellular.set" off 5 fresh_engine
      ≡ (preempt 5 fresh_engine, run_job true none))
    × ((preempt 5 fresh_engine).st.active ≡ none)
    × ((preempt 5 fresh_engine).st.queue ≡ [])
    × ((on_busy true none "cellular.set" off 6 fresh_engine).1 ≡ internal_task)
    × ((job_begin "cellular.set" off 6 served).1 ≡ none)
safety_goes_on_example =
    safety_goes_on 120000 "s1" "cellular.set" off 5 6 fresh_engine fresh_engine served off_is_safe
      no_source

-- An old client sets the network mode.
abbrev set_mode : Fields
set_mode = body (field "mode" (string "Only_LTE") end)

set_mode_item : legacy_item 120000 "network.set_mode" set_mode ≡ some "network.mode"
unfolding legacy_item get find_spec target string_param params_of as_object
set_mode_item = refl

described_never_busy_example :
    QueuedOrRun "network.mode" (handle 120000 "s1" true "network.set_mode" set_mode 5 fresh_engine)
    × ((on_busy false (some "network.mode") "network.set_mode" set_mode 6 fresh_engine).1
        ≡ refuse good)
    × (has_item "network.mode"
          (on_busy false
            (some "network.mode")
            "network.set_mode"
            set_mode
            6
            fresh_engine).0.st.queue
        ≡ true)
described_never_busy_example =
    described_never_busy 120000 "s1" "network.set_mode" "network.mode" set_mode 5 6 fresh_engine
      fresh_engine set_mode_item

-- The scheduler resets the bands.
abbrev reset_bands : Fields
reset_bands = field "source" (string "scheduler") end

reset_writes : writes "band.reset" ≡ true
unfolding writes has
reset_writes = refl

reset_affects : affects_network "band.reset" (params_of reset_bands) ≡ true
unfolding affects_network has
reset_affects = refl

reset_not_safe : is_safety "band.reset" (params_of reset_bands) ≡ false
unfolding is_safety
reset_not_safe = refl

job_begin-Gated_example :
    Gated
      (source_or_legacy reset_bands)
      fresh_engine
      (gated_job (job_begin "band.reset" reset_bands 5 served))
job_begin-Gated_example =
    job_begin-Gated "band.reset" reset_bands 5 served reset_writes reset_affects reset_not_safe
