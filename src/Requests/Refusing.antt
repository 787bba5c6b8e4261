-- ===== src/Requests/Refusing.antt =====
-- Which requests are turned away, which always go on, and which are queued (rust/src/server/write.rs).
use zte_u60_pro_mu5250_data.Common.{
  ℕ, String, Bool, true, false, not, Option, none, some, is_some, if◌then◌else◌, Result, ok, err,
  ◌≡◌, refl, sym, subst, ap, ◌∙◌, arith, ◌⊎◌, inl, inr,
}
use zte_u60_pro_mu5250_data.Txn.Types.{Source, is_user, Txn, Reason, other_change}
use zte_u60_pro_mu5250_data.Txn.Ops.{cancel}
use zte_u60_pro_mu5250_data.Engine.State.{World}
use zte_u60_pro_mu5250_data.Engine.Active.{other_write, cancel_active}
use zte_u60_pro_mu5250_data.Engine.Stored.{cancel_final, finish_active-Released}
use zte_u60_pro_mu5250_data.Json.{Fields}
use zte_u60_pro_mu5250_data.Requests.Actions.{
  params_of, source_or_legacy, is_safety, affects_network, writes,
}
use zte_u60_pro_mu5250_data.Requests.Routes.{Reply, error}
use zte_u60_pro_mu5250_data.Requests.Handling.{
  Served, gate_reply, other_write_gate, begun, add_line, let_begin, job_begin,
}

-- Cancelling gives the lock back.
pub cancelled :
    (t : Txn) (why : Reason) (now : ℕ) (w : World Fields)
    → (cancel_active t why now w).st.active ≡ none
cancelled t why now w = (finish_active-Released (cancel t why) now w (cancel_final t why)).active

abbrev op_busy : Reply
op_busy = error 409 "op_busy"

-- Nothing was in the way, or a user's write cancelled it, or the write is turned away unchanged.
abbrev pub Gated : Source → World Fields → World Fields × Option Reply → Type 0
Gated source w (w', none) = (w'.st.active ≡ none) × ((w.st.active ≡ none) ⊎ (is_user source ≡ true))
Gated source w (w', some r) =
    (w' ≡ w) × (r ≡ error 409 "op_busy") × (is_some w.st.active ≡ true) × (is_user source ≡ false)

-- `other_write`, by the change that is in progress.
by_change : Source → ℕ → World Fields → Option Txn → World Fields × Option Reply
by_change source now w none = (w, none)
by_change source now w (some t) =
    gate_reply
      (if not (is_user source) then (w, err t) else (cancel_active t other_change now w, ok tt))

by_change_lem :
    (source : Source) (now : ℕ) (w : World Fields)
    → gate_reply (other_write source now w) ≡ by_change source now w w.st.active
unfolding other_write gate_reply by_change
by_change_lem source now w = same w.st.active
  where
    same :
        (a : Option Txn)
        → gate_reply (elim a as (λ x. World Fields × Result Txn (Unit {0})) [
          | none ↦ (w, ok tt)
          | some t ↦
              if not (is_user source)
              then (w, err t)
              else (cancel_active t other_change now w, ok tt)
        ])
          ≡ by_change source now w a
    same none = refl
    same (some t) = refl

gate_reply-Gated :
    (source : Source) (now : ℕ) (w : World Fields)
    → Gated source w (gate_reply (other_write source now w))
unfolding by_change gate_reply
gate_reply-Gated source now w =
    subst (Gated source w) (sym (by_change_lem source now w)) (by_active w.st.active refl)
  where
    by_user :
        (t : Txn) (b : Bool)
        → w.st.active ≡ some t
        → is_user source ≡ b
        → Gated source w
            (gate_reply (if not b then (w, err t) else (cancel_active t other_change now w, ok tt)))
    by_user t true a e = (cancelled t other_change now w, inr e)
    by_user t false a e = (refl, refl, ap (λ x. is_some x) a, e)

    by_active : (a : Option Txn) → w.st.active ≡ a → Gated source w (by_change source now w a)
    by_active none e = (e, inl e)
    by_active (some t) e = by_user t (is_user source) e refl

abbrev pub gated_job : Served × Option Reply → World Fields × Option Reply
gated_job (s, r) = (s.engine, r)

begun-engine :
    (action : String) (body : Fields) (s : Served) → (begun action body s).engine ≡ s.engine
unfolding begun add_line
begun-engine action body s = ground arith

let_begin-Gated :
    (action : String) (body : Fields) (source : Source) (s : Served)
    (g : World Fields × Option Reply)
    → Gated source s.engine g
    → Gated source s.engine (gated_job (let_begin action body s g))
unfolding let_begin
let_begin-Gated action body source s (v, some r) h = h
let_begin-Gated action body source s (v, none) h =
    (ap (λ x. x.st.active) (begun-engine action body (record s { engine = v })) ∙ h.0, h.1)

gate_eq :
    (action : String) (body : Fields) (now : ℕ) (w : World Fields)
    → affects_network action (params_of body) ≡ true
    → is_safety action (params_of body) ≡ false
    → other_write_gate action body now w ≡ gate_reply (other_write (source_or_legacy body) now w)
unfolding other_write_gate
gate_eq action body now w a f = rw (f, a) refl

-- A job for a write that touches the network and is no safety write: it goes on, with no change in
-- progress any more, if there was none or the write is a user's; or else it is answered 409 `op_busy`,
-- with the engine as it was.
pub job_begin-Gated :
    (action : String) (body : Fields) (now : ℕ) (s : Served)
    → writes action ≡ true
    → affects_network action (params_of body) ≡ true
    → is_safety action (params_of body) ≡ false
    → Gated (source_or_legacy body) s.engine (gated_job (job_begin action body now s))
unfolding job_begin
job_begin-Gated action body now s w a f =
    rw (w, gate_eq action body now s.engine a f)
      (let_begin-Gated action body (source_or_legacy body) s
        (gate_reply (other_write (source_or_legacy body) now s.engine))
        (gate_reply-Gated (source_or_legacy body) now s.engine))
