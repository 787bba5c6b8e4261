-- ===== src/Control/Runs.antt =====
-- The runs of a program, one for each way that its surroundings may answer (rust/src/control.rs), and
-- how a fact about every run is shown along the program.
use zte_u60_pro_mu5250_data.Common.{ℕ, String, List, [], ◌∷◌, Result}
use zte_u60_pro_mu5250_data.Executor.Calls.{UbusError}
use zte_u60_pro_mu5250_data.Json.{Json}
use zte_u60_pro_mu5250_data.Control.Program.{
  Program, ret, call, at_command, command, file, sms, sleep, ◌>>=◌, Cmd, FileOp, SmsAction,
  SmsReply,
}

-- What happened: a request with its answer.
pub data Event : Type 0 where
  called : String → String → Json → Result UbusError Json → Event
  sent_at : Cmd → Result String String → Event
  ran : String → List String → Result String String → Event
  filed : FileOp → Result String (Unit {0}) → Event
  texted : SmsAction → Json → SmsReply → Event
  slept : ℕ → Event

-- The program ends with the value after these events.
pub data Run {A : Type 0} : Program A → List Event → A → Type 0 where
  ends : {a : A} → Run (ret a) [] a
  calls :
      {o m : String} {v : Json} {k : Result UbusError Json → Program A} {es : List Event} {a : A}
      (r : Result UbusError Json)
      → Run (k r) es a
      → Run (call o m v k) (called o m v r ∷ es) a
  sends :
      {c : Cmd} {k : Result String String → Program A} {es : List Event} {a : A}
      (r : Result String String)
      → Run (k r) es a
      → Run (at_command c k) (sent_at c r ∷ es) a
  runs :
      {b : String} {l : List String} {t : ℕ} {k : Result String String → Program A}
      {es : List Event} {a : A} (r : Result String String)
      → Run (k r) es a
      → Run (command b l t k) (ran b l r ∷ es) a
  files :
      {op : FileOp} {k : Result String (Unit {0}) → Program A} {es : List Event} {a : A}
      (r : Result String (Unit {0}))
      → Run (k r) es a
      → Run (file op k) (filed op r ∷ es) a
  texts :
      {x : SmsAction} {v : Json} {k : SmsReply → Program A} {es : List Event} {a : A} (r : SmsReply)
      → Run (k r) es a
      → Run (sms x v k) (texted x v r ∷ es) a
  sleeps :
      {t : ℕ} {p : Program A} {es : List Event} {a : A}
      → Run p es a
      → Run (sleep t p) (slept t ∷ es) a

-- What is kept along a run: a state that every event moves on, what may happen in a state.
pub record Watch (S : Type 0) : Type 1 where
  pub may : S → Event → Type 0
  pub step : S → Event → S

module _ {S : Type 0} (w : Watch S) where
  abbrev pub Watched : S → List Event → Type 0
  Watched s [] = Unit
  Watched s (e ∷ es) = w.may s e × Watched (w.step s e) es

  abbrev pub after : S → List Event → S
  after s [] = s
  after s (e ∷ es) = after (w.step s e) es

  abbrev Then : S → Event → (S → Type 0) → Type 0
  Then s e next = w.may s e × next (w.step s e)

  -- From the state on, whatever is answered, only what may happen does, and the end is as `Post` says.
  abbrev pub Keeps : {A : Type 0} → (S → A → Type 0) → S → Program A → Type 0
  Keeps Post s (ret a) = Post s a
  Keeps Post s (call o m v k) =
      (r : Result UbusError Json) → Then s (called o m v r) (λ t. Keeps Post t (k r))
  Keeps Post s (at_command c k) =
      (r : Result String String) → Then s (sent_at c r) (λ t. Keeps Post t (k r))
  Keeps Post s (command b l n k) =
      (r : Result String String) → Then s (ran b l r) (λ t. Keeps Post t (k r))
  Keeps Post s (file op k) =
      (r : Result String (Unit {0})) → Then s (filed op r) (λ t. Keeps Post t (k r))
  Keeps Post s (sms x v k) = (r : SmsReply) → Then s (texted x v r) (λ t. Keeps Post t (k r))
  Keeps Post s (sleep n p) = Then s (slept n) (λ t. Keeps Post t p)

  pub bind-Keeps :
      {A B : Type 0} (Mid : S → A → Type 0) (Post : S → B → Type 0) (p : Program A)
      (f : A → Program B) (s : S)
      → Keeps Mid s p
      → ((t : S) (a : A) → Mid t a → Keeps Post t (f a))
      → Keeps Post s (p >>= f)
  unfolding ◌>>=◌
  bind-Keeps Mid Post (ret a) f s h g = g s a h
  bind-Keeps Mid Post (call o m v k) f s h g =
      λ r. ((h r).0, bind-Keeps Mid Post (k r) f (w.step s (called o m v r)) (h r).1 g)
  bind-Keeps Mid Post (at_command c k) f s h g =
      λ r. ((h r).0, bind-Keeps Mid Post (k r) f (w.step s (sent_at c r)) (h r).1 g)
  bind-Keeps Mid Post (command b l t k) f s h g =
      λ r. ((h r).0, bind-Keeps Mid Post (k r) f (w.step s (ran b l r)) (h r).1 g)
  bind-Keeps Mid Post (file op k) f s h g =
      λ r. ((h r).0, bind-Keeps Mid Post (k r) f (w.step s (filed op r)) (h r).1 g)
  bind-Keeps Mid Post (sms x v k) f s h g =
      λ r. ((h r).0, bind-Keeps Mid Post (k r) f (w.step s (texted x v r)) (h r).1 g)
  bind-Keeps Mid Post (sleep t p) f s h g =
      (h.0, bind-Keeps Mid Post p f (w.step s (slept t)) h.1 g)

  -- What is shown along a program holds of its runs.
  pub run_lem :
      {A : Type 0} {p : Program A} {es : List Event} {a : A} (Post : S → A → Type 0) (s : S)
      → Keeps Post s p
      → Run p es a
      → Watched s es × Post (after s es) a
  run_lem Post s h ends = (tt, h)
  run_lem Post s h (calls r more) = let x = run_lem Post _ (h r).1 more in (((h r).0, x.0), x.1)
  run_lem Post s h (sends r more) = let x = run_lem Post _ (h r).1 more in (((h r).0, x.0), x.1)
  run_lem Post s h (runs r more) = let x = run_lem Post _ (h r).1 more in (((h r).0, x.0), x.1)
  run_lem Post s h (files r more) = let x = run_lem Post _ (h r).1 more in (((h r).0, x.0), x.1)
  run_lem Post s h (texts r more) = let x = run_lem Post _ (h r).1 more in (((h r).0, x.0), x.1)
  run_lem Post s h (sleeps more) = let x = run_lem Post _ h.1 more in ((h.0, x.0), x.1)
