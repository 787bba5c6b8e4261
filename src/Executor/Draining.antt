-- ===== src/Executor/Draining.antt =====
-- A drain does the jobs that were waiting when it began, and the count of control jobs is right
-- (rust/src/executor.rs).
use zte_u60_pro_mu5250_data.Common.{
  ℕ, zero, suc, ◌+◌, ◌≤◌, ◌<◌, Bool, true, false, ◌&&◌, List, [], ◌∷◌, ◌++◌, length, leb, sub_u64,
  u64_mod, if◌then◌else◌, ◌≡◌, refl, sym, ap, ◌∙◌, arith, append_assoc, append-nil,
}
use zte_u60_pro_mu5250_data.Executor.Queue.{Job, Queue, push, push_all, pop, drain_loop, drain}

-- Pushing only adds jobs at the end.
abbrev pub Extends : List Job → Queue → Type 0
Extends js q = (extra : List Job) × (q.jobs ≡ js ++ extra)

push-Extends : (limit : ℕ) (q : Queue) (job : Job) → Extends q.jobs (push limit q job).0
unfolding push
push-Extends limit q job = by_room (job.control && leb limit q.controls) refl
  where
    by_room :
        (b : Bool) → (job.control && leb limit q.controls) ≡ b → Extends q.jobs (push limit q job).0
    by_room true e = ([], ground (arith, append-nil q.jobs))
    by_room false e = (job ∷ [], ground arith)

push_all-Extends :
    (limit : ℕ) (q : Queue) (more : List Job) → Extends q.jobs (push_all limit q more)
unfolding push_all
push_all-Extends limit q [] = ([], sym (append-nil q.jobs))
push_all-Extends limit q (job ∷ more) =
    let (one, e) = push-Extends limit q job in
    let (rest, f) = push_all-Extends limit (push limit q job).0 more in
    (one ++ rest, f ∙ ap (λ js. js ++ rest) e ∙ append_assoc q.jobs one rest)

drain_loop-front :
    (limit : ℕ) (arrivals : Job → List Job) (front later jobs : List Job) (controls : ℕ)
    → jobs ≡ front ++ later
    → (drain_loop limit arrivals (length front) (record { jobs = jobs; controls = controls })).0
      ≡ front
unfolding drain_loop pop
drain_loop-front limit arrivals [] later jobs controls e = refl
drain_loop-front limit arrivals (job ∷ front) later [] controls e = ground arith
drain_loop-front limit arrivals (job ∷ front) later (j ∷ rest) controls e =
    let taken : Queue = record {
      jobs = rest;
      controls = if j.control then sub_u64 controls 1 else controls;
    } in
    let after = push_all limit taken (arrivals j) in
    let (extra, x) = push_all-Extends limit taken (arrivals j) in
    let tails : rest ≡ front ++ later = cc in
    let all = x ∙ ap (λ js. js ++ extra) tails ∙ append_assoc front later extra in
    let heads : j ≡ job = cc in
    let done =
      drain_loop-front limit arrivals front (later ++ extra) after.jobs after.controls all in
    ap (λ k. k ∷ (drain_loop limit arrivals (length front) after).0) heads
    ∙ ap (λ js. job ∷ js) done

-- A drain does exactly the jobs that were waiting when it began, in their order, whatever is pushed
-- meanwhile.
pub drain_snapshot :
    (limit : ℕ) (arrivals : Job → List Job) (q : Queue) → (drain limit arrivals q).0 ≡ q.jobs
unfolding drain
drain_snapshot limit arrivals q =
    drain_loop-front limit arrivals q.jobs [] q.jobs q.controls (sym (append-nil q.jobs))

abbrev pub controls_of : List Job → ℕ
controls_of [] = 0
controls_of (job ∷ more) = (if job.control then 1 else 0) + controls_of more

-- The count is that of the waiting control jobs, and within the limit.
pub record Accounts (limit : ℕ) (q : Queue) : Type 0 where
  pub counted : q.controls ≡ controls_of q.jobs
  pub within : q.controls ≤ limit

controls_of-append : (xs ys : List Job) → controls_of (xs ++ ys) ≡ controls_of xs + controls_of ys
controls_of-append [] ys = omega arith
controls_of-append (job ∷ more) ys = omega (arith, controls_of-append more ys)

push-Accounts :
    (limit : ℕ) (q : Queue) (job : Job) → Accounts limit q → Accounts limit (push limit q job).0
unfolding push
push-Accounts limit q job h = ground (arith, controls_of-append q.jobs (job ∷ []))

pub push_all-Accounts :
    (limit : ℕ) (q : Queue) (more : List Job)
    → Accounts limit q
    → Accounts limit (push_all limit q more)
unfolding push_all
push_all-Accounts limit q [] h = h
push_all-Accounts limit q (job ∷ more) h =
    push_all-Accounts limit (push limit q job).0 more (push-Accounts limit q job h)

pop-Accounts :
    (limit : ℕ) (job : Job) (rest : List Job) (controls : ℕ)
    → limit < u64_mod
    → Accounts limit (record { jobs = job ∷ rest; controls = controls })
    → Accounts limit
        (record { jobs = rest; controls = if job.control then sub_u64 controls 1 else controls })
pop-Accounts limit job rest controls w h = ground arith

drain_loop-Accounts :
    (limit : ℕ) (arrivals : Job → List Job) (n : ℕ) (jobs : List Job) (controls : ℕ)
    → limit < u64_mod
    → Accounts limit (record { jobs = jobs; controls = controls })
    → Accounts limit (drain_loop limit arrivals n (record { jobs = jobs; controls = controls })).1
unfolding drain_loop pop
drain_loop-Accounts limit arrivals zero jobs controls w h = h
drain_loop-Accounts limit arrivals (suc n) [] controls w h = h
drain_loop-Accounts limit arrivals (suc n) (job ∷ rest) controls w h =
    let taken : Queue = record {
      jobs = rest;
      controls = if job.control then sub_u64 controls 1 else controls;
    } in
    let after = push_all limit taken (arrivals job) in
    drain_loop-Accounts limit arrivals n after.jobs after.controls w
      (push_all-Accounts limit taken (arrivals job) (pop-Accounts limit job rest controls w h))

-- A drain keeps the count of waiting control jobs right and within the limit, whatever is pushed
-- meanwhile.
pub drain-Accounts :
    (limit : ℕ) (arrivals : Job → List Job) (q : Queue)
    → limit < u64_mod
    → Accounts limit q
    → Accounts limit (drain limit arrivals q).1
unfolding drain
drain-Accounts limit arrivals q w h =
    drain_loop-Accounts limit arrivals (length q.jobs) q.jobs q.controls w h
