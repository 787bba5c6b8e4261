-- ===== src/Executor/Queue.antt =====
-- `push` and `drain` (rust/src/executor.rs). What a job does is a parameter: the jobs that are
-- pushed while it runs, by itself or by others. The wake-up of the main loop and the mark of progress
-- after each job are left out.
use zte_u60_pro_mu5250_data.Common.{
  ℕ, zero, suc, ◌+◌, Bool, true, false, ◌&&◌, Option, none, some, List, [], ◌∷◌, ◌++◌, length, leb,
  sub_u64, if◌then◌else◌,
}

abbrev pub control_queue : ℕ
control_queue = 8

pub record Job : Type 0 where
  pub control : Bool
  pub number : ℕ

pub record Queue : Type 0 where
  pub jobs : List Job
  pub controls : ℕ

-- The answer is whether the job was taken; otherwise `Busy`.
unfoldable pub push : ℕ → Queue → Job → Queue × Bool
push limit q job = if job.control && leb limit q.controls then (q, false) else (
  record {
    jobs = q.jobs ++ job ∷ [];
    controls = if job.control then q.controls + 1 else q.controls;
  },
  true,
)

unfoldable pub push_all : ℕ → Queue → List Job → Queue
push_all limit q [] = q
push_all limit q (job ∷ more) = push_all limit (push limit q job).0 more

-- The block that takes the first job.
unfoldable pub pop : List Job → ℕ → Option (Job × Queue)
pop [] controls = none
pop (job ∷ rest) controls =
    some
      (job, record { jobs = rest; controls = if job.control then sub_u64 controls 1 else controls })

-- `n` passes of the loop of `drain`: the jobs that were done, in order, and the queue.
unfoldable pub drain_loop : ℕ → (Job → List Job) → ℕ → Queue → List Job × Queue
unfolding pop
drain_loop limit arrivals zero q = ([], q)
drain_loop limit arrivals (suc n) q = elim (pop q.jobs q.controls) [
  | none ↦ ([], q)
  | some (job, q') ↦
      let (later, q'') = drain_loop limit arrivals n (push_all limit q' (arrivals job)) in
      (job ∷ later, q'')
]

unfoldable pub drain : ℕ → (Job → List Job) → Queue → List Job × Queue
drain limit arrivals q = drain_loop limit arrivals (length q.jobs) q
