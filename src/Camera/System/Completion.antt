-- ===== src/Camera/System/Completion.antt =====
-- How the threads can complete a shutdown that waits for its workers.
use robo_baton_4p_ros2_demo.Prelude.{
  ℕ, zero, suc, ◌+◌, ◌≤◌, ◌<◌, ◌≡◌, ◌⊎◌, inl, inr, refl, subst, ◌∙◌, true, false, [], ◌∷◌, arith,
  ◌==◌, pos, Bool-cases,
}
use robo_baton_4p_ros2_demo.Camera.Frame.{empty_info}
use robo_baton_4p_ros2_demo.Camera.Core.{
  Worker, absent, popping, publishing, exited, joined, set_worker,
}
use robo_baton_4p_ros2_demo.Camera.Lifecycle.{cleanup_finish}
use robo_baton_4p_ros2_demo.Camera.Callback.{
  Callback, outside, raising, at_items, at_push, in_wait, ItemReplies, handle_item, drop_job,
  callback_catch, worker_published,
}
use robo_baton_4p_ros2_demo.Camera.System.{
  idle, joining, System, IsDone, Step, finishes, handles, leaves, enters_push, wakes_push, catches,
  pops, publishes, Reach, later,
}
use robo_baton_4p_ros2_demo.Camera.System.Safety.{shutdown_ends_push, shutdown_ends_pop}
use robo_baton_4p_ros2_demo.Camera.System.Ending.{
  work, ended, handles-work, leaves-work, drops-work, catches-work, exits-work, published-work,
}

-- Systems that come after one, by a number of steps.
pub data After (s : System) : ℕ → System → Type 0 where
  at_once : After s 0 s
  then_ : {n : ℕ} {t u : System} → After s n t → Step t u → After s (n + 1) u

-- A step that leaves less work and keeps the owner waiting.
abbrev Nearer : System → Type 0
Nearer s = (t : System) × Step s t × (t.owner ≡ s.owner) × (work t < work s)

-- What libsc132 may answer for an item.
abbrev no_replies : ItemReplies
no_replies = record { info_status = pos 1; info = empty_info; retain_status = pos 1; now_ns = 0 }

callback-Nearer :
    (s : System) (cb : Callback)
    → Reach s
    → s.core.terminal ≡ true
    → s.callback ≡ cb
    → (cb ≡ outside) ⊎ Nearer s
callback-Nearer s outside r t e = inl refl
callback-Nearer s raising r t e = inr (
  record s { core = callback_catch s.core; callback = outside },
  catches e,
  refl,
  catches-work s e,
)
callback-Nearer s (at_items [] seen) r t e =
    inr (record s { callback = outside }, leaves seen e, refl, leaves-work seen s e)
callback-Nearer s (at_items (item ∷ rest) seen) r t e = inr (
  record s {
    core = (handle_item no_replies item rest seen s.core).0;
    callback = (handle_item no_replies item rest seen s.core).1;
  },
  handles no_replies item rest seen e,
  refl,
  handles-work no_replies item rest seen s e,
)
callback-Nearer s (at_push job id rest seen) r t e = inr (
  record s { core = drop_job job id s.core; callback = at_items rest seen },
  enters_push job id rest seen (drop_job job id s.core) (at_items rest seen) e
      (shutdown_ends_push false job id rest seen r t (inl e)),
  refl,
  drops-work job id rest seen s (inl e),
)
callback-Nearer s (in_wait job id rest seen) r t e = inr (
  record s { core = drop_job job id s.core; callback = at_items rest seen },
  wakes_push job id rest seen (drop_job job id s.core) (at_items rest seen) e
      (shutdown_ends_push true job id rest seen r t (inr e)),
  refl,
  drops-work job id rest seen s (inr e),
)

worker-Nearer :
    (s : System) (id : ℕ) (w : Worker)
    → Reach s
    → s.core.terminal ≡ true
    → id < 4
    → (s.core.lanes id).worker ≡ w
    → IsDone w ⊎ Nearer s
worker-Nearer s id absent r t low e = inl (inl refl)
worker-Nearer s id exited r t low e = inl (inr (inl refl))
worker-Nearer s id joined r t low e = inl (inr (inr refl))
worker-Nearer s id popping r t low e = inr (
  record s { core = set_worker s.core id exited },
  pops id (set_worker s.core id exited) e (shutdown_ends_pop id r t e),
  refl,
  exits-work id s low e,
)
worker-Nearer s id (publishing job) r t low e = inr (
  record s { core = worker_published id job s.core },
  publishes id job e,
  refl,
  published-work id job s low e,
)

up_to :
    (s : System) (n id : ℕ)
    → ((j : ℕ) → j < n → IsDone (s.core.lanes j).worker)
    → IsDone (s.core.lanes n).worker
    → id < n + 1
    → IsDone (s.core.lanes id).worker
up_to s n id before last h = elim (Bool-cases (id == n)) [
  | inl same ↦
      let e : n ≡ id = ground (arith, same) in subst (λ j. IsDone (s.core.lanes j).worker) e last
  | inr other ↦ before id (ground (arith, h, other))
]

-- A step before a path.
After-step : {s t u : System} {n : ℕ} → Step s t → After t n u → After s (n + 1) u
After-step step at_once = then_ at_once step
After-step step (then_ path last) = then_ (After-step step path) last

-- All workers are done, or one can go on.
workers-Nearer :
    (s : System) (n : ℕ)
    → Reach s
    → s.core.terminal ≡ true
    → n ≤ 4
    → ((id : ℕ) → id < n → IsDone (s.core.lanes id).worker) ⊎ Nearer s
workers-Nearer s zero r t low = inl (λ id h. absurd (omega (arith, h)))
workers-Nearer s (suc n) r t low = elim (workers-Nearer s n r t (omega (arith, low))) [
  | inr nearer ↦ inr nearer
  | inl before ↦ elim (worker-Nearer s n (s.core.lanes n).worker r t (omega (arith, low)) refl) [
    | inr nearer ↦ inr nearer
    | inl last ↦ inl (λ id h. up_to s n id before last (omega (arith, h)))
  ]
]

finish : System → System
finish s = record s { core = (cleanup_finish s.core).0; owner = idle }

-- The cleanup can finish, or a thread can go on.
goes_on : (s : System) → Reach s → s.owner ≡ joining → Step s (finish s) ⊎ Nearer s
unfolding finish
goes_on s r j =
    let t = ended s r j in
    elim (callback-Nearer s s.callback r t refl) [
      | inr nearer ↦ inr nearer
      | inl out ↦ elim (workers-Nearer s 4 r t (omega arith)) [
        | inr nearer ↦ inr nearer
        | inl over ↦ inl (finishes j over out)
      ]
    ]

completes :
    (n : ℕ) (s : System)
    → Reach s
    → s.owner ≡ joining
    → work s ≤ n
    → (k : ℕ) × (t : System) × After s k t
      × (k ≤ n + 1)
      × (t.owner ≡ idle)
      × (t.core.cleanup_complete ≡ true)
unfolding finish cleanup_finish
completes zero s r j m = elim (goes_on s r j) [
  | inl last ↦ (1, finish s, then_ at_once last, omega arith, refl, refl)
  | inr (t, step, same, less) ↦ absurd (omega (arith, less, m))
]
completes (suc n) s r j m = elim (goes_on s r j) [
  | inl last ↦ (1, finish s, then_ at_once last, omega arith, refl, refl)
  | inr (t, step, same, less) ↦
      let (k, u, path, short, out, done) =
        completes n t (later r step) (same ∙ j) (omega (arith, less, m)) in
      (k + 1, u, After-step step path, omega (arith, short), out, done)
]

-- From every reachable state in which a shutdown waits for its workers there is a sequence of steps, at
-- most one more than the work that is left, after which the cleanup is complete and the owner is
-- outside.
pub shutdown_completes :
    (s : System)
    → Reach s
    → s.owner ≡ joining
    → (k : ℕ) × (t : System) × After s k t
      × (k ≤ work s + 1)
      × (t.owner ≡ idle)
      × (t.core.cleanup_complete ≡ true)
shutdown_completes s r j = completes (work s) s r j (omega arith)
