-- ===== src/Camera/System/Ending.antt =====
-- How much work is left for a shutdown that waits for its workers, and what each step does to it.
use robo_baton_4p_ros2_demo.Prelude.{
  ℕ, ◌+◌, ◌*◌, ◌<◌, ◌≡◌, ◌⊎◌, inl, inr, refl, sym, ap, ◌∙◌, Bool, true, false, Option, some, List,
  [], ◌∷◌, length, arith,
}
use robo_baton_4p_ros2_demo.Camera.Frame.{FrameSetItem, FrameSet, RetainedFrameJob}
use robo_baton_4p_ros2_demo.Camera.Core.{
  Worker, popping, publishing, exited, Core, set_worker, record_failure,
  close_admission_and_request_stop,
}
use robo_baton_4p_ros2_demo.Camera.Callback.{
  Callback, outside, raising, at_items, at_push, in_wait, Seen, ItemReplies, callback_enter,
  handle_item, handle_frame, retain_item, count_source, callback_push, drop_job, callback_catch,
  worker_pop, worker_published, worker_failed,
}
use robo_baton_4p_ros2_demo.Camera.System.{
  joining, System, Step, starts, cleans, finishes, join_fails, delivers, handles, leaves,
  enters_push, wakes_push, catches, pops, publishes, fails, Reach,
}
use robo_baton_4p_ros2_demo.Camera.System.Inv.{Reach-Inv, is_absent}
use robo_baton_4p_ros2_demo.Camera.System.Safety.{shutdown_ends_push, shutdown_ends_pop}

-- How many steps the callback takes at most before it is outside, and a worker before it has left its
-- loop, once the queues are closed.
abbrev pub callback_work : Callback → ℕ
callback_work outside = 0
callback_work raising = 1
callback_work (at_items items seen) = 1 + 2 * length items
callback_work (at_push job id rest seen) = 2 + 2 * length rest
callback_work (in_wait job id rest seen) = 2 + 2 * length rest

abbrev pub worker_work : Worker → ℕ
worker_work popping = 1
worker_work (publishing job) = 2
worker_work _ = 0

unfoldable pub work : System → ℕ
work s =
    callback_work s.callback
    + worker_work (s.core.lanes 0).worker
    + worker_work (s.core.lanes 1).worker
    + worker_work (s.core.lanes 2).worker
    + worker_work (s.core.lanes 3).worker

count_source-worker :
    (r : ItemReplies) (id j : ℕ) (c : Core)
    → ((count_source r id c).lanes j).worker ≡ (c.lanes j).worker
unfolding count_source
count_source-worker r id j c = ground arith

handle_item-worker :
    (r : ItemReplies) (item : FrameSetItem) (rest : List FrameSetItem) (seen : Seen) (c : Core)
    (j : ℕ)
    → ((handle_item r item rest seen c).0.lanes j).worker ≡ (c.lanes j).worker
unfolding handle_item handle_frame retain_item
handle_item-worker r item rest seen c j = ground (arith, count_source-worker r item.camera_id j c)

handle_item-work :
    (r : ItemReplies) (item : FrameSetItem) (rest : List FrameSetItem) (seen : Seen) (c : Core)
    → callback_work (handle_item r item rest seen c).1 < callback_work (at_items (item ∷ rest) seen)
unfolding handle_item handle_frame retain_item
handle_item-work r item rest seen c = ground arith

pub handles-work :
    (r : ItemReplies) (item : FrameSetItem) (rest : List FrameSetItem) (seen : Seen) (s : System)
    → s.callback ≡ at_items (item ∷ rest) seen
    → work (record s {
      core = (handle_item r item rest seen s.core).0;
      callback = (handle_item r item rest seen s.core).1;
    })
      < work s
unfolding work
handles-work r item rest seen s e =
    let same = handle_item-worker r item rest seen s.core in
    rw (e, same 0, same 1, same 2, same 3) (omega (arith, handle_item-work r item rest seen s.core))

pub drops-work :
    (job : RetainedFrameJob) (id : ℕ) (rest : List FrameSetItem) (seen : Seen) (s : System)
    → (s.callback ≡ at_push job id rest seen) ⊎ (s.callback ≡ in_wait job id rest seen)
    → work (record s { core = drop_job job id s.core; callback = at_items rest seen }) < work s
unfolding work drop_job
drops-work job id rest seen s e = ground (arith, e)

pub catches-work :
    (s : System)
    → s.callback ≡ raising
    → work (record s { core = callback_catch s.core; callback = outside }) < work s
unfolding work callback_catch record_failure close_admission_and_request_stop
catches-work s e = ground (arith, e)

pub exits-work :
    (id : ℕ) (s : System)
    → id < 4
    → (s.core.lanes id).worker ≡ popping
    → work (record s { core = set_worker s.core id exited }) < work s
unfolding work
exits-work id s low e = ground (arith, low, e)

pub published-work :
    (id : ℕ) (job : RetainedFrameJob) (s : System)
    → id < 4
    → (s.core.lanes id).worker ≡ publishing job
    → work (record s { core = worker_published id job s.core }) < work s
unfolding work worker_published
published-work id job s low e = ground (arith, low, e)

failed-work :
    (id : ℕ) (job : RetainedFrameJob) (s : System)
    → id < 4
    → (s.core.lanes id).worker ≡ publishing job
    → work (record s { core = worker_failed id job s.core }) < work s
unfolding work worker_failed record_failure close_admission_and_request_stop
failed-work id job s low e = ground (arith, low, e)

pub ended : (s : System) → Reach s → s.owner ≡ joining → s.core.terminal ≡ true
ended s r j = (Reach-Inv r).flags.under_way (ground (arith, j))

in_range : (id : ℕ) (s : System) → Reach s → is_absent (s.core.lanes id).worker ≡ false → id < 4
in_range id s r e = ground (arith, e, ((Reach-Inv r).lane id).in_range)

pub leaves-work :
    (seen : Seen) (s : System)
    → s.callback ≡ at_items [] seen
    → work (record s { callback = outside }) < work s
unfolding work
leaves-work seen s e = ground (arith, e)

dropped :
    (frame_set : Option FrameSet) (s : System)
    → Reach s
    → s.owner ≡ joining
    → callback_enter frame_set s.core ≡ outside
unfolding callback_enter
dropped frame_set s r j = rw ((Reach-Inv r).flags.ended (ended s r j)) refl

pushes-work :
    (woken : Bool) (job : RetainedFrameJob) (id : ℕ) (rest : List FrameSetItem) (seen : Seen)
    (s : System)
    → Reach s
    → s.core.terminal ≡ true
    → (s.callback ≡ at_push job id rest seen) ⊎ (s.callback ≡ in_wait job id rest seen)
    → (c : Core) (cb : Callback) → callback_push woken job id rest seen s.core ≡ some (c, cb)
    → work (record s { core = c; callback = cb }) < work s
pushes-work woken job id rest seen s r t at c cb h =
    let same : some (c, cb) ≡ some (drop_job job id s.core, at_items rest seen) =
      sym h ∙ shutdown_ends_push woken job id rest seen r t at in
    let core : c ≡ drop_job job id s.core = cc same in
    let place : cb ≡ at_items rest seen = cc same in
    rw (core, place) (drops-work job id rest seen s at)

pops-work :
    (id : ℕ) (s : System)
    → Reach s
    → s.core.terminal ≡ true
    → (c : Core) → (s.core.lanes id).worker ≡ popping
    → worker_pop id s.core ≡ some c
    → work (record s { core = c }) < work s
pops-work id s r t c e h =
    let same : some c ≡ some (set_worker s.core id exited) = sym h ∙ shutdown_ends_pop id r t e in
    let core : c ≡ set_worker s.core id exited = cc same in
    rw core (exits-work id s (in_range id s r (ground (arith, e))) e)

-- While the shutdown waits for its workers, no step but those of the owner leaves as much work as
-- before, except that a frame set that is delivered is dropped and leaves the system as it is.
pub shutdown_decreases :
    {s t : System}
    → Reach s
    → s.owner ≡ joining
    → Step s t
    → t.owner ≡ joining
    → (t ≡ s) ⊎ (work t < work s)
shutdown_decreases r j (starts config replies e) k = absurd (ground (arith, e, j))
shutdown_decreases r j (cleans e) k = absurd (ground (arith, e, j))
shutdown_decreases r j (finishes e d o) k = absurd (ground (arith, k))
shutdown_decreases r j (join_fails e) k = absurd (ground (arith, k))
shutdown_decreases {s} r j (delivers frame_set e) k =
    inl (ap (λ cb. record s { callback = cb }) (dropped frame_set s r j ∙ sym e))
shutdown_decreases {s} r j (handles replies item rest seen e) k =
    inr (handles-work replies item rest seen s e)
shutdown_decreases {s} r j (leaves seen e) k = inr (leaves-work seen s e)
shutdown_decreases {s} r j (enters_push job id rest seen c cb e h) k =
    inr (pushes-work false job id rest seen s r (ended s r j) (inl e) c cb h)
shutdown_decreases {s} r j (wakes_push job id rest seen c cb e h) k =
    inr (pushes-work true job id rest seen s r (ended s r j) (inr e) c cb h)
shutdown_decreases {s} r j (catches e) k = inr (catches-work s e)
shutdown_decreases {s} r j (pops id c e h) k = inr (pops-work id s r (ended s r j) c e h)
shutdown_decreases {s} r j (publishes id job e) k =
    inr (published-work id job s (in_range id s r (ground (arith, e))) e)
shutdown_decreases {s} r j (fails id job e) k =
    inr (failed-work id job s (in_range id s r (ground (arith, e))) e)
