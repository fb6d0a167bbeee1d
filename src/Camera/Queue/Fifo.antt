-- ===== src/Camera/Queue/Fifo.antt =====
-- A queue under any sequence of calls is first in, first out.
use robo_baton_4p_ros2_demo.Prelude.{◌≡◌, refl, ap, sym, ◌∙◌, List, [], ◌∷◌, ◌++◌, arith}
use mathlib.Core.List.{append-nil, append_assoc}
use robo_baton_4p_ros2_demo.Camera.Frame.{RetainedFrameJob}
use robo_baton_4p_ros2_demo.Camera.Queue.{
  FrameQueue, Pushed, accepted, Popped, popped, push, push_resume, pop, close_admission,
  stop_and_detach,
}

-- A stretch of a call, in the order in which the calls hold the mutex.
pub data Op : Type 0 where
  pushes resumes : RetainedFrameJob → Op
  pops closes detaches : Op

-- The jobs that the queue took in and the jobs that it handed out, both oldest first.
pub record Traffic : Type 0 where
  pub taken : List RetainedFrameJob
  pub handed : List RetainedFrameJob

abbrev took : Pushed → RetainedFrameJob → List RetainedFrameJob
took accepted job = job ∷ []
took _ job = []

abbrev gave : Popped → List RetainedFrameJob
gave (popped job) = job ∷ []
gave _ = []

unfoldable pub step : Op → FrameQueue → FrameQueue × Traffic
step (pushes job) q = let (q', r) = push job q in (q', record { taken = took r job; handed = [] })
step (resumes job) q =
    let (q', r) = push_resume job q in (q', record { taken = took r job; handed = [] })
step pops q = let (q', r) = pop q in (q', record { taken = []; handed = gave r })
step closes q = (close_admission q, record { taken = []; handed = [] })
step detaches q = let (q', jobs) = stop_and_detach q in (q', record { taken = []; handed = jobs })

unfoldable pub run : List Op → FrameQueue → FrameQueue × Traffic
run [] q = (q, record { taken = []; handed = [] })
run (o ∷ rest) q =
    let (q', t) = step o q in
    let (q'', t') = run rest q' in
    (q'', record { taken = t.taken ++ t'.taken; handed = t.handed ++ t'.handed })

step-fifo :
    (o : Op) (q : FrameQueue) → let (q', t) = step o q in q.queue ++ t.taken ≡ t.handed ++ q'.queue
unfolding step push pop close_admission stop_and_detach
step-fifo (pushes job) q = ground (arith, append-nil q.queue)
step-fifo (resumes job) q = ground (arith, append-nil q.queue)
step-fifo pops q = ground (arith, append-nil q.queue)
step-fifo closes q = append-nil q.queue
step-fifo detaches q = refl

-- Whatever calls are made in whatever order, the jobs in the queue at first followed by those taken in
-- are the jobs handed out followed by those still in the queue: none is lost, doubled or overtaken,
-- across waits, rejections, closing and detaching.
pub run-fifo :
    (ops : List Op) (q : FrameQueue)
    → let (q', t) = run ops q in q.queue ++ t.taken ≡ t.handed ++ q'.queue
unfolding run
run-fifo [] q = append-nil q.queue
run-fifo (o ∷ rest) q =
    let (q', t) = step o q in
    let (q'', t') = run rest q' in
    sym (append_assoc q.queue t.taken t'.taken)
    ∙ ap (λ l. l ++ t'.taken) (step-fifo o q)
    ∙ append_assoc t.handed q'.queue t'.taken
    ∙ ap (λ l. t.handed ++ l) (run-fifo rest q')
    ∙ sym (append_assoc t.handed t'.handed q''.queue)
