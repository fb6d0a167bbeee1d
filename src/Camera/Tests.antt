-- ===== src/Camera/Tests.antt =====
-- The theorems of the camera modules, at states of the run and at small queues.
use robo_baton_4p_ros2_demo.Prelude.{
  ltb, ℕ, ◌+◌, ◌≤◌, ◌<◌, ◌≡◌, ◌⊎◌, refl, inl, true, false, List, [], ◌∷◌, ◌++◌, arith,
}
use robo_baton_4p_ros2_demo.Camera.Frame.{empty_job, retains, releases}
use robo_baton_4p_ros2_demo.Camera.Queue.{Pushed, new_queue, push, pop}
use robo_baton_4p_ros2_demo.Camera.Queue.Laws.{IsQueue}
use robo_baton_4p_ros2_demo.Camera.Queue.Fifo.{pushes, pops, closes, run, run-fifo}
use robo_baton_4p_ros2_demo.Camera.Core.{default_core_config, validate_config, Core, new_core}
use robo_baton_4p_ros2_demo.Camera.Lifecycle.{start, cleanup_finish}
use robo_baton_4p_ros2_demo.Camera.Callback.{
  outside, at_items, at_push, handle_item, handle_frame, is_valid_info, retain_item, count_source,
  callback_push, push_on, after_push, pop_on, after_pop, drop_job, worker_pop,
}
use robo_baton_4p_ros2_demo.Camera.System.{joining, idle, System, Step, enters_push, initial}
use robo_baton_4p_ros2_demo.Camera.System.Ending.{work, shutdown_decreases}
use robo_baton_4p_ros2_demo.Camera.System.Completion.{After, shutdown_completes}
use robo_baton_4p_ros2_demo.Camera.System.Ownership.{
  held, held_lane, held_jobs, Reach-Balanced, quiescent-released,
}
use robo_baton_4p_ros2_demo.Camera.System.Safety.{shutdown_ends_push}
use robo_baton_4p_ros2_demo.Camera.System.Calls.{stops, Reach-Once}
use robo_baton_4p_ros2_demo.Metrics.{
  k64_bit, new_metrics, snapshot, record_publish_success, record_publish_failure,
  record_auxiliary_publish_success,
}
use robo_baton_4p_ros2_demo.Metrics.Window.{run as run_ops}
use robo_baton_4p_ros2_demo.Camera.Reports.{
  Report, succeeded, failed, auxiliary_succeeded, report, reports, ops_of, change_metrics,
  core_record_publish_success, core_record_publish_failure, core_record_auxiliary_publish_success,
  core_snapshot, core_snapshot-reports,
}
use robo_baton_4p_ros2_demo.Camera.Run.{
  job_7, seen_0, queue_of, core_popped, core_cleaned, core_interrupted, popped_run, cleaned_run,
  interrupted_run, interrupted_terminal,
}

full_IsQueue : IsQueue (queue_of (empty_job ∷ empty_job ∷ []))
full_IsQueue = record { bounded = omega arith; room = omega arith }

full_waits : (push job_7 (queue_of (empty_job ∷ empty_job ∷ []))).1 ≡ Pushed.waits
unfolding push
full_waits = refl

run-fifo_example :
    let (q, t) = run (pushes job_7 ∷ pops ∷ pushes empty_job ∷ closes ∷ []) (queue_of []) in
    t.taken ≡ t.handed ++ q.queue
run-fifo_example = run-fifo (pushes job_7 ∷ pops ∷ pushes empty_job ∷ closes ∷ []) (queue_of [])

Reach-Balanced_example :
    retains 7 core_popped.calls ≡ releases 7 core_popped.calls + held 7 core_popped outside
Reach-Balanced_example = Reach-Balanced popped_run 7

-- There the worker holds the frame.
worker_holds : held 7 core_popped outside ≡ 1
unfolding initial new_core default_core_config start validate_config handle_item handle_frame
    is_valid_info retain_item count_source callback_push push_on after_push push new_queue
    worker_pop pop_on after_pop pop held_lane held_jobs
worker_holds = refl

quiescent-released_example : releases 7 core_cleaned.calls ≡ retains 7 core_cleaned.calls
unfolding cleanup_finish
quiescent-released_example = quiescent-released cleaned_run refl 7

-- The cleanup began while the callback was about to push.
abbrev interrupted : System
interrupted = record {
  core = core_interrupted;
  callback = at_push job_7 0 [] seen_0;
  owner = joining;
}

-- The callback finds the queue stopped and drops the job.
abbrev dropped : System
dropped = record {
  core = drop_job job_7 0 core_interrupted;
  callback = at_items [] seen_0;
  owner = joining;
}

drops : Step interrupted dropped
drops =
    enters_push job_7 0 [] seen_0 (drop_job job_7 0 core_interrupted) (at_items [] seen_0) refl
      (shutdown_ends_push false job_7 0 [] seen_0 interrupted_run interrupted_terminal (inl refl))

shutdown_decreases_example : (dropped ≡ interrupted) ⊎ (work dropped < work interrupted)
shutdown_decreases_example = shutdown_decreases interrupted_run refl drops refl

shutdown_completes_example :
    (k : ℕ) × (t : System) × After interrupted k t
    × (k ≤ work interrupted + 1)
    × (t.owner ≡ idle)
    × (t.core.cleanup_complete ≡ true)
shutdown_completes_example = shutdown_completes interrupted interrupted_run refl

Reach-Once_example : stops core_cleaned.calls ≡ 2
unfolding cleanup_finish
Reach-Once_example = (Reach-Once cleaned_run).stopped_twice

-- The core of the run with the rate metrics switched on.
abbrev metered : Core
metered = record new_core { config = record default_core_config { rate_metrics_enabled = true } }

abbrev some_reports : List Report
some_reports = succeeded 1 250 [] ∷ failed 2 ∷ succeeded 9 70 [] ∷ auxiliary_succeeded 1 ∷ []

core_snapshot-reports_example :
    (core_snapshot 1 5000 (reports some_reports metered)
      ≡ snapshot 5000 (run_ops (ops_of 1 some_reports) (new_metrics k64_bit)))
    × ((j : ℕ) → ltb j 4 ≡ false → (reports some_reports metered).lanes j ≡ metered.lanes j)
unfolding new_core
core_snapshot-reports_example = core_snapshot-reports some_reports 1 5000 metered refl

reports_counted : (core_snapshot 1 5000 (reports some_reports metered)).publish_count ≡ 1
unfolding core_snapshot reports report core_record_publish_success core_record_publish_failure
    core_record_auxiliary_publish_success change_metrics new_core snapshot new_metrics
    record_publish_success record_publish_failure record_auxiliary_publish_success
reports_counted = refl
