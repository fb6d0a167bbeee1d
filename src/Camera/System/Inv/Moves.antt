-- ===== src/Camera/System/Inv/Moves.antt =====
-- The callback and the workers keep the invariant.
use robo_baton_4p_ros2_demo.Prelude.{
  ℕ, ◌≡◌, refl, Bool, true, false, Option, some, List, [], ◌∷◌, arith,
}
use robo_baton_4p_ros2_demo.Camera.Frame.{FrameSetItem, FrameSet, RetainedFrameJob}
use robo_baton_4p_ros2_demo.Camera.Queue.{push, push_resume, pop}
use robo_baton_4p_ros2_demo.Camera.Core.{
  popping, publishing, Core, record_failure, close_admission_and_request_stop,
}
use robo_baton_4p_ros2_demo.Camera.Callback.{
  Callback, outside, raising, at_items, at_push, Seen, ItemReplies, callback_enter, handle_item,
  handle_frame, push_on, pop_on, retain_item, is_valid_info, count_source, callback_push,
  after_push, drop_job, after_pop, callback_catch, worker_pop, worker_published, worker_failed,
}
use robo_baton_4p_ros2_demo.Camera.System.{Owner}
use robo_baton_4p_ros2_demo.Camera.System.Inv.Defs.{is_outside, pushes_enabled, Inv}

pub callback_enter-Inv :
    (frame_set : Option FrameSet) (c : Core) (o : Owner)
    → Inv c outside o
    → Inv c (callback_enter frame_set c) o
unfolding callback_enter
callback_enter-Inv frame_set c o v = record {
  flags = ground (arith, v.flags);
  lane = λ id. ground (arith, v.flags, v.lane id);
  pushing = ground arith;
}

pub handle_item-Inv :
    (r : ItemReplies) (item : FrameSetItem) (rest : List FrameSetItem) (seen : Seen) (c : Core)
    (o : Owner)
    → Inv c (at_items (item ∷ rest) seen) o
    → Inv (handle_item r item rest seen c).0 (handle_item r item rest seen c).1 o
unfolding handle_item handle_frame retain_item is_valid_info count_source
handle_item-Inv r item rest seen c o v = record {
  flags = ground (arith, v.flags);
  lane = λ id. ground (arith, v.flags, v.lane id);
  pushing = ground arith;
}

pub callback_push-Inv :
    (woken : Bool) (job : RetainedFrameJob) (id : ℕ) (rest : List FrameSetItem) (seen : Seen)
    (c : Core) (cb : Callback) (o : Owner) (c' : Core) (cb' : Callback)
    → is_outside cb ≡ false
    → pushes_enabled c.config (at_push job id rest seen) ≡ true
    → callback_push woken job id rest seen c ≡ some (c', cb')
    → Inv c cb o
    → Inv c' cb' o
unfolding callback_push push_on after_push drop_job push push_resume
callback_push-Inv woken job id rest seen c cb o c' cb' i p e v = record {
  flags = ground (arith, v.flags);
  lane = λ j. ground (arith, v.flags, v.lane id, v.lane j);
  pushing = ground arith;
}

pub callback_catch-Inv : (c : Core) (o : Owner) → Inv c raising o → Inv (callback_catch c) outside o
unfolding callback_catch record_failure close_admission_and_request_stop
callback_catch-Inv c o v = record {
  flags = ground (arith, v.flags);
  lane = λ id. ground (arith, v.flags, v.lane id);
  pushing = refl;
}

pub worker_pop-Inv :
    (id : ℕ) (c : Core) (cb : Callback) (o : Owner) (c' : Core)
    → (c.lanes id).worker ≡ popping
    → worker_pop id c ≡ some c'
    → Inv c cb o
    → Inv c' cb o
unfolding worker_pop pop_on after_pop pop
worker_pop-Inv id c cb o c' w e v = record {
  flags = ground (arith, v.flags);
  lane = λ j. ground (arith, v.flags, v.lane id, v.lane j);
  pushing = ground (arith, v.pushing);
}

pub worker_published-Inv :
    (id : ℕ) (job : RetainedFrameJob) (c : Core) (cb : Callback) (o : Owner)
    → (c.lanes id).worker ≡ publishing job
    → Inv c cb o
    → Inv (worker_published id job c) cb o
unfolding worker_published
worker_published-Inv id job c cb o w v = record {
  flags = ground (arith, v.flags);
  lane = λ j. ground (arith, v.flags, v.lane id, v.lane j);
  pushing = v.pushing;
}

pub worker_failed-Inv :
    (id : ℕ) (job : RetainedFrameJob) (c : Core) (cb : Callback) (o : Owner)
    → (c.lanes id).worker ≡ publishing job
    → Inv c cb o
    → Inv (worker_failed id job c) cb o
unfolding worker_failed record_failure close_admission_and_request_stop
worker_failed-Inv id job c cb o w v = record {
  flags = ground (arith, v.flags);
  lane = λ j. ground (arith, v.flags, v.lane id, v.lane j);
  pushing = v.pushing;
}

pub leaves-Inv : (seen : Seen) (c : Core) (o : Owner) → Inv c (at_items [] seen) o → Inv c outside o
leaves-Inv seen c o v = record {
  flags = ground (arith, v.flags);
  lane = λ id. ground (arith, v.flags, v.lane id);
  pushing = refl;
}
