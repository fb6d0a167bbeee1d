-- ===== src/Imu/System/Ring/Moves.antt =====
-- The callback and the publishing thread keep the invariant of the ring.
use robo_baton_4p_ros2_demo.Prelude.{
  ℕ, ◌+◌, ◌-◌, ◌%◌, ◌≤◌, ◌<◌, ◌≡◌, refl, Bool, false, Option, none, some, ◌==◌, arith, ap, subst,
  sym, ◌∙◌,
}
use robo_baton_4p_ros2_demo.Imu.Core.{
  pending_capacity, Sample, PendingSample, Core, store, record_failure,
}
use robo_baton_4p_ros2_demo.Imu.Ring.{
  Producer, outside, checking, filling, filled, enter, check_room, fill, store_write, used,
  Publisher, publish_sample, count_sample,
}
use robo_baton_4p_ros2_demo.Imu.System.{System, Owner}
use robo_baton_4p_ros2_demo.Imu.System.Ring.Defs.{
  ProducerOk, PublisherOk, RingOk, PublisherOk-mono, PublisherOk-delivered,
}

-- No sample was handed out that was not delivered or is not about to be.
pub delivered_le : (s : System) → RingOk s → s.delivered ≤ s.handed
delivered_le s v =
    PublisherOk-delivered s.core s.admitted s.handed s.delivered s.arrivals s.publisher v.consuming

-- A slot in use is not the one that is filled next.
slot_ne :
    (handed admitted k : ℕ)
    → handed ≤ k
    → k < admitted
    → admitted < handed + 1024
    → (admitted % 1024 == k % 1024) ≡ false
slot_ne handed admitted k low high room = ground (arith, low, high, room)

pub fill-RingOk :
    (w : ℕ) (p : PendingSample) (s : System)
    → s.producer ≡ filling w p
    → RingOk s
    → RingOk (record s { core = fill w p s.core; producer = filled w p })
unfolding fill
fill-RingOk w p s e v =
    let known : ProducerOk s.core s.admitted s.handed (filling w p) =
      subst (ProducerOk s.core s.admitted s.handed) e v.producing in
    let slot : w % 1024 ≡ s.admitted % 1024 = omega (arith, known.0, v.write_is) in
    record {
      write_is = v.write_is;
      read_is = v.read_is;
      ordered = v.ordered;
      bounded = v.bounded;
      slots = λ k low high.
          ground (arith, slot, slot_ne s.handed s.admitted k low high known.1, v.slots k low high);
      producing = (known.0, known.1, ground (arith, slot));
      consuming =
          PublisherOk-mono s.core (fill w p s.core) s.admitted s.admitted s.handed s.delivered
            s.arrivals s.arrivals s.publisher refl (omega arith) (λ k h. refl) v.ordered
            v.consuming;
      faithful = v.faithful;
    }

pub store_write-RingOk :
    (w : ℕ) (p : PendingSample) (s : System)
    → s.producer ≡ filled w p
    → RingOk s
    → RingOk (record s {
      core = store_write w s.core;
      producer = outside;
      admitted = s.admitted + 1;
      arrivals = store s.arrivals s.admitted p;
    })
unfolding store_write
store_write-RingOk w p s e v =
    let known : ProducerOk s.core s.admitted s.handed (filled w p) =
      subst (ProducerOk s.core s.admitted s.handed) e v.producing in
    record {
      write_is = omega (arith, known.0, v.write_is);
      read_is = v.read_is;
      ordered = omega (arith, v.ordered);
      bounded = omega (arith, known.1);
      slots = λ k low high. ground (arith, low, high, known, v.slots k low);
      producing = tt;
      consuming =
          PublisherOk-mono s.core (store_write w s.core) s.admitted (s.admitted + 1) s.handed
            s.delivered s.arrivals (store s.arrivals s.admitted p) s.publisher refl (omega arith)
            (λ k h. ground (arith, h)) v.ordered v.consuming;
      faithful = λ k h. ground (arith, h, v.faithful k h, v.ordered, delivered_le s v);
    }

-- The owner, and the flags, are of no account.
pub core-RingOk :
    (s : System) (c : Core) (q : Producer) (p : Publisher) (o : Owner) (d : Bool)
    → c.pending ≡ s.core.pending
    → c.write ≡ s.core.write
    → c.read ≡ s.core.read
    → ProducerOk c s.admitted s.handed q
    → PublisherOk c s.admitted s.handed s.delivered s.arrivals p
    → RingOk s
    → RingOk (record s { core = c; producer = q; publisher = p; owner = o; driver = d })
core-RingOk s c q p o d same_slots same_write same_read producing consuming v = record {
  write_is = same_write ∙ v.write_is;
  read_is = same_read ∙ v.read_is;
  ordered = v.ordered;
  bounded = v.bounded;
  slots = λ k low high. ap (λ slots. slots (k % pending_capacity)) same_slots ∙ v.slots k low high;
  producing = producing;
  consuming = consuming;
  faithful = v.faithful;
}

pub enter-outside :
    (sample : Option Sample) (now_ns : ℕ) (c : Core)
    → let (c', q) = enter sample now_ns c in
      (c'.pending ≡ c.pending)
      × (c'.write ≡ c.write)
      × (c'.read ≡ c.read)
      × ((a h : ℕ) → ProducerOk c' a h q)
unfolding enter
enter-outside none now_ns c = (ground arith, ground arith, ground arith, λ a h. ground arith)
enter-outside (some x) now_ns c = (ground arith, ground arith, ground arith, λ a h. ground arith)

pub check_room-known :
    (p : PendingSample) (s : System)
    → RingOk s
    → let (c, q) = check_room p s.core in
      (c.pending ≡ s.core.pending)
      × (c.write ≡ s.core.write)
      × (c.read ≡ s.core.read)
      × ProducerOk c s.admitted s.handed q
unfolding check_room
check_room-known p s v =
    let full : used s.core ≡ s.admitted - s.handed =
      omega (arith, v.write_is, v.read_is, v.ordered, v.bounded) in
    (ground arith, ground arith, ground arith, ground (arith, full, v.ordered, v.bounded))

pub publish_sample-known :
    (throws : Bool) (p : PendingSample) (c : Core) (a h d : ℕ) (f : ℕ → PendingSample)
    → d ≡ h
    → let (c', q) = publish_sample throws p c in
      (c'.pending ≡ c.pending)
      × (c'.write ≡ c.write)
      × (c'.read ≡ c.read)
      × PublisherOk c' a h d f q
unfolding publish_sample count_sample record_failure
publish_sample-known throws p c a h d f e =
    (ground arith, ground arith, ground arith, ground (arith, e))

-- What the callback knows speaks of the slots and of `write_` only.
pub ProducerOk-core :
    (c c' : Core) (a h h' : ℕ) (q : Producer)
    → c'.pending ≡ c.pending
    → c'.write ≡ c.write
    → h ≤ h'
    → ProducerOk c a h q
    → ProducerOk c' a h' q
ProducerOk-core c c' a h h' outside e f g o = tt
ProducerOk-core c c' a h h' (checking p) e f g o = tt
ProducerOk-core c c' a h h' (filling w p) e f g o = (o.0 ∙ sym f, omega (arith, o.1, g))
ProducerOk-core c c' a h h' (filled w p) e f g o =
    (o.0 ∙ sym f, omega (arith, o.1, g), ap (λ slots. slots (a % pending_capacity)) e ∙ o.2)
