-- ===== src/Imu/System/Ring/Defs.antt =====
-- The invariant of the ring of samples.
use robo_baton_4p_ros2_demo.Prelude.{ℕ, ◌+◌, ◌%◌, ◌^◌, ◌≤◌, ◌<◌, ◌≡◌, arith}
use robo_baton_4p_ros2_demo.Imu.Core.{pending_capacity, PendingSample, Core}
use robo_baton_4p_ros2_demo.Imu.Ring.{
  Producer, filling, filled, Publisher, absent, top, comparing, copying, copied, publishing, empty,
  last_check, ended, joined,
}
use robo_baton_4p_ros2_demo.Imu.System.{System}

-- What the callback knows: there is room, and its slot holds its sample once it is filled.
abbrev pub ProducerOk : Core → (admitted handed : ℕ) → Producer → Type 0
ProducerOk c a h (filling w p) = (w ≡ c.write) × (a < h + pending_capacity)
ProducerOk c a h (filled w p) =
    (w ≡ c.write) × (a < h + pending_capacity) × (c.pending (a % pending_capacity) ≡ p)
ProducerOk c a h _ = Unit {0}

-- What the publishing thread knows: its index, that a sample is there, and which one.
abbrev pub PublisherOk :
    Core → (admitted handed delivered : ℕ) → (ℕ → PendingSample) → Publisher → Type 0
PublisherOk c a h d arrivals (copying r) = (r ≡ c.read) × (d ≡ h) × (h < a)
PublisherOk c a h d arrivals (copied r p) = (r ≡ c.read) × (d ≡ h) × (h < a) × (p ≡ arrivals h)
PublisherOk c a h d arrivals (publishing p) = (h ≡ d + 1) × (p ≡ arrivals d)
PublisherOk c a h d arrivals (empty r) = (r ≡ c.read) × (d ≡ h)
PublisherOk c a h d arrivals (last_check r) = (r ≡ c.read) × (d ≡ h)
PublisherOk c a h d arrivals _ = d ≡ h

pub record RingOk (s : System) : Type 0 where
  pub write_is : s.core.write ≡ s.admitted % 2 ^ 64
  pub read_is : s.core.read ≡ s.handed % 2 ^ 64
  pub ordered : s.handed ≤ s.admitted
  pub bounded : s.admitted ≤ s.handed + pending_capacity
  pub slots :
      (k : ℕ) → s.handed ≤ k → k < s.admitted → s.core.pending (k % pending_capacity) ≡ s.arrivals k
  pub producing : ProducerOk s.core s.admitted s.handed s.producer
  pub consuming : PublisherOk s.core s.admitted s.handed s.delivered s.arrivals s.publisher
  pub faithful : (k : ℕ) → k < s.delivered → s.deliveries k ≡ s.arrivals k

-- What the publishing thread knows stays true while the callback adds samples.
pub PublisherOk-mono :
    (c c' : Core) (a a' h d : ℕ) (arrivals arrivals' : ℕ → PendingSample) (p : Publisher)
    → c'.read ≡ c.read
    → a ≤ a'
    → ((k : ℕ) → k < a → arrivals' k ≡ arrivals k)
    → h ≤ a
    → PublisherOk c a h d arrivals p
    → PublisherOk c' a' h d arrivals' p
PublisherOk-mono c c' a a' h d f f' absent e i j l o = ground (arith, o)
PublisherOk-mono c c' a a' h d f f' top e i j l o = ground (arith, o)
PublisherOk-mono c c' a a' h d f f' comparing e i j l o = ground (arith, o)
PublisherOk-mono c c' a a' h d f f' ended e i j l o = ground (arith, o)
PublisherOk-mono c c' a a' h d f f' joined e i j l o = ground (arith, o)
PublisherOk-mono c c' a a' h d f f' (copying r) e i j l o = ground (arith, o)
PublisherOk-mono c c' a a' h d f f' (empty r) e i j l o = ground (arith, o)
PublisherOk-mono c c' a a' h d f f' (last_check r) e i j l o = ground (arith, o)
PublisherOk-mono c c' a a' h d f f' (copied r p) e i j l o = ground (arith, o, j h)
PublisherOk-mono c c' a a' h d f f' (publishing p) e i j l o = ground (arith, o, j d)

pub PublisherOk-delivered :
    (c : Core) (a h d : ℕ) (arrivals : ℕ → PendingSample) (p : Publisher)
    → PublisherOk c a h d arrivals p
    → d ≤ h
PublisherOk-delivered c a h d f absent o = omega (arith, o)
PublisherOk-delivered c a h d f top o = omega (arith, o)
PublisherOk-delivered c a h d f comparing o = omega (arith, o)
PublisherOk-delivered c a h d f ended o = omega (arith, o)
PublisherOk-delivered c a h d f joined o = omega (arith, o)
PublisherOk-delivered c a h d f (copying r) o = omega (arith, o)
PublisherOk-delivered c a h d f (empty r) o = omega (arith, o)
PublisherOk-delivered c a h d f (last_check r) o = omega (arith, o)
PublisherOk-delivered c a h d f (copied r p) o = omega (arith, o)
PublisherOk-delivered c a h d f (publishing p) o = omega (arith, o)
