-- ===== src/Monitor/Windows.antt =====
-- The reports of the monitor against a count of the messages between them.
use robo_baton_4p_ros2_demo.Prelude.{
  ℕ, ◌+◌, ◌-◌, ◌%◌, ◌^◌, ◌≡◌, refl, List, [], ◌∷◌, ltb_ℤ, if◌then◌else◌, ℤ, pos, ok, String, arith,
}
use robo_baton_4p_ros2_demo.Node.{Parameters}
use robo_baton_4p_ros2_demo.Monitor.Accepted.{construct-MadeOf}
use robo_baton_4p_ros2_demo.Monitor.{
  Monitor, construct, count_sample, elapsed, zero_hz, per, Report, report, Event, message, timer,
  spin,
}

-- The line for so many messages since the last report and so many in all.
abbrev pub line_of : String → ℕ → ℕ → ℤ → Report
line_of topic samples total window = record {
  topic = topic;
  hz = if ltb_ℤ (pos 0) window then per (samples % 2 ^ 64) window else zero_hz;
  samples = samples % 2 ^ 64;
  window_ns = window;
  total = total % 2 ^ 64;
}

-- The reports of a sequence of events, from how many messages there were up to the last report, how many
-- came since, and when it was.
unfoldable pub lines : String → ℕ → ℕ → ℕ → List Event → List Report
lines topic reported fresh before [] = []
lines topic reported fresh before (message ∷ rest) = lines topic reported (fresh + 1) before rest
lines topic reported fresh before (timer now ∷ rest) =
    line_of topic fresh (reported + fresh) (elapsed now before)
    ∷ lines topic (reported + fresh) 0 now rest

-- The counters of the monitor stand for those numbers.
record StandsFor (m : Monitor) (topic : String) (reported fresh before : ℕ) : Type 0 where
  pub topic_is : m.topic ≡ topic
  pub total : m.total_count ≡ (reported + fresh) % 2 ^ 64
  pub last : m.last_total ≡ reported % 2 ^ 64
  pub time : m.last_report_time ≡ before

count_sample-StandsFor :
    (m : Monitor) (topic : String) (reported fresh before : ℕ)
    → StandsFor m topic reported fresh before
    → StandsFor (count_sample m) topic reported (fresh + 1) before
unfolding count_sample
count_sample-StandsFor m topic reported fresh before v = record {
  topic_is = v.topic_is;
  total = omega (arith, v.total);
  last = v.last;
  time = v.time;
}

report-StandsFor :
    (now : ℕ) (m : Monitor) (topic : String) (reported fresh before : ℕ)
    → StandsFor m topic reported fresh before
    → StandsFor (report now m).0 topic (reported + fresh) 0 now
unfolding report
report-StandsFor now m topic reported fresh before v = record {
  topic_is = v.topic_is;
  total = omega (arith, v.total);
  last = v.total;
  time = refl;
}

report-line :
    (now : ℕ) (m : Monitor) (topic : String) (reported fresh before : ℕ)
    → StandsFor m topic reported fresh before
    → (report now m).1 ≡ line_of topic fresh (reported + fresh) (elapsed now before)
unfolding report
report-line now m topic reported fresh before v =
    let samples : (m.total_count + 2 ^ 64 - m.last_total) % 2 ^ 64 ≡ fresh % 2 ^ 64 =
      omega (arith, v.total, v.last) in
    rw (samples, v.topic_is, v.total, v.time) refl

spin-lines :
    (events : List Event) (m : Monitor) (topic : String) (reported fresh before : ℕ)
    → StandsFor m topic reported fresh before
    → (spin events m).1 ≡ lines topic reported fresh before events
unfolding spin lines
spin-lines [] m topic reported fresh before v = refl
spin-lines (message ∷ rest) m topic reported fresh before v =
    spin-lines rest (count_sample m) topic reported (fresh + 1) before
      (count_sample-StandsFor m topic reported fresh before v)
spin-lines (timer now ∷ rest) m topic reported fresh before v =
    let after = report-StandsFor now m topic reported fresh before v in
    cc (
      report-line now m topic reported fresh before v,
      spin-lines rest (report now m).0 topic (reported + fresh) 0 now after,
    )

constructed-StandsFor :
    (p : Parameters) (now : ℕ) (m : Monitor) → construct p now ≡ ok m → StandsFor m m.topic 0 0 now
constructed-StandsFor p now m h =
    let parts = construct-MadeOf p now m h in
    record {
      topic_is = refl;
      total = omega (arith, parts.counts);
      last = omega (arith, parts.counts);
      time = parts.time;
    }

-- From its construction on, whatever messages come and whenever the timer fires, each report of the
-- monitor has, modulo 2 ^ 64, the number of messages since the report before it and the number of all
-- messages so far, and the time between the two reports, or since the construction for the first.
pub reports_count :
    (p : Parameters) (now : ℕ) (m : Monitor) (events : List Event)
    → construct p now ≡ ok m
    → (spin events m).1 ≡ lines m.topic 0 0 now events
reports_count p now m events h =
    spin-lines events m m.topic 0 0 now (constructed-StandsFor p now m h)
