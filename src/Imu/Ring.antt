-- ===== src/Imu/Ring.antt =====
-- The two sides of the ring of samples in src/imu_publisher.cpp: SampleTrampoline, which runs on the
-- thread of the driver, and PublishLoop, which runs on a thread of its own. Both are cut between their
-- accesses to what they share, so that any interleaving of the two is a sequence of these functions;
-- but stores in a row of one thread, such as those that close the admission, are one function.
--
-- A `std::size_t` has 64 bits, and its sums and differences wrap.
use robo_baton_4p_ros2_demo.Prelude.{
  ℕ, ◌+◌, ◌-◌, ◌%◌, ◌^◌, Bool, true, false, ◌&&◌, not, Option, none, some, ◌==◌, if◌then◌else◌,
}
use robo_baton_4p_ros2_demo.Metrics.{fetch_add, record_source_without_sequence}
use robo_baton_4p_ros2_demo.Imu.Core.{
  pending_capacity, sizeof_sample, Sample, PendingSample, Core, record_failure, store,
}

-- Where the callback stands: outside; before it looks for room, with the admission seen open; before
-- the store into its slot; before the store of `write_`.
pub data Producer : Type 0 where
  outside : Producer
  checking : PendingSample → Producer
  filling filled : ℕ → PendingSample → Producer

abbrev pub is_valid : Option Sample → Bool
is_valid none = false
is_valid (some sample) = sample.struct_size == sizeof_sample

-- The arrival time that a sample is given, and the counting of arrivals.
abbrev pub arrival : Option Sample → ℕ → Core → ℕ
arrival sample now_ns c = if c.metrics_enabled && is_valid sample then now_ns else 0

unfoldable pub count_arrival : Option Sample → ℕ → Core → Core
count_arrival sample now_ns c =
    if c.metrics_enabled && is_valid sample
    then record c {
      source_first_ns = if c.source_count == 0 then now_ns else c.source_first_ns;
      source_count = fetch_add c.source_count 1;
    }
    else c

-- A bad sample or a full ring: no sample is admitted any more.
unfoldable pub fail_closed : Core → Core
fail_closed c = record c { admission = false; failed = true }

abbrev pub admit_sample : Option Sample → ℕ → Core → Core × Producer
admit_sample none arrival_ns c = (fail_closed c, outside)
admit_sample (some sample) arrival_ns c =
    if sample.struct_size == sizeof_sample
    then (c, checking (record { sample = sample; arrival_ns = arrival_ns }))
    else (fail_closed c, outside)

-- SampleTrampoline up to its tests of the admission and of the sample. `none` is a null sample.
unfoldable pub enter : Option Sample → ℕ → Core → Core × Producer
unfolding count_arrival fail_closed
enter sample now_ns c =
    let counted = count_arrival sample now_ns c in
    if not c.admission
    then (counted, outside)
    else admit_sample sample (arrival sample now_ns c) counted

-- `write - read`
abbrev pub used : Core → ℕ
used c = (c.write + 2 ^ 64 - c.read) % 2 ^ 64

unfoldable pub check_room : PendingSample → Core → Core × Producer
unfolding fail_closed
check_room p c =
    if used c == pending_capacity then (fail_closed c, outside) else (c, filling c.write p)

unfoldable pub fill : ℕ → PendingSample → Core → Core
fill write p c = record c { pending = store c.pending (write % pending_capacity) p }

unfoldable pub store_write : ℕ → Core → Core
store_write write c = record c { write = (write + 1) % 2 ^ 64 }

-- Where the publishing thread stands: not created; at the head of its loop; past the test of `failed_`;
-- before it copies a slot, with the index that it read; before the store of `read_`; in the sink; past
-- the comparison that found nothing; past the test of `publisher_stop_`; returned; joined.
pub data Publisher : Type 0 where
  absent top comparing ended joined : Publisher
  copying empty last_check : ℕ → Publisher
  copied : ℕ → PendingSample → Publisher
  publishing : PendingSample → Publisher

-- The metrics of a sample that is about to be published.
unfoldable pub count_sample : PendingSample → Core → Core
count_sample p c =
    if c.metrics_enabled
    then record c {
      metrics = record_source_without_sequence p.sample.sample_timestamp_ns p.arrival_ns c.metrics;
    }
    else c

-- The sink returns, or it throws.
unfoldable pub publish_sample : Bool → PendingSample → Core → Core × Publisher
unfolding count_sample record_failure
publish_sample throws p c =
    let counted = count_sample p c in
    if throws
    then (record_failure (record counted { admission = false }), ended)
    else (counted, top)

-- PublishLoop up to its next access to what it shares.
unfoldable pub publish_next : Bool → Core → Publisher → Core × Publisher
unfolding publish_sample record_failure
publish_next throws c absent = (c, absent)
publish_next throws c top = if c.failed then (record_failure c, ended) else (c, comparing)
publish_next throws c comparing =
    if c.read == c.write then (c, empty c.read) else (c, copying c.read)
publish_next throws c (copying read) = (c, copied read (c.pending (read % pending_capacity)))
publish_next throws c (copied read p) = (record c { read = (read + 1) % 2 ^ 64 }, publishing p)
publish_next throws c (publishing p) = publish_sample throws p c
publish_next throws c (empty read) = if c.publisher_stop then (c, last_check read) else (c, top)
publish_next throws c (last_check read) = if read == c.write then (c, ended) else (c, top)
publish_next throws c ended = (c, ended)
publish_next throws c joined = (c, joined)
