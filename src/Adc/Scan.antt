-- ===== src/Adc/Scan.antt =====
-- A tick: the timestamp, one read for each channel, and the callback; and the reader task, as a
-- state machine whose thread waits for ticks.
use dtmc_zephyr.Prelude.{
  ℕ, ℤ, pos_part, ◌+◌, ◌^◌, ◌%◌, Bool, true, false, Option, none, some, List, [], ◌∷◌, ◌++◌, ltb,
  set, take, if◌then◌else◌,
}
use dtmc_zephyr.Err.{Dterr, leaf, error_code}
use dtmc_zephyr.Err
use dtmc_zephyr.Port.Counter.{CounterDriver, TickSemaphore}
use dtmc_zephyr.Port.Adc.{AdcDriver, Sequence}
use dtmc_zephyr.Adc.Object.{ChannelRuntime, active, stopped, error, Scan, Adc}
use dtmc_zephyr.Adc.Time.{track, to_ns}

-- `sequence` for a channel: its bit and its resolution
unfoldable pub sequence_of : ChannelRuntime → Sequence
sequence_of r = record { channels = 2 ^ pos_part r.channel_id; resolution = r.resolution }

-- What the reads leave: the ADC, the values, and whether all succeeded.
pub record Reads (A : Type 0) : Type 0 where
  pub adc : A
  pub channels : List ℤ
  pub complete : Bool

-- Where the reader task is: not started, in `k_sem_take`, or ended with its result.
pub data Reader : Type 0 where
  absent waiting : Reader
  ended : Option Dterr → Reader

-- What happens: the alarm interrupt, the request to stop, and the reader's wait that may end, with
-- what the scan callback answers if it is called.
pub data Event : Type 0 where
  alarms stops : Event
  wakes : Option Dterr → Event

-- The object and its reader task.
pub record Running (C S A : Type 0) : Type 0 where
  pub self : Adc C S A
  pub reader : Reader

module _ {A : Type 0} (adc : AdcDriver A) where
  -- `for (i = 0; i < channel_count; i++)`, over the descriptors of the channels from index `i` on
  unfoldable pub read_channels : A → List ChannelRuntime → ℕ → List ℤ → Reads A
  unfolding sequence_of
  read_channels a [] i channels = record { adc = a; channels = channels; complete = true }
  read_channels a (r ∷ rest) i channels =
      let (next, got) = adc.adc_read a (sequence_of r) in
      elim got [
        | none ↦ record { adc = next; channels = channels; complete = false }
        | some raw ↦ read_channels next rest (i + 1) (set channels i raw)
      ]

module _ {C S A : Type 0} (driver : CounterDriver C) (kernel : TickSemaphore S)
    (adc : AdcDriver A) where
  -- the stamp before the reads
  unfoldable pub stamp : Adc C S A → Adc C S A
  unfolding track to_ns
  stamp self =
      let (w, total) =
        track (driver.counter_get_top_value self.counter)
          (record { counter_prev = self.counter_prev; counter_base = self.counter_base })
          (driver.counter_get_value self.counter) in
      record self {
        counter_prev = w.counter_prev;
        counter_base = w.counter_base;
        scan_timestamp_ns = to_ns (driver.counter_get_frequency self.counter) total;
      }

  -- The counter goes on while the channels are read.
  -- `answer` is what the scan callback answers if it is called.
  unfoldable pub on_tick : Adc C S A → Option Dterr → Adc C S A × Option Dterr
  on_tick self answer =
      let stamped = stamp self in
      let count = pos_part self.config.channel_count in
      let reads = read_channels adc self.adc (take count self.channel_runtime) 0 self.channels in
      let filled : Adc C S A = record stamped {
        adc = reads.adc;
        channels = reads.channels;
        counter = driver.counter_elapse self.counter;
      } in
      let scan : Scan = record {
        timestamp_ns = stamped.scan_timestamp_ns;
        sequence_number = self.sequence_number;
        channels = reads.channels;
      } in
      if reads.complete
      then (
        record filled {
          sequence_number = (self.sequence_number + 1) % 18446744073709551616;
          scans = self.scans ++ (scan ∷ []);
        },
        answer,
      )
      else (filled, some (leaf Err.state))

  -- `cleanup` of the reader task
  unfoldable pub finish : Adc C S A → Option Dterr → Running C S A
  finish self none = record {
    self = record self { status = record (self.status) { state = stopped } };
    reader = ended none;
  }
  finish self (some e) = record {
    self = record self {
      status = record {
        state = error;
        dterr = elim self.status.dterr [ none ↦ some (leaf (error_code e)) | some x ↦ some x ];
      };
    };
    reader = ended (some e);
  }

  -- `while (!should_pause)`, at the test
  unfoldable pub loop_test : Adc C S A → Running C S A
  unfolding finish
  loop_test self =
      if self.should_pause then finish self none else record { self = self; reader = waiting }

  -- The reader task up to its first wait, or its end; `ready` is what `dttasker_ready` answers.
  unfoldable pub reader_entry : Adc C S A → Option Dterr → Running C S A
  unfolding finish loop_test
  reader_entry self ready =
      let begun : Adc C S A = record self { status = record (self.status) { state = active } } in
      elim ready [ some e ↦ finish begun (some e) | none ↦ loop_test begun ]

  -- `_alarm_handler`: arm the next target, then give the tick.
  unfoldable pub alarm_handler : Adc C S A → Adc C S A
  alarm_handler self =
      let target = (self.next_alarm + self.period_ticks) % 4294967296 in
      record self {
        next_alarm = target;
        counter = (driver.counter_set_channel_alarm self.counter target true).0;
        tick_sem = kernel.k_sem_give self.tick_sem;
      }

  -- What `deactivate` does first, under the lock.
  unfoldable pub request_stop : Adc C S A → Adc C S A
  request_stop self = record self {
    counter = driver.counter_stop (driver.counter_cancel_channel_alarm self.counter);
    should_pause = true;
    tick_sem = kernel.k_sem_give self.tick_sem;
  }

  -- The wait ends, if there is a tick: stop, or scan.
  unfoldable pub wake : Adc C S A → Option Dterr → Running C S A
  unfolding loop_test finish
  wake self answer =
      let taken : Adc C S A = record self { tick_sem = kernel.k_sem_take self.tick_sem } in
      let (scanned, e) = on_tick taken answer in
      if ltb 0 (kernel.count self.tick_sem)
      then (if self.should_pause
          then finish taken none
          else elim e [ some x ↦ finish scanned (some x) | none ↦ loop_test scanned ])
      else record { self = self; reader = waiting }

  unfoldable pub step : Running C S A → Event → Running C S A
  unfolding alarm_handler request_stop
  step w alarms = record w { self = alarm_handler w.self }
  step w stops = record w { self = request_stop w.self }
  step w (wakes answer) = elim w.reader [ waiting ↦ wake w.self answer | absent ↦ w | ended e ↦ w ]

  unfoldable pub run : Running C S A → List Event → Running C S A
  run w [] = w
  run w (e ∷ events) = run (step w e) events
