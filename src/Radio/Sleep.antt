-- ===== src/Radio/Sleep.antt =====
-- setSleep: what sleeping takes away, waking brings back.
use codal_microbit_v.Base.{◌≡◌, refl, sym, Bool, true, false, some, Bool-cases, inl, inr}
use codal_microbit_v.Radio.{FrameBuffer, Radio, set_sleep}

-- The switches of the radio.
abbrev pub SameSwitches : Radio → Radio → Type 0
SameSwitches r s =
    (s.initialised ≡ r.initialised)
    × (s.irq_enabled ≡ r.irq_enabled)
    × (s.idle_tick ≡ r.idle_tick)
    × (s.deepsleep_init ≡ r.deepsleep_init)
    × (s.deepsleep_irq ≡ r.deepsleep_irq)
    × (s.rx_queue ≡ r.rx_queue)

module _ (room : Bool) (r : Radio) (ble : r.ble_running ≡ false) where
  sleep_on :
      r.initialised ≡ true
      → (set_sleep room r true).1 ≡ record r {
        irq_enabled = false;
        idle_tick = false;
        initialised = false;
        deepsleep_init = true;
      }
  unfolding set_sleep
  sleep_on on = simp (set_sleep, ble, on)

  sleep_irq :
      r.initialised ≡ false
      → r.irq_enabled ≡ true
      → (set_sleep room r true).1 ≡ record r { deepsleep_irq = true; irq_enabled = false }
  unfolding set_sleep
  sleep_irq off irq = rw (set_sleep, ble, off, irq) refl

  sleep_none : r.initialised ≡ false → r.irq_enabled ≡ false → (set_sleep room r true).1 ≡ r
  unfolding set_sleep
  sleep_none off irq = rw (set_sleep, ble, off, irq) refl

  wake_on :
      (f : FrameBuffer)
      → r.rx_buf ≡ some f
      → r.initialised ≡ false
      → r.deepsleep_init ≡ true
      → (set_sleep room r false).1 ≡ record r {
        deepsleep_init = false;
        irq_enabled = true;
        idle_tick = true;
        initialised = true;
      }
  unfolding set_sleep
  wake_on f has off slept = simp (set_sleep, ble, slept, off, has)

  wake_irq :
      r.deepsleep_init ≡ false
      → r.deepsleep_irq ≡ true
      → (set_sleep room r false).1 ≡ record r { deepsleep_irq = false; irq_enabled = true }
  unfolding set_sleep
  wake_irq no_init slept = rw (set_sleep, ble, no_init, slept) refl

  wake_none : r.deepsleep_init ≡ false → r.deepsleep_irq ≡ false → (set_sleep room r false).1 ≡ r
  unfolding set_sleep
  wake_none no_init no_irq = rw (set_sleep, ble, no_init, no_irq) refl

-- A radio in use: it has a buffer, is awake, and polls and takes interrupts if it is on.
pub record IsAwake (r : Radio) : Type 0 where
  pub no_ble : r.ble_running ≡ false
  pub buffer : (f : FrameBuffer) × (r.rx_buf ≡ some f)
  pub no_init : r.deepsleep_init ≡ false
  pub no_irq : r.deepsleep_irq ≡ false
  pub polls : r.initialised ≡ true → r.idle_tick ≡ true
  pub interrupts : r.initialised ≡ true → r.irq_enabled ≡ true

-- Without Bluetooth: a radio that has a buffer to receive into, was not put to sleep and, if it is
-- on, polls and takes interrupts, is off and takes no interrupts after setSleep with true; setSleep
-- with false then brings back its switches as they were, and the queue of packets is kept.
pub set_sleep_wakes :
    (room : Bool) (r : Radio)
    → IsAwake r
    → let asleep = (set_sleep room r true).1 in
      (asleep.initialised ≡ false)
      × (asleep.irq_enabled ≡ false)
      × SameSwitches r (set_sleep room asleep false).1
set_sleep_wakes room r awake = elim (Bool-cases r.initialised) [
  | inl on ↦
      rw (sleep_on room r awake.no_ble on)
        let (f, has) = awake.buffer in
          let asleep = record r {
            irq_enabled = false;
            idle_tick = false;
            initialised = false;
            deepsleep_init = true;
          } in
          rw (wake_on room asleep awake.no_ble f has refl refl) (
            refl,
            refl,
            (
              sym on,
              sym (awake.interrupts on),
              sym (awake.polls on),
              sym awake.no_init,
              refl,
              refl,
            ),
          )
  | inr off ↦ elim (Bool-cases r.irq_enabled) [
    | inl irq ↦
        rw (sleep_irq room r awake.no_ble off irq)
          let asleep = record r { deepsleep_irq = true; irq_enabled = false } in
            rw (wake_irq room asleep awake.no_ble awake.no_init refl)
              (off, refl, (refl, sym irq, refl, refl, sym awake.no_irq, refl))
    | inr no_irq ↦
        rw (sleep_none room r awake.no_ble off no_irq) rw
          (wake_none room r awake.no_ble awake.no_init awake.no_irq)
          (off, no_irq, (refl, refl, refl, refl, refl, refl))
  ]
]
