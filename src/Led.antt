-- ===== src/Led.antt =====
-- The blinking of a LED: src/led_behavior.rs. Times are in milliseconds since the start of the blinking,
-- and the LED manager and the clock are answered from the calls made so far.
pub mod Ends
mod Tests
use text.Mathlib.Text.{◌==◌ as str_eq}
use edgehog_device_runtime.Base.{
  ℕ, zero, suc, ◌+◌, ◌/◌, ltb, String, Bool, true, false, if◌then◌else◌, Option, none, some, List,
  [], ◌∷◌, Result, ok, err,
}
use edgehog_device_runtime.Base.Text.{Text, split_once, strip_prefix}

pub data Blink : Type 0 where
  single double slow : Blink

-- `TryFrom<AstarteData> for Blink`, behind the conversion to a text
unfoldable pub blink_of : String → Option Blink
blink_of value =
    if str_eq value "Blink60Seconds"
    then some single
    else if str_eq value "DoubleBlink60Seconds"
    then some double
    else if str_eq value "SlowBlink60Seconds"
    then some slow
    else none

abbrev pub first_of : Option (Text × Text) → Option Text
first_of none = none
first_of (some (id, rest)) = some id

abbrev pub id_behind : Option Text → Option Text
id_behind none = none
id_behind (some path) = first_of (split_once b'/' path)

unfoldable pub led_id_from_path : Text → Option Text
led_id_from_path path = id_behind (strip_prefix (b'/' ∷ []) path)

pub record BlinkConf : Type 0 where
  pub repetitions : ℕ
  pub end_time_secs : ℕ
  pub after_on_delay_millis : ℕ
  pub after_off_delay_millis : ℕ
  pub end_cycle_delay_millis : ℕ

unfoldable pub conf_of : Blink → BlinkConf
conf_of single = record {
  end_time_secs = 60;
  repetitions = 1;
  after_on_delay_millis = 1000;
  after_off_delay_millis = 1000;
  end_cycle_delay_millis = 0;
}
conf_of double = record {
  repetitions = 2;
  end_time_secs = 60;
  after_on_delay_millis = 300;
  after_off_delay_millis = 200;
  end_cycle_delay_millis = 800;
}
conf_of slow = record {
  end_time_secs = 60;
  repetitions = 1;
  after_on_delay_millis = 2000;
  after_off_delay_millis = 2000;
  end_cycle_delay_millis = 0;
}

-- `led_manager.set` and `sleep`
pub data Call : Type 0 where
  set_led : Bool → Call
  sleep : ℕ → Call

-- What the manager answers, an error being a number, and by how much a call takes longer than it says.
pub record Env : Type 0 where
  pub set : List Call → Result ℕ Bool
  pub lag : List Call → ℕ

pub record World : Type 0 where
  pub now : ℕ
  -- the calls so far, the latest first
  pub calls : List Call

-- How the blinking ends: the time is over, the manager answered with false, or with an error.
pub data End : Type 0 where
  over refused : End
  failed : ℕ → End
  out_of_fuel : End

-- `none` where the loop goes on
abbrev pub Step : Type 0
Step = World → Option End × World

abbrev pub then_step : Option End × World → Step → Option End × World
then_step (none, w) next = next w
then_step (some e, w) next = (some e, w)

infixl 10 ◌>>◌
abbrev pub ◌>>◌ : Step → Step → Step
◌>>◌ m k w = then_step (m w) k

abbrev pub answered : Result ℕ Bool → World → Option End × World
answered (ok true) w = (none, w)
answered (ok false) w = (some refused, w)
answered (err e) w = (some (failed e), w)

-- the outer loop, behind a round
abbrev pub after_cycle : Option End × World → (World → End × World) → End × World
after_cycle (none, w) next = next w
after_cycle (some e, w) next = (e, w)

module _ (env : Env) where
  unfoldable pub turn : Bool → Step
  turn on w =
      let calls = set_led on ∷ w.calls in
      answered (env.set calls) (record { now = w.now + env.lag calls; calls = calls })

  unfoldable pub wait : ℕ → Step
  wait delay w =
      let calls = sleep delay ∷ w.calls in
      (none, record { now = w.now + delay + env.lag calls; calls = calls })

  -- the body of the inner loop
  unfoldable pub blink_once : BlinkConf → Step
  blink_once c =
      turn true >> wait c.after_on_delay_millis >> turn false >> wait c.after_off_delay_millis

  unfoldable pub repeat : BlinkConf → ℕ → Step
  repeat c zero w = (none, w)
  repeat c (suc n) w = then_step (blink_once c w) (repeat c n)

  unfoldable pub cycle : BlinkConf → Step
  cycle c w = then_step (repeat c c.repetitions w) (wait c.end_cycle_delay_millis)

  unfoldable pub blink_loop : ℕ → BlinkConf → World → End × World
  blink_loop zero c w = (out_of_fuel, w)
  blink_loop (suc fuel) c w =
      if ltb (w.now / 1000) c.end_time_secs
      then after_cycle (cycle c w) (blink_loop fuel c)
      else (over, w)

  unfoldable pub blink : ℕ → Blink → End × World
  blink fuel b = blink_loop fuel (conf_of b) (record { now = 0; calls = [] })
