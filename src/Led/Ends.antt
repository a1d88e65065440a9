-- ===== src/Led/Ends.antt =====
-- The blinking ends, with the LED turned off.
use edgehog_device_runtime.Base.{
  ℕ, zero, suc, ◌+◌, ◌*◌, ◌/◌, ◌≤◌, ltb, ◌≡◌, refl, ◌≢◌, Bool, true, false, Bool-cases, Option,
  none, some, List, [], ◌∷◌, Result, ok, err, arith, inl, inr,
}
use edgehog_device_runtime.Led.{
  Blink, single, double, slow, BlinkConf, conf_of, Call, set_led, sleep, Env, World, End, over,
  refused, failed, out_of_fuel, Step, then_step, answered, turn, wait, blink_once, repeat, cycle,
  after_cycle, blink_loop, blink,
}

-- the state of the LED after some calls
unfoldable pub is_on : List Call → Bool
is_on [] = false
is_on (set_led on ∷ calls) = on
is_on (sleep delay ∷ calls) = is_on calls

-- A step that goes on has taken so long and leaves the LED so; one that ends has not run out
-- of fuel, and not of time.
abbrev Takes : ℕ → Bool → ℕ → Option End × World → Type 0
Takes start on delay (none, w) = (start + delay ≤ w.now) × (is_on w.calls ≡ on)
Takes start on delay (some e, w) = (e ≢ out_of_fuel) × (e ≢ over)

answered-Takes :
    (start : ℕ) (on : Bool) (r : Result ℕ Bool) (w : World)
    → start ≤ w.now
    → is_on w.calls ≡ on
    → Takes start on 0 (answered r w)
answered-Takes start on (ok true) w h e = (omega arith, e)
answered-Takes start on (ok false) w h e = (λ p. cc p, λ p. cc p)
answered-Takes start on (err n) w h e = (λ p. cc p, λ p. cc p)

later-Takes :
    (start now a b : ℕ) (off : Bool) (o : Option End × World)
    → start + a ≤ now
    → Takes now off b o
    → Takes start off (a + b) o
later-Takes start now a b off (none, w) h k = (omega (arith, h, k.0), k.1)
later-Takes start now a b off (some e, w) h k = k

then-Takes :
    (start a b : ℕ) (on off : Bool) (o : Option End × World) (k : Step)
    → Takes start on a o
    → ((w : World) → is_on w.calls ≡ on → Takes w.now off b (k w))
    → Takes start off (a + b) (then_step o k)
then-Takes start a b on off (some e, w) k h n = h
then-Takes start a b on off (none, w) k h n = later-Takes start w.now a b off (k w) h.0 (n w h.1)

unfoldable times : ℕ → ℕ → ℕ
times zero d = 0
times (suc n) d = d + times n d

abbrev once_takes : BlinkConf → ℕ
once_takes c = 0 + c.after_on_delay_millis + 0 + c.after_off_delay_millis

abbrev cycle_takes : BlinkConf → ℕ
cycle_takes c = times c.repetitions (once_takes c) + c.end_cycle_delay_millis

-- how the blinking may end
abbrev pub IsEnd : End × World → Type 0
IsEnd (over, w) = (60000 ≤ w.now) × (is_on w.calls ≡ false)
IsEnd (refused, w) = Unit
IsEnd (failed e, w) = Unit
IsEnd (out_of_fuel, w) = ⊥

end_of : (e : End) (w : World) → e ≢ out_of_fuel → e ≢ over → IsEnd (e, w)
end_of over w n m = absurd (m refl)
end_of refused w n m = tt
end_of (failed e) w n m = tt
end_of out_of_fuel w n m = absurd (n refl)

time_over :
    (c : BlinkConf) (w : World)
    → c.end_time_secs ≡ 60
    → 60000 ≤ w.now + 0 * 1800
    → ltb (w.now / 1000) c.end_time_secs ≡ false
time_over c w sixty h = rw sixty (ground (arith, h))

module _ (env : Env) where
  turn-Takes : (on : Bool) (w : World) → Takes w.now on 0 (turn env on w)
  unfolding turn is_on
  turn-Takes on w = answered-Takes w.now on (env.set (set_led on ∷ w.calls)) _ (omega arith) refl

  wait-Takes :
      (delay : ℕ) (on : Bool) (w : World)
      → is_on w.calls ≡ on
      → Takes w.now on delay (wait env delay w)
  unfolding wait is_on
  wait-Takes delay on w e = (omega arith, e)

  blink_once-Takes :
      (c : BlinkConf) (w : World) → Takes w.now false (once_takes c) (blink_once env c w)
  unfolding blink_once
  blink_once-Takes c w =
      then-Takes w.now _ c.after_off_delay_millis false false _ (wait env c.after_off_delay_millis)
        (then-Takes w.now _ 0 true false _ (turn env false)
          (then-Takes w.now 0 c.after_on_delay_millis true true _ (wait env c.after_on_delay_millis)
            (turn-Takes true w) (wait-Takes c.after_on_delay_millis true))
          (λ v e. turn-Takes false v))
        (wait-Takes c.after_off_delay_millis false)

  repeat-Takes :
      (c : BlinkConf) (n : ℕ) (w : World)
      → is_on w.calls ≡ false
      → Takes w.now false (times n (once_takes c)) (repeat env c n w)
  unfolding repeat times
  repeat-Takes c zero w e = (omega arith, e)
  repeat-Takes c (suc n) w e =
      then-Takes w.now (once_takes c) (times n (once_takes c)) false false _ (repeat env c n)
        (blink_once-Takes c w) (repeat-Takes c n)

  cycle-Takes :
      (c : BlinkConf) (w : World)
      → is_on w.calls ≡ false
      → Takes w.now false (cycle_takes c) (cycle env c w)
  unfolding cycle
  cycle-Takes c w e =
      then-Takes w.now _ c.end_cycle_delay_millis false false _ (wait env c.end_cycle_delay_millis)
        (repeat-Takes c c.repetitions w e) (wait-Takes c.end_cycle_delay_millis false)

  after_cycle-IsEnd :
      (start delay : ℕ) (o : Option End × World) (next : World → End × World)
      → Takes start false delay o
      → ((w : World) → start + delay ≤ w.now → is_on w.calls ≡ false → IsEnd (next w))
      → IsEnd (after_cycle o next)
  after_cycle-IsEnd start delay (none, w) next h k = k w h.0 h.1
  after_cycle-IsEnd start delay (some e, w) next h k = end_of e w h.0 h.1

  blink_loop-IsEnd :
      (c : BlinkConf) (fuel : ℕ) (w : World)
      → c.end_time_secs ≡ 60
      → 1800 ≤ cycle_takes c
      → is_on w.calls ≡ false
      → 60000 ≤ w.now + fuel * 1800
      → IsEnd (blink_loop env (suc fuel) c w)
  unfolding blink_loop
  blink_loop-IsEnd c zero w sixty long off h = rw (time_over c w sixty h) (omega (arith, h), off)
  blink_loop-IsEnd c (suc fuel) w sixty long off h =
      elim (Bool-cases (ltb (w.now / 1000) c.end_time_secs)) [
        | inr e ↦ rw e (ground (arith, e, sixty), off)
        | inl e ↦ rw e (
            after_cycle-IsEnd w.now (cycle_takes c) (cycle env c w) (blink_loop env (suc fuel) c)
              (cycle-Takes c w off)
              (λ v later dark.
                blink_loop-IsEnd c fuel v sixty long dark (omega (arith, later, long, h))))
      ]

  -- Whatever the LED manager answers and however late, 35 rounds are enough for any blinking to end. It
  -- ends because a call failed or was refused, or after 60 seconds at least with the LED turned off.
  pub blink-IsEnd : (b : Blink) → IsEnd (blink env 35 b)
  unfolding blink conf_of times is_on
  blink-IsEnd single = blink_loop-IsEnd (conf_of single) 34 _ refl (omega arith) refl (omega arith)
  blink-IsEnd double = blink_loop-IsEnd (conf_of double) 34 _ refl (omega arith) refl (omega arith)
  blink-IsEnd slow = blink_loop-IsEnd (conf_of slow) 34 _ refl (omega arith) refl (omega arith)
