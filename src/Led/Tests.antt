-- ===== src/Led/Tests.antt =====
-- The blinking at concrete inputs: a manager that answers with true, with and without delays.
use edgehog_device_runtime.Base.{◌≡◌, refl, true, some, [], ◌∷◌, ok}
use edgehog_device_runtime.Base.Text.{split_once, strip_prefix}
use edgehog_device_runtime.Led.{
  single, double, Env, over, conf_of, turn, wait, blink_once, repeat, cycle, blink_loop, blink,
  led_id_from_path,
}
use edgehog_device_runtime.Led.Ends.{IsEnd, blink-IsEnd}

abbrev prompt : Env
prompt = record { set = λ calls. ok true; lag = λ calls. 0 }

abbrev late : Env
late = record { set = λ calls. ok true; lag = λ calls. 7 }

double_ends : (blink prompt 35 double).0 ≡ over
unfolding blink blink_loop cycle repeat blink_once turn wait conf_of
double_ends = refl

path_of_led : led_id_from_path (b'/' ∷ b'a' ∷ b'b' ∷ b'/' ∷ b'c' ∷ []) ≡ some (b'a' ∷ b'b' ∷ [])
unfolding led_id_from_path split_once strip_prefix
path_of_led = refl

blink-IsEnd_example : IsEnd (blink late 35 single)
blink-IsEnd_example = blink-IsEnd late single
