-- ===== src/BotConfig/RoundTrip.antt =====
-- A number that is written into the environment as `Itoa` prints it is the one that `envInt` reads.
use guhfrtui.Base.{
  ◌≡◌, refl, false, ◌||◌, [], ◌∷◌, All, Bytes, arith, bytes_eq, nat_eq, ==_refl, List-cases,
}
use guhfrtui.Base.Int.{ℤ}
use guhfrtui.Base.Sets.{has}
use guhfrtui.Text.{is_empty}
use guhfrtui.Text.Numbers.{itoa, IsInt64, atoi-itoa, itoa-IsPrintable, itoa-ne-nil}
use guhfrtui.Text.Printable.{IsPrintable, trim_space_printable}
use guhfrtui.BotConfig.{Env, getenv, setting, env_int}
use guhfrtui.BotConfig.DotEnv.{setenv, getenv-setenv}

has_zero_printable : (s : Bytes) → All IsPrintable s → has 0 s ≡ false
unfolding has
has_zero_printable [] h = refl
has_zero_printable (x ∷ s) h = ground (arith, h.0, has_zero_printable s h.1)

getenv-setenv_self :
    (key val : Bytes) (env : Env)
    → (is_empty key || has b'=' key || has 0 key) ≡ false
    → has 0 val ≡ false
    → getenv key (setenv key val env) ≡ val
getenv-setenv_self key val env valid plain =
    ground (arith, getenv-setenv key key val env, ==_refl key)

env_int_printed :
    (key : Bytes) (n fallback : ℤ) (env : Env)
    → IsInt64 n
    → getenv key env ≡ itoa n
    → env_int key fallback env ≡ n
unfolding env_int setting
env_int_printed key n fallback env range e =
    rw (e, trim_space_printable (itoa n) (itoa-IsPrintable n), atoi-itoa n range)
      (ground (arith, itoa-ne-nil n, List-cases (itoa n)))

-- A name that the environment can hold is set to what `Itoa` prints of an int64: `envInt` then reads
-- this number, whatever the fallback, and whatever the environment held before.
pub env_int-setenv :
    (key : Bytes) (n fallback : ℤ) (env : Env)
    → (is_empty key || has b'=' key || has 0 key) ≡ false
    → IsInt64 n
    → env_int key fallback (setenv key (itoa n) env) ≡ n
env_int-setenv key n fallback env valid range =
    env_int_printed key n fallback (setenv key (itoa n) env) range
      (getenv-setenv_self key (itoa n) env valid (has_zero_printable (itoa n) (itoa-IsPrintable n)))
