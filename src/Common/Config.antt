-- ===== src/Common/Config.antt =====
-- common/config.py: the checks that the three cluster configs share.
--
-- A timeout, a `float` in the source, is an integer count of some small unit of time, one of the
-- infinities or NaN, which YAML can write as well.
pub mod Checks
use Prim.Native.Char.{Char, code}
use Prim.Native.String
use kv_replication_lab.Prelude.{
  ℕ, ◌+◌, String, Bool, true, false, not, ◌&&◌, ◌||◌, Option, none, some, leb, nat_eq, ◌==◌,
  if◌then◌else◌,
}
use kv_replication_lab.Prelude.Int.{ℤ, pos, pos_part, leb_ℤ}

-- What a check or a constructor that may raise returns.
pub data Checked {ℓ} (A : Type ℓ) : Type ℓ where
  ok : A → Checked A
  value_error : Checked A
  key_error : Checked A

infixl 5 ◌>>=◌ ◌>>◌
abbrev pub ◌>>=◌ {ℓ κ} : {A : Type ℓ} {B : Type κ} → Checked A → (A → Checked B) → Checked B
ok a >>= f = f a
value_error >>= f = value_error
key_error >>= f = key_error

abbrev pub ◌>>◌ {ℓ} : {B : Type ℓ} → Checked (Unit {0}) → Checked B → Checked B
m >> k = m >>= λ _. k

-- `raw.get(key, default)`
abbrev pub get_default {ℓ} : {A : Type ℓ} → Option A → A → A
get_default none d = d
get_default (some a) d = a

-- `raw[key]`
abbrev pub get_item {ℓ} : {A : Type ℓ} → Option A → Checked A
get_item none = key_error
get_item (some a) = ok a

-- A `float` of seconds.
pub data Seconds : Type 0 where
  finite : ℤ → Seconds
  infinite negative_infinite not_a_number : Seconds

-- `value <= 0`, which is False of NaN
abbrev pub is_at_most_zero : Seconds → Bool
is_at_most_zero (finite z) = leb_ℤ z (pos 0)
is_at_most_zero infinite = false
is_at_most_zero negative_infinite = true
is_at_most_zero not_a_number = false

-- `start + timeout - now <= 0`, for the timeout of a config
abbrev pub is_over : (timeout : Seconds) (start now : ℕ) → Bool
is_over (finite z) start now = leb (start + pos_part z) now
is_over infinite start now = false
is_over negative_infinite start now = true
is_over not_a_number start now = false

unfoldable pub require_positive : Seconds → Checked (Unit {0})
require_positive value = if is_at_most_zero value then value_error else ok tt

unfoldable pub require_in_range : (value lo hi : ℤ) → Checked (Unit {0})
require_in_range value lo hi = if not (leb_ℤ lo value && leb_ℤ value hi) then value_error else ok tt

-- `str.isspace` of one character, the characters that `str.strip` takes away
unfoldable pub is_space : Char → Bool
is_space ch =
    let c = code ch in
    leb 9 c && leb c 13
    || (leb 28 c && leb c 32)
    || (nat_eq c 0x85 || nat_eq c 0xa0 || nat_eq c 0x1680)
    || (leb 0x2000 c && leb c 0x200a)
    || (nat_eq c 0x2028 || nat_eq c 0x2029 || nat_eq c 0x202f || nat_eq c 0x205f || nat_eq c 0x3000)

-- `str.lstrip`
unfoldable pub lstrip : String → String
lstrip String.[] = String.[]
lstrip (String.◌∷◌ c s) = if is_space c then lstrip s else String.◌∷◌ c s

abbrev pub cons_unless_blank : Char → String → String
cons_unless_blank c String.[] = if is_space c then String.[] else String.◌∷◌ c String.[]
cons_unless_blank c (String.◌∷◌ d s) = String.◌∷◌ c (String.◌∷◌ d s)

-- `str.rstrip`
unfoldable pub rstrip : String → String
rstrip String.[] = String.[]
rstrip (String.◌∷◌ c s) = cons_unless_blank c (rstrip s)

unfoldable pub strip : String → String
unfolding lstrip rstrip
strip s = rstrip (lstrip s)

unfoldable pub require_nonempty_str : String → Checked String
require_nonempty_str value =
    let stripped = strip value in if stripped == "" then value_error else ok stripped
