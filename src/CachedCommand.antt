-- ===== src/CachedCommand.antt =====
-- expansionhub/CachedCommand.h: a setting that is sent again until the hub has acknowledged it. What the
-- subscriber holds at the time of a call is an argument of the call.
pub mod Laws
use scservices.Prelude.{Bool, false, Option, none, some, if◌then◌else◌, Eq, ◌≟◌, bool_eq}

-- `lastAckedValue` and `lastAttemptedValue`.
pub record CachedCommand (V : Type 0) : Type 0 where
  pub last_acked_value : Option V
  pub last_attempted_value : V

-- `newValue == lastAckedValue`: a value never equals an empty option.
abbrev pub is_acked : {V : Type 0} ⦃e : Eq V⦄ → V → Option V → Bool
is_acked v none = false
is_acked v (some w) = v ≟ w

module _ {V : Type 0} where
  unfoldable pub force_reset : CachedCommand V → CachedCommand V
  force_reset c = record c { last_acked_value = none }

  unfoldable pub ack : CachedCommand V → CachedCommand V
  ack c = record c { last_acked_value = some c.last_attempted_value }

  module _ ⦃e : Eq V⦄ where
    -- `Get`, with the subscriber's value: what to send, if anything.
    unfoldable pub get : V → CachedCommand V → CachedCommand V × Option V
    get new_value c =
        if is_acked new_value c.last_acked_value
        then (c, none)
        else (record { last_acked_value = none; last_attempted_value = new_value }, some new_value)

-- `GetWithCanEnable`.
unfoldable pub get_with_can_enable :
    Bool → Bool → CachedCommand Bool → CachedCommand Bool × Option Bool
get_with_can_enable can_enable value c =
    let new_value = if can_enable then value else false in
    if is_acked new_value c.last_acked_value
    then (c, none)
    else (record { last_acked_value = none; last_attempted_value = new_value }, some new_value)
