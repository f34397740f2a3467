-- ===== src/Connection/Limits/Examples.antt =====
-- The connection limiter at concrete inputs.
use openwire.Base.{ℕ, ◌≡◌, refl, true, false, [], ◌∷◌, ==_iff, ◌==◌}
use openwire.Connection.Queue.{KeyEq}
use openwire.Connection.Limits.{
  ConnectionLimiter, connection_limiter, try_acquire_connection, drop_connection_permit,
}
use openwire.Connection.Limits.Accounts.{
  Reachable, starts, acquires, is_refused, try_acquire_connection-allowed,
}
use openwire.Connection.Limits.Sets.{allowed}

abbrev number_keys : KeyEq ℕ
number_keys = record { same = ◌==◌; same_iff = ==_iff }

-- Two connections in all, one for each address.
abbrev new_limiter : ConnectionLimiter ℕ
new_limiter = connection_limiter 2 1

abbrev one_held : ConnectionLimiter ℕ
one_held = (try_acquire_connection number_keys 7 new_limiter).0

abbrev refused_once : ConnectionLimiter ℕ
refused_once = (try_acquire_connection number_keys 7 one_held).0

refused_once-Reachable : Reachable number_keys 2 1 refused_once (7 ∷ [])
unfolding try_acquire_connection connection_limiter
refused_once-Reachable = is_refused 7 (acquires 7 starts refl) refl

try_acquire_connection-allowed_example :
    (try_acquire_connection number_keys 8 refused_once).1 ≡ allowed number_keys 2 1 8 (7 ∷ [])
try_acquire_connection-allowed_example =
    try_acquire_connection-allowed number_keys 2 1 refused_once (7 ∷ []) 8 refused_once-Reachable

other_address_test : (try_acquire_connection number_keys 8 refused_once).1 ≡ true
unfolding try_acquire_connection connection_limiter
other_address_test = refl

same_address_test : (try_acquire_connection number_keys 7 one_held).1 ≡ false
unfolding try_acquire_connection connection_limiter
same_address_test = refl

dropped_test :
    (try_acquire_connection number_keys 7 (drop_connection_permit number_keys 7 one_held)).1 ≡ true
unfolding try_acquire_connection connection_limiter drop_connection_permit
dropped_test = refl
