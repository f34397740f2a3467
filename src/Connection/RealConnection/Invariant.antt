-- ===== src/Connection/RealConnection/Invariant.antt =====
-- What every history of operations keeps of a connection.
use openwire.Base.{
  ◌+◌, ◌-◌, max, ap, ap₂, ◌∙◌, if◌then◌else◌, ℕ, ◌≤◌, ◌<◌, ◌≡◌, refl, true, false, List, [], ◌∷◌,
  none, arith, is_some, ◌==◌,
}
use openwire.Connection.Planning.{Route}
use openwire.Connection.RealConnection.{
  ConnectionProtocol, http1, http2, RealConnection, with_id, try_acquire, release, mark_unhealthy,
  close, is_closed,
}

-- How many exchanges a protocol lets a connection carry at once.
abbrev pub capacity : ConnectionProtocol → ℕ → ℕ
capacity http1 max_http2_streams = 1
capacity http2 max_http2_streams = max_http2_streams

-- The allocations are within the protocol's budget; a connection is idle since some time exactly
-- when it is open and carries none; a closed one carries none.
pub record IsConsistent (c : RealConnection) : Type 0 where
  pub streams : 0 < c.max_http2_streams
  pub within : c.allocations ≤ capacity c.protocol c.max_http2_streams
  pub open_idle : is_closed c ≡ false → is_some c.idle_since ≡ (c.allocations == 0)
  pub shut_idle : is_closed c ≡ true → c.idle_since ≡ none
  pub shut_free : is_closed c ≡ true → c.allocations ≡ 0

pub data Op : Type 0 where
  acquires marks closes : Op
  releases : ℕ → Op

pub apply : RealConnection → Op → RealConnection
apply c acquires = (try_acquire c).0
apply c (releases now) = (release now c).0
apply c marks = mark_unhealthy c
apply c closes = close c

with_id-IsConsistent :
    (id : ℕ) (route : Route) (protocol : ConnectionProtocol) (names : List (List ℕ))
    (streams now : ℕ)
    → IsConsistent (with_id id route protocol names streams now)
unfolding with_id
with_id-IsConsistent id route protocol names streams now = ground arith

apply-IsConsistent : (c : RealConnection) (o : Op) → IsConsistent c → IsConsistent (apply c o)
unfolding apply try_acquire release mark_unhealthy close
apply-IsConsistent c acquires h = ground arith
apply-IsConsistent c (releases now) h = ground arith
apply-IsConsistent c marks h = ground arith
apply-IsConsistent c closes h = ground arith

pub apply_all : RealConnection → List Op → RealConnection
unfolding apply
apply_all c [] = c
apply_all c (o ∷ ops) = apply_all (apply c o) ops

apply_all-IsConsistent :
    (c : RealConnection) (ops : List Op) → IsConsistent c → IsConsistent (apply_all c ops)
unfolding apply_all
apply_all-IsConsistent c [] h = h
apply_all-IsConsistent c (o ∷ ops) h =
    apply_all-IsConsistent (apply c o) ops (apply-IsConsistent c o h)

-- The exchanges that were let on a connection and not ended since, counted beside it: an acquisition
-- that succeeds begins one, a release ends one if there is any, and a close ends all.
abbrev pub exchanges : RealConnection → ℕ → Op → ℕ
exchanges c n acquires = if (try_acquire c).1 then n + 1 else n
exchanges c n (releases now) = n - 1
exchanges c n marks = n
exchanges c n closes = 0

pub all_exchanges : RealConnection → ℕ → List Op → ℕ
all_exchanges c n [] = n
all_exchanges c n (o ∷ ops) = all_exchanges (apply c o) (exchanges c n o) ops

apply-allocations :
    (c : RealConnection) (o : Op)
    → IsConsistent c
    → (apply c o).allocations ≡ exchanges c c.allocations o
unfolding apply try_acquire release mark_unhealthy close
apply-allocations c acquires h = ground arith
apply-allocations c (releases now) h = ground arith
apply-allocations c marks h = ground arith
apply-allocations c closes h = refl

apply_all-allocations :
    (c : RealConnection) (ops : List Op)
    → IsConsistent c
    → (apply_all c ops).allocations ≡ all_exchanges c c.allocations ops
unfolding apply_all all_exchanges
apply_all-allocations c [] h = refl
apply_all-allocations c (o ∷ ops) h =
    apply_all-allocations (apply c o) ops (apply-IsConsistent c o h)
    ∙ ap (λ n. all_exchanges (apply c o) n ops) (apply-allocations c o h)

apply-fixed :
    (c : RealConnection) (o : Op)
    → ((apply c o).protocol ≡ c.protocol) × ((apply c o).max_http2_streams ≡ c.max_http2_streams)
unfolding apply try_acquire release mark_unhealthy close
apply-fixed c acquires = ground arith
apply-fixed c (releases now) = ground arith
apply-fixed c marks = ground arith
apply-fixed c closes = (refl, refl)

apply_all-capacity :
    (c : RealConnection) (ops : List Op)
    → capacity (apply_all c ops).protocol (apply_all c ops).max_http2_streams
      ≡ capacity c.protocol c.max_http2_streams
unfolding apply_all
apply_all-capacity c [] = refl
apply_all-capacity c (o ∷ ops) =
    let (p, m) = apply-fixed c o in apply_all-capacity (apply c o) ops ∙ ap₂ capacity p m

-- Every history of acquisitions, releases, markings and closings of a new connection leaves it
-- consistent, so idle since some time exactly when it is open and unused. Its allocations are the
-- exchanges that were let on it and not ended since, a close ending all of them, and these are never
-- more than its protocol carries: one on HTTP/1, the stream cap, at least one, on HTTP/2.
pub apply_all-with_id-IsConsistent :
    (id : ℕ) (route : Route) (protocol : ConnectionProtocol) (names : List (List ℕ))
    (streams now : ℕ) (ops : List Op)
    → let c = with_id id route protocol names streams now in
      IsConsistent (apply_all c ops)
      × ((apply_all c ops).allocations ≡ all_exchanges c 0 ops)
      × (all_exchanges c 0 ops ≤ capacity protocol (max streams 1))
unfolding with_id
apply_all-with_id-IsConsistent id route protocol names streams now ops =
    let new = with_id-IsConsistent id route protocol names streams now in
    let c = with_id id route protocol names streams now in
    let k = apply_all-IsConsistent c ops new in
    let e = apply_all-allocations c ops new in
    (k, e, rw (← e, ← apply_all-capacity c ops) (k.within))

-- A closed connection stays as it is, whatever is done with it.
apply-closed : (c : RealConnection) (o : Op) → is_closed c ≡ true → is_closed (apply c o) ≡ true
unfolding apply try_acquire release mark_unhealthy close
apply-closed c acquires h = ground arith
apply-closed c (releases now) h = ground arith
apply-closed c marks h = ground arith
apply-closed c closes h = refl

-- No history opens a closed connection again, and none acquires it.
pub apply_all-closed :
    (c : RealConnection) (ops : List Op)
    → is_closed c ≡ true
    → (is_closed (apply_all c ops) ≡ true) × ((try_acquire (apply_all c ops)).1 ≡ false)
unfolding apply_all try_acquire
apply_all-closed c [] h = (h, ground arith)
apply_all-closed c (o ∷ ops) h = apply_all-closed (apply c o) ops (apply-closed c o h)
