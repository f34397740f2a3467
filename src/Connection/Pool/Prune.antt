-- ===== src/Connection/Pool/Prune.antt =====
-- crates/openwire/src/connection/pool.rs: what `prune_connections` takes out of an address's bucket.
-- The clones of a connection share one state: the connections are a heap, from identifiers, and a
-- bucket is a list of identifiers. Instants and durations are numbers of milliseconds.
use openwire.Base.{
  ℕ, ◌-◌, ◌^◌, Bool, true, false, not, ◌&&◌, ◌||◌, List, [], ◌∷◌, ◌++◌, Option, none, some, leb,
  ◌==◌, if◌then◌else◌, any, length, take,
}
use openwire.Connection.RealConnection.{
  RealConnection, ConnectionAllocationState, allocation_state, close, is_healthy,
}

pub record PoolSettings : Type 0 where
  pub idle_timeout : Option ℕ
  pub max_idle_per_address : ℕ
  pub max_lifetime : Option ℕ

abbrev pub default_settings : PoolSettings
default_settings = record {
  idle_timeout = some 300000;
  max_idle_per_address = 5;
  max_lifetime = some 600000;
}

abbrev pub usize_max : ℕ
usize_max = 2 ^ 64 - 1

abbrev pub Heap : Type 0
Heap = ℕ → RealConnection

abbrev pub set_connection : ℕ → RealConnection → Heap → Heap
set_connection id c heap j = if j == id then c else heap j

abbrev state_is_in_use : ConnectionAllocationState → Bool
state_is_in_use (ConnectionAllocationState.in_use n) = true
state_is_in_use _ = false

abbrev state_is_idle : ConnectionAllocationState → Bool
state_is_idle ConnectionAllocationState.idle = true
state_is_idle _ = false

unfoldable pub is_in_use : RealConnection → Bool
unfolding allocation_state
is_in_use c = state_is_in_use (allocation_state c)

unfoldable pub is_idle : RealConnection → Bool
unfolding allocation_state
is_idle c = state_is_idle (allocation_state c)

unfoldable pub idle_for : ℕ → ℕ → Option ℕ → Bool
idle_for now timeout none = false
idle_for now timeout (some since) = leb timeout (now - since)

unfoldable pub idle_connection_expired : ℕ → RealConnection → ℕ → Bool
unfolding is_idle idle_for
idle_connection_expired now c timeout = is_idle c && idle_for now timeout c.idle_since

unfoldable pub connection_lifetime_expired : ℕ → RealConnection → ℕ → Bool
unfolding is_idle
connection_lifetime_expired now c max_lifetime = is_idle c && leb max_lifetime (now - c.created_at)

abbrev some_and : Option ℕ → (ℕ → Bool) → Bool
some_and none f = false
some_and (some n) f = f n

-- Which connections the first pass closes.
unfoldable pub is_expired : PoolSettings → ℕ → RealConnection → Bool
unfolding connection_lifetime_expired idle_connection_expired is_in_use
is_expired settings now c =
    if not (is_healthy c)
    then not (is_in_use c)
    else (some_and settings.max_lifetime (connection_lifetime_expired now c)
        || some_and settings.idle_timeout (idle_connection_expired now c))

pub record Pruned : Type 0 where
  pub heap : Heap
  pub kept : List ℕ
  pub removed : List ℕ

abbrev keep_first : ℕ → Pruned → Pruned
keep_first id p = record p { kept = id ∷ p.kept }

abbrev remove_first : ℕ → Pruned → Pruned
remove_first id p = record p { removed = id ∷ p.removed }

-- `retain`, which closes what it drops.
unfoldable pub retain_open : (ℕ → RealConnection → Bool) → Heap → List ℕ → Pruned
unfolding close
retain_open drops heap [] = record { heap = heap; kept = []; removed = [] }
retain_open drops heap (id ∷ ids) =
    let kept = retain_open drops heap ids in
    let dropped = retain_open drops (set_connection id (close (heap id)) heap) ids in
    if drops id (heap id) then remove_first id dropped else keep_first id kept

-- The idle connections, each with the instant since when it is idle.
unfoldable pub idle_since : Heap → List ℕ → List (ℕ × ℕ)
unfolding is_idle
idle_since heap [] = []
idle_since heap (id ∷ ids) =
    let rest = idle_since heap ids in
    if is_idle (heap id)
    then elim (heap id).idle_since [ none ↦ rest | some t ↦ (id, t) ∷ rest ]
    else rest

-- `sort_by_key`: stable, so by insertion after the equal ones.
unfoldable pub insert_by_since : ℕ × ℕ → List (ℕ × ℕ) → List (ℕ × ℕ)
insert_by_since (id, t) [] = (id, t) ∷ []
insert_by_since (id, t) ((j, u) ∷ xs) =
    let rest = insert_by_since (id, t) xs in
    if leb t u then (id, t) ∷ (j, u) ∷ xs else (j, u) ∷ rest

unfoldable pub sort_by_since : List (ℕ × ℕ) → List (ℕ × ℕ)
unfolding insert_by_since
sort_by_since [] = []
sort_by_since (x ∷ xs) = insert_by_since x (sort_by_since xs)

abbrev pub contains : List (ℕ × ℕ) → ℕ → Bool
contains evicted id = any (λ e. e.0 == id) evicted

unfoldable pub enforce_max_idle_connections : ℕ → Heap → List ℕ → Pruned
unfolding idle_since sort_by_since retain_open
enforce_max_idle_connections max_idle heap ids =
    let idle = idle_since heap ids in
    if max_idle == usize_max || leb (length idle) max_idle
    then record { heap = heap; kept = ids; removed = [] }
    else retain_open (λ id c. contains (take (length idle - max_idle) (sort_by_since idle)) id) heap
        ids

unfoldable pub prune_connections : PoolSettings → ℕ → Heap → List ℕ → Pruned
unfolding is_expired retain_open enforce_max_idle_connections
prune_connections settings now heap ids =
    let expired = retain_open (λ id c. is_expired settings now c) heap ids in
    let evicted =
      enforce_max_idle_connections settings.max_idle_per_address expired.heap expired.kept in
    record evicted { removed = expired.removed ++ evicted.removed }
