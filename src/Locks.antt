-- ===== src/Locks.antt =====
-- pkg/syncutil/mutexmap.go: locks by name. Each method holds the map's own mutex, so that it is one
-- step. A channel is a number, and closing one that is closed panics.
pub mod Exclusion
use edgerouter.Base.{
  ℕ, suc, Str, ◌≡◌, ◌==◌, Bool, true, false, ◌||◌, List, [], ◌∷◌, Option, none, some, Result, ok,
  panic, eqb, if◌then◌else◌,
}
use edgerouter.Base.Dict.{Dict, lookup, insert, delete}

pub record MutexMap : Type 0 where
  pub locks : Dict ℕ
  pub next_chan : ℕ
  pub closed : List ℕ

abbrev pub new_mutex_map : MutexMap
new_mutex_map = record { locks = []; next_chan = 0; closed = [] }

unfoldable pub is_closed : List ℕ → ℕ → Bool
is_closed [] c = false
is_closed (d ∷ ds) c = eqb d c || is_closed ds c

-- The two results of tryLockInternal: the key and the channel that the function `unlock` closes over,
-- or the channel to wait on.
pub data Attempt : Type 0 where
  unlock_func : (key : Str) (unlocked : ℕ) → Attempt
  try_again : (chan : ℕ) → Attempt

abbrev pub try_lock_found : Str → Option ℕ → MutexMap → Attempt × MutexMap
try_lock_found key (some chan) n = (try_again chan, n)
try_lock_found key none n = (
  unlock_func key n.next_chan,
  record n { locks = insert key n.next_chan n.locks; next_chan = suc n.next_chan },
)

unfoldable pub try_lock_internal : Str → MutexMap → Attempt × MutexMap
try_lock_internal key n = try_lock_found key (lookup key n.locks) n

abbrev pub is_unlock : Attempt → Bool
is_unlock (unlock_func key unlocked) = true
is_unlock (try_again chan) = false

-- TryLock, by its second result.
unfoldable pub try_lock : Str → MutexMap → Bool × MutexMap
unfolding try_lock_internal
try_lock key n = let (attempt, n') = try_lock_internal key n in (is_unlock attempt, n')

-- The function that tryLockInternal returns.
unfoldable pub unlock : Str → ℕ → MutexMap → Result MutexMap
unlock key unlocked n =
    if is_closed n.closed unlocked
    then panic
    else ok (record n { locks = delete key n.locks; closed = unlocked ∷ n.closed })

-- The map, and the unlock functions that were returned and not called yet.
pub record World : Type 0 where
  pub mutexes : MutexMap
  pub held : List (Str × ℕ)

-- One step of any of the goroutines: an attempt that succeeds, one that does not (Lock then waits
-- and tries again), and the call of an unlock function by the one that holds it.
pub data Step : World → World → Type 0 where
  locked :
      {w : World} {key : Str} {chan : ℕ} {n : MutexMap}
      → try_lock_internal key w.mutexes ≡ (unlock_func key chan, n)
      → Step w (record { mutexes = n; held = (key, chan) ∷ w.held })
  refused :
      {w : World} (key : Str) (chan : ℕ) {n : MutexMap}
      → try_lock_internal key w.mutexes ≡ (try_again chan, n)
      → Step w (record w { mutexes = n })
  unlocked :
      {w : World} (key : Str) (chan : ℕ) {n : MutexMap}
      → lookup key w.held ≡ some chan
      → unlock key chan w.mutexes ≡ ok n
      → Step w (record { mutexes = n; held = delete key w.held })

pub data Reachable : World → Type 0 where
  start : Reachable (record { mutexes = new_mutex_map; held = [] })
  then_step : {v w : World} → Reachable v → Step v w → Reachable w
