-- ===== src/Tests/Stalls.antt =====
-- A run of pkg/syncutil/mutexmap.go.
use edgerouter.Base.{◌≡◌, refl, ◌↔◌, ℕ, Str, bytes, ◌==◌, true, [], ◌∷◌, none, some, ok}
use edgerouter.Base.Dict.{lookup, insert, delete}
use edgerouter.Base.Dict.Keys.{HasUniqueKeys}
use edgerouter.Locks.{
  MutexMap, new_mutex_map, try_lock_internal, try_lock, unlock, World, Step, locked, refused,
  Reachable, start, then_step,
}
use edgerouter.Locks.Exclusion.{Reachable-exclusive}

abbrev one_locked : MutexMap
one_locked = record { locks = (bytes "a", 0) ∷ []; next_chan = 1; closed = [] }

abbrev one_holder : World
one_holder = record { mutexes = one_locked; held = (bytes "a", 0) ∷ [] }

abbrev no_holder : World
no_holder = record { mutexes = new_mutex_map; held = [] }

-- One goroutine locks the name, and another one does not get it.
first-Step : Step no_holder one_holder
unfolding try_lock_internal lookup insert ◌==◌ bytes
first-Step = locked {w = no_holder} {key = bytes "a"} {chan = 0} {n = one_locked} refl

second-Step : Step one_holder one_holder
unfolding try_lock_internal lookup ◌==◌ bytes
second-Step = refused {w = one_holder} (bytes "a") 0 {n = one_locked} refl

one_holder-Reachable : Reachable one_holder
one_holder-Reachable = then_step (then_step start first-Step) second-Step

unlocked_again :
    unlock (bytes "a") 0 one_locked ≡ ok (record { locks = []; next_chan = 1; closed = 0 ∷ [] })
unfolding unlock edgerouter.Locks.is_closed delete ◌==◌ bytes
unlocked_again = refl

Reachable-exclusive_example :
    HasUniqueKeys one_holder.held
    × ((key : Str) → ((try_lock key one_locked).0 ≡ true) ↔ (lookup key one_holder.held ≡ none))
    × ((key : Str) (chan : ℕ)
        → lookup key one_holder.held ≡ some chan
        → (n : MutexMap) × (unlock key chan one_locked ≡ ok n) × ((try_lock key n).0 ≡ true))
Reachable-exclusive_example = Reachable-exclusive one_holder one_holder-Reachable
