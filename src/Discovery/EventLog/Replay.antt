-- ===== src/Discovery/EventLog/Replay.antt =====
-- pkg/erdiscovery/ehdiscovery/ehdiscovery.go: what a log of events says of an application.
use edgerouter.Base.{
  ℕ, ◌≡◌, refl, ◌∙◌, Str, ◌==◌, eq_iff, eq_refl, List, [], ◌∷◌, ◌++◌, ◌⊎◌, inl, inr, Option, none,
  some, All, if◌then◌else◌, Bool-cases, arith,
}
use edgerouter.Config.{Application}
use edgerouter.Discovery.EventLog.{Event, app_updated, app_deleted, other_event}

-- What one event says about the application with an identity.
abbrev pub after_event : Str → Event → Option Application → Option Application
after_event id (app_updated app) before = if app.id == id then some app else before
after_event id (app_deleted gone) before = if gone == id then none else before
after_event id (other_event meta_type) before = before

-- The event is about the application with this identity.
abbrev pub IsAbout : Str → Event → Type 0
IsAbout id (app_updated app) = app.id ≡ id
IsAbout id (app_deleted gone) = gone ≡ id
IsAbout id (other_event meta_type) = ⊥

-- The log updates the application, and nothing behind that update is about it.
abbrev pub IsLatest : Application → List Event → Type 0
IsLatest app [] = ⊥
IsLatest app (e ∷ es) =
    ((e ≡ app_updated app) × All (λ later. ¬ IsAbout app.id later) es) ⊎ IsLatest app es

abbrev pub all_events : List (List Event × ℕ) → List Event
all_events [] = []
all_events ((es, c) ∷ batches) = es ++ all_events batches

abbrev pub replay : Str → List Event → Option Application → Option Application
replay id [] found = found
replay id (e ∷ es) found = replay id es (after_event id e found)

pub replay-append :
    (id : Str) (es fs : List Event) (found : Option Application)
    → replay id (es ++ fs) found ≡ replay id fs (replay id es found)
replay-append id [] fs found = refl
replay-append id (e ∷ es) fs found = replay-append id es fs (after_event id e found)

-- An event that is not about the application leaves what is said of it.
after_event-other :
    (id : Str) (e : Event) (found : Option Application)
    → ¬ IsAbout id e
    → after_event id e found ≡ found
after_event-other id (app_updated app) found away = ground (arith, eq_iff app.id id)
after_event-other id (app_deleted gone) found away = ground (arith, eq_iff gone id)
after_event-other id (other_event meta_type) found away = refl

replay-untouched :
    (id : Str) (es : List Event) (found : Option Application)
    → All (λ e. ¬ IsAbout id e) es
    → replay id es found ≡ found
replay-untouched id [] found a = refl
replay-untouched id (e ∷ es) found a =
    replay-untouched id es (after_event id e found) a.1 ∙ after_event-other id e found a.0

pub replay-IsLatest :
    (app : Application) (es : List Event) (found : Option Application)
    → IsLatest app es
    → replay app.id es found ≡ some app
replay-IsLatest app [] found h = elim h [ ]
replay-IsLatest app (e ∷ es) found (inl (is_update, away)) =
    rw
      (
        is_update,
        replay-untouched app.id es (after_event app.id (app_updated app) found) away,
        eq_refl app.id,
      )
      refl
replay-IsLatest app (e ∷ es) found (inr later) =
    replay-IsLatest app es (after_event app.id e found) later

-- What a replay ends with comes from the latest update, or nothing in the log is about it.
pub replay-some :
    (app : Application) (es : List Event) (found : Option Application)
    → replay app.id es found ≡ some app
    → IsLatest app es ⊎ ((found ≡ some app) × All (λ e. ¬ IsAbout app.id e) es)
replay-some app [] found h = inr (h, tt)
replay-some app (e ∷ es) found h = elim (replay-some app es (after_event app.id e found) h) [
  | inl later ↦ inl (inr later)
  | inr (now, away) ↦ by_event e now away
]
  where
    by_event :
        (e : Event)
        → after_event app.id e found ≡ some app
        → All (λ e. ¬ IsAbout app.id e) es
        → IsLatest app (e ∷ es) ⊎ ((found ≡ some app) × All (λ e. ¬ IsAbout app.id e) (e ∷ es))
    by_event (app_updated other) now away = elim (Bool-cases (other.id == app.id)) [
      | inl same ↦ let is : some other ≡ some app = rw same at now in inl (inl (cc, away))
      | inr differs ↦
          inr (rw differs at now, ((λ same. ground (arith, eq_iff other.id app.id)), away))
    ]
    by_event (app_deleted gone) now away = elim (Bool-cases (gone == app.id)) [
      | inl same ↦ let is : none ≡ some app = rw same at now in cc
      | inr differs ↦ inr (rw differs at now, ((λ same. ground (arith, eq_iff gone app.id)), away))
    ]
    by_event (other_event meta_type) now away = inr (now, ((λ about. about), away))
