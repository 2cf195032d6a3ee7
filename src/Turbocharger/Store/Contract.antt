-- ===== src/Turbocharger/Store/Contract.antt =====
-- pkg/turbocharger/store-*.go: the contract of the interface CAS, and that the three stores keep it.
use edgerouter.Base.{
  ◌≡◌, ◌≢◌, refl, sym, ◌∙◌, ◌⊎◌, inl, inr, Str, ◌==◌, eq_iff, eq_refl, true, false, Option, none,
  some, ok, Bool-cases, if◌then◌else◌,
}
use edgerouter.Base.Dict.{lookup, insert, lookup-insert}
use edgerouter.Turbocharger.Ids.{ObjectId}
use edgerouter.Turbocharger.Store.{found, got_of, Cas, InMemoryStore, in_memory_store, FileSystem}

-- The content that a store holds under an id. Reading changes nothing of it and gives only what it
-- holds. An insertion adds at most that content under that id, removes nothing, and if it succeeds
-- the store holds a content under the id.
pub record IsStore {S : Type 0} (cas : Cas S) (view : S → ObjectId → Option Str) : Type 0 where
  pub get_keeps : (id k : ObjectId) (s : S) → view (cas.get_object id s).1 k ≡ view s k
  pub get_found :
      (id : ObjectId) (s : S) (c : Str) → (cas.get_object id s).0 ≡ found c → view s id ≡ some c
  pub insert_adds :
      (id k : ObjectId) (c t d : Str) (s : S)
      → view (cas.insert_object id c t s).1 k ≡ some d
      → (view s k ≡ some d) ⊎ ((k ≡ id) × (d ≡ c))
  pub insert_keeps :
      (id k : ObjectId) (c t d : Str) (s : S)
      → view s k ≡ some d
      → (e : Str) × (view (cas.insert_object id c t s).1 k ≡ some e)
  pub insert_done :
      (id : ObjectId) (c t : Str) (s : S)
      → (cas.insert_object id c t s).0.result ≡ ok tt
      → (d : Str) × (view (cas.insert_object id c t s).1 id ≡ some d)

-- A store that never fails: it reads what it holds, to the end, and reads the content that it
-- inserts.
pub record IsReliable {S : Type 0} (cas : Cas S) (view : S → ObjectId → Option Str) : Type 0 where
  pub get_there :
      (id : ObjectId) (s : S) (c : Str) → view s id ≡ some c → (cas.get_object id s).0 ≡ found c
  pub read_whole :
      (id : ObjectId) (s : S) (c : Str)
      → view s id ≡ some c
      → cas.read_error id (cas.get_object id s).1 ≡ none
  pub insert_ok :
      (id : ObjectId) (c t : Str) (s : S) → (cas.insert_object id c t s).0.result ≡ ok tt
  pub insert_consumes :
      (id : ObjectId) (c t : Str) (s : S)
      → view s id ≡ none
      → (cas.insert_object id c t s).0.consumed ≡ true

-- What is documented of the file system: opening a file gives its content and existence is existence,
-- both without a change; an atomic write changes no other file, and leaves the old state or the new
-- content.
pub record IsFileSystem {S : Type 0} (fs : FileSystem S) (content : S → Str → Option Str)
    : Type 0 where
  pub open_keeps : (p q : Str) (s : S) → content (fs.open_file p s).1 q ≡ content s q
  pub open_found :
      (p : Str) (s : S) (c : Str) → (fs.open_file p s).0 ≡ found c → content s p ≡ some c
  pub exists_keeps : (p q : Str) (s : S) → content (fs.exists p s).1 q ≡ content s q
  pub exists_true :
      (p : Str) (s : S) → (fs.exists p s).0 ≡ ok true → (c : Str) × (content s p ≡ some c)
  pub exists_false : (p : Str) (s : S) → (fs.exists p s).0 ≡ ok false → content s p ≡ none
  pub write_others :
      (p q c : Str) (s : S) → q ≢ p → content (fs.write_atomic p c s).1 q ≡ content s q
  pub write_this :
      (p c : Str) (s : S)
      → (content (fs.write_atomic p c s).1 p ≡ some c)
        ⊎ ((content (fs.write_atomic p c s).1 p ≡ content s p)
            × ((fs.write_atomic p c s).0.result ≢ ok tt))

abbrev pub in_memory_view : InMemoryStore → ObjectId → Option Str
in_memory_view d id = lookup id d.files

pub some-injective : {a b : Str} → some a ≡ some b → a ≡ b
some-injective p = cc

pub in_memory_store-IsStore : IsStore in_memory_store in_memory_view
unfolding in_memory_store
in_memory_store-IsStore = record {
  get_keeps = λ id k s. refl;
  get_found = λ id s c h. got (lookup id s.files) c h;
  insert_adds = λ id k c t d s h. added id k c d s (sym (lookup-insert id k c s.files) ∙ h);
  insert_keeps = λ id k c t d s h. kept id k c d s h;
  insert_done = λ id c t s h. (c, lookup-insert id id c s.files ∙ rw (eq_refl id) refl);
}
  where
    got : (o : Option Str) (c : Str) → got_of o ≡ found c → o ≡ some c
    got none c h = cc
    got (some b) c h = cc

    added :
        (id k : ObjectId) (c d : Str) (s : InMemoryStore)
        → (if id == k then some c else lookup k s.files) ≡ some d
        → (lookup k s.files ≡ some d) ⊎ ((k ≡ id) × (d ≡ c))
    added id k c d s h = elim (Bool-cases (id == k)) [
      | inl e ↦ inr (sym ((eq_iff id k).0 e), sym (some-injective (rw e at h)))
      | inr e ↦ inl (rw e at h)
    ]

    kept :
        (id k : ObjectId) (c d : Str) (s : InMemoryStore)
        → lookup k s.files ≡ some d
        → (e : Str) × (lookup k (insert id c s.files) ≡ some e)
    kept id k c d s h = elim (Bool-cases (id == k)) [
      | inl e ↦ (c, lookup-insert id k c s.files ∙ rw e refl)
      | inr e ↦ (d, lookup-insert id k c s.files ∙ rw e h)
    ]

pub in_memory_store-IsReliable : IsReliable in_memory_store in_memory_view
unfolding in_memory_store
in_memory_store-IsReliable = record {
  get_there = λ id s c h. rw h refl;
  read_whole = λ id s c h. refl;
  insert_ok = λ id c t s. refl;
  insert_consumes = λ id c t s h. refl;
}
