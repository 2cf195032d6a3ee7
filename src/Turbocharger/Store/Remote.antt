-- ===== src/Turbocharger/Store/Remote.antt =====
-- pkg/turbocharger/store-localfs.go and store-s3.go: the stores keep the contract of the interface.
use edgerouter.Base.{
  ◌≡◌, ◌≢◌, refl, sym, ap, ◌∙◌, subst, ◌⊎◌, inl, inr, Str, bytes, ◌==◌, eq_iff, Bool, true, false,
  Option, some, Result, ok, err, panic, Bool-cases,
}
use edgerouter.Turbocharger.Ids.{ObjectId}
use edgerouter.Turbocharger.Store.{
  found, Cas, FileSystem, file_store, in_memory_store, file_insert_checked, not_read, HeadAnswer,
  is_there, api_error, head_failed, exists_of, S3Client, s3_exists, s3_insert_checked, s3_storage,
}
use edgerouter.Turbocharger.Store.Contract.{
  IsStore, IsFileSystem, some-injective, in_memory_view, in_memory_store-IsStore,
}

-- A state after a write of one content at one place: the place has the content, or nothing is changed
-- there and the write failed; nothing is changed elsewhere.
abbrev pub IsWrite :
    (Str → Option Str) → (Str → Option Str) → Str → Str → Result (Unit {0}) → Type 0
IsWrite before after p c result =
    ((q : Str) → q ≢ p → after q ≡ before q)
    × ((after p ≡ some c) ⊎ ((after p ≡ before p) × (result ≢ ok tt)))

write-adds :
    (before after : Str → Option Str) (p c : Str) (result : Result (Unit {0})) (q d : Str)
    → IsWrite before after p c result
    → after q ≡ some d
    → (before q ≡ some d) ⊎ ((q ≡ p) × (d ≡ c))
write-adds before after p c result q d (others, this) h = elim (Bool-cases (q == p)) [
  | inl e ↦
      let same = (eq_iff q p).0 e in
      let h' : after p ≡ some d = subst (λ x. after x ≡ some d) same h in
      elim this [
        | inl new ↦ inr (same, some-injective (sym h' ∙ new))
        | inr (old, failed_write) ↦ inl (subst (λ x. before x ≡ some d) (sym same) (sym old ∙ h'))
      ]
  | inr e ↦
      let differs : q ≢ p = λ same. let t = (eq_iff q p).1 same in cc in
      inl (sym (others q differs) ∙ h)
]

write-keeps :
    (before after : Str → Option Str) (p c : Str) (result : Result (Unit {0})) (q d : Str)
    → IsWrite before after p c result
    → before q ≡ some d
    → (e : Str) × (after q ≡ some e)
write-keeps before after p c result q d (others, this) h = elim (Bool-cases (q == p)) [
  | inl e ↦
      let same = (eq_iff q p).0 e in
      elim this [
        | inl new ↦ (c, subst (λ x. after x ≡ some c) (sym same) new)
        | inr (old, failed_write) ↦ (d, ap after same ∙ old ∙ sym (ap before same) ∙ h)
      ]
  | inr e ↦
      let differs : q ≢ p = λ same. let t = (eq_iff q p).1 same in cc in (d, others q differs ∙ h)
]

write-done :
    (before after : Str → Option Str) (p c : Str) (result : Result (Unit {0}))
    → IsWrite before after p c result
    → result ≡ ok tt
    → (d : Str) × (after p ≡ some d)
write-done before after p c result (others, inl new) h = (c, new)
write-done before after p c result (others, inr (old, failed_write)) h = absurd (failed_write h)

-- What a store does that first asks whether there is a content, and writes only if there is none: the
-- write, or nothing, and that with success only if there is a content.
abbrev IsInsert : (Str → Option Str) → (Str → Option Str) → Str → Str → Result (Unit {0}) → Type 0
IsInsert before after p c result =
    IsWrite before after p c result
    ⊎ (((q : Str) → after q ≡ before q) × (result ≡ ok tt → (d : Str) × (before p ≡ some d)))

-- A store over such insertions, and over reading that changes nothing, keeps the contract, if
-- different ids have different places.
module _ {S : Type 0} (cas : Cas S) (path : ObjectId → Str) (content : S → Str → Option Str) where
  abbrev pub view_at : S → ObjectId → Option Str
  view_at s id = content s (path id)

  inserts-IsStore :
      ((a b : ObjectId) → path a ≡ path b → a ≡ b)
      → ((id : ObjectId) (q : Str) (s : S) → content (cas.get_object id s).1 q ≡ content s q)
      → ((id : ObjectId) (s : S) (c : Str)
          → (cas.get_object id s).0 ≡ found c
          → content s (path id) ≡ some c)
      → ((id : ObjectId) (c t : Str) (s : S)
          → IsInsert
              (content s)
              (content (cas.insert_object id c t s).1)
              (path id)
              c
              (cas.insert_object id c t s).0.result)
      → IsStore cas view_at
  inserts-IsStore distinct keeps gets inserts = record {
    get_keeps = λ id k s. keeps id (path k) s;
    get_found = gets;
    insert_adds = λ id k c t d s h. elim (inserts id c t s) [
      | inl write ↦ elim (write-adds _ _ (path id) c _ (path k) d write h) [
        | inl old ↦ inl old
        | inr (place, new) ↦ inr (distinct k id place, new)
      ]
      | inr (same, there) ↦ inl (sym (same (path k)) ∙ h)
    ];
    insert_keeps = λ id k c t d s h. elim (inserts id c t s) [
      | inl write ↦ write-keeps _ _ (path id) c _ (path k) d write h
      | inr (same, there) ↦ (d, same (path k) ∙ h)
    ];
    insert_done = λ id c t s h. elim (inserts id c t s) [
      | inl write ↦ write-done _ _ (path id) c _ write h
      | inr (same, there) ↦ let (d, e) = there h in (d, same (path id) ∙ e)
    ];
  }

file_store-inserts :
    {S : Type 0} (fs : FileSystem S) (path : ObjectId → Str) (content : S → Str → Option Str)
    → IsFileSystem fs content
    → (id : ObjectId) (c : Str) (s : S) (answer : Result Bool) (s' : S)
    → fs.exists (path id) s ≡ (answer, s')
    → IsInsert
        (content s)
        (content (file_insert_checked fs path id c (answer, s')).1)
        (path id)
        c
        (file_insert_checked fs path id c (answer, s')).0.result
file_store-inserts fs path content files id c s (ok true) s' e = inr (
  λ q. ap (λ p. content p.1 q) (sym e) ∙ files.exists_keeps (path id) q s,
  λ h. files.exists_true (path id) s (ap (λ p. p.0) e),
)
file_store-inserts fs path content files id c s (ok false) s' e =
    let same : (q : Str) → content s' q ≡ content s q =
      λ q. ap (λ p. content p.1 q) (sym e) ∙ files.exists_keeps (path id) q s in
    inl (
      λ q differs. files.write_others (path id) q c s' differs ∙ same q,
      elim (files.write_this (path id) c s') [
        | inl new ↦ inl new
        | inr (old, failed_write) ↦ inr (old ∙ same (path id), failed_write)
      ],
    )
file_store-inserts fs path content files id c s (err message) s' e =
    inr (λ q. ap (λ p. content p.1 q) (sym e) ∙ files.exists_keeps (path id) q s, λ h. cc)
file_store-inserts fs path content files id c s panic s' e =
    inr (λ q. ap (λ p. content p.1 q) (sym e) ∙ files.exists_keeps (path id) q s, λ h. cc)

-- What is documented of S3: reading and asking change nothing, an object that is read or that is
-- there has its content, "NotFound" is the answer for an object that is not there, and putting an
-- object changes no other one and, unless it fails without a change, gives it the content.
pub record IsS3 {S : Type 0} (client : S3Client S) (content : S → Str → Option Str) : Type 0 where
  pub get_keeps : (p q : Str) (s : S) → content (client.get p s).1 q ≡ content s q
  pub get_found : (p : Str) (s : S) (c : Str) → (client.get p s).0 ≡ found c → content s p ≡ some c
  pub head_keeps : (p q : Str) (s : S) → content (client.head p s).1 q ≡ content s q
  pub head_there :
      (p : Str) (s : S) → (client.head p s).0 ≡ is_there → (c : Str) × (content s p ≡ some c)
  pub put_writes :
      (p c t : Str) (s : S)
      → IsWrite (content s) (content (client.put p c t s).1) p c (client.put p c t s).0

s3_storage-inserts :
    {S : Type 0} (client : S3Client S) (path : ObjectId → Str) (content : S → Str → Option Str)
    → IsS3 client content
    → (id : ObjectId) (c t : Str) (s : S) (answer : HeadAnswer) (s' : S)
    → client.head (path id) s ≡ (answer, s')
    → IsInsert
        (content s)
        (content (s3_insert_checked client path id c t (exists_of answer, s')).1)
        (path id)
        c
        (s3_insert_checked client path id c t (exists_of answer, s')).0.result
s3_storage-inserts client path content s3 id c t s answer s' e =
    go answer (exists_of answer) refl (ap (λ p. p.0) e)
  where
    same : (q : Str) → content s' q ≡ content s q
    same q = ap (λ p. content p.1 q) (sym e) ∙ s3.head_keeps (path id) q s

    there : (a : HeadAnswer) → exists_of a ≡ ok true → a ≡ is_there
    there is_there h = refl
    there (api_error code message) h = elim (Bool-cases (code == bytes "NotFound")) [
      | inl f ↦ let h' = rw f at h in let k = ap (λ r. r) h' in cc
      | inr f ↦ let h' = rw f at h in cc
    ]
    there (head_failed message) h = cc

    go :
        (a : HeadAnswer) (exists : Result Bool)
        → exists_of a ≡ exists
        → (client.head (path id) s).0 ≡ a
        → IsInsert
            (content s)
            (content (s3_insert_checked client path id c t (exists, s')).1)
            (path id)
            c
            (s3_insert_checked client path id c t (exists, s')).0.result
    go a (ok true) is head = inr (same, λ h. s3.head_there (path id) s (head ∙ there a is))
    go a (ok false) is head =
        let (others, this) = s3.put_writes (path id) c t s' in
        inl (
          λ q differs. others q differs ∙ same q,
          elim this [
            | inl new ↦ inl new
            | inr (old, failed_write) ↦ inr (old ∙ same (path id), failed_write)
          ],
        )
    go a (err message) is head = inr (same, λ h. cc)
    go a panic is head = inr (same, λ h. cc)

-- The stores in memory, on files and on S3 keep the contract of the interface, if the file system and
-- S3 do what is documented and different ids have different paths. And the store on files does not
-- read the content that it is given if there is already one under the id.
pub stores-IsStore :
    {F S : Type 0} (fs : FileSystem F) (files : F → Str → Option Str) (client : S3Client S)
    (objects : S → Str → Option Str) (path key : ObjectId → Str)
    → IsFileSystem fs files
    → IsS3 client objects
    → ((a b : ObjectId) → path a ≡ path b → a ≡ b)
    → ((a b : ObjectId) → key a ≡ key b → a ≡ b)
    → IsStore in_memory_store in_memory_view
      × IsStore (file_store fs path) (λ s id. files s (path id))
      × IsStore (s3_storage client key) (λ s id. objects s (key id))
      × ((id : ObjectId) (c t : Str) (s : F)
          → (fs.exists (path id) s).0 ≡ ok true
          → ((file_store fs path).insert_object id c t s).0 ≡ not_read (ok tt))
unfolding file_store s3_storage s3_exists
stores-IsStore {F = F} fs files client objects path key is_fs is_s3 distinct distinct_keys = (
  in_memory_store-IsStore,
  inserts-IsStore (file_store fs path) path files distinct
      (λ id q s. is_fs.open_keeps (path id) q s) (λ id s c. is_fs.open_found (path id) s c)
      (λ id c t s. file_store-inserts fs path files is_fs id c s _ _ refl),
  inserts-IsStore (s3_storage client key) key objects distinct_keys
      (λ id q s. is_s3.get_keeps (key id) q s) (λ id s c. is_s3.get_found (key id) s c)
      (λ id c t s. s3_storage-inserts client key objects is_s3 id c t s _ _ refl),
  λ id c t s h. checked id c (fs.exists (path id) s) h,
)
  where
    checked :
        (id : ObjectId) (c : Str) (r : Result Bool × F)
        → r.0 ≡ ok true
        → (file_insert_checked fs path id c r).0 ≡ not_read (ok tt)
    checked id c (ok true, s) h = refl
    checked id c (ok false, s) h = cc
    checked id c (err message, s) h = cc
    checked id c (panic, s) h = cc
