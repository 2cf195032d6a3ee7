-- ===== src/Turbocharger/Manifest/Coherent.antt =====
-- pkg/turbocharger/manifesthandler.go: the caches hold what the origins hold.
use edgerouter.Base.{
  ◌≡◌, sym, ap, ◌∙◌, subst, inl, inr, Str, ◌==◌, eq_iff, Option, some, ok, Bool-cases,
  if◌then◌else◌,
}
use edgerouter.Base.Dict.{Dict, lookup, insert, lookup-insert}
use edgerouter.Turbocharger.Ids.{ObjectId}
use edgerouter.Turbocharger.Store.{Cas, found}
use edgerouter.Turbocharger.Store.Contract.{IsStore}
use edgerouter.Turbocharger.Manifest.{Manifest, OptimizedManifest, optimize_manifest, Codecs}
use edgerouter.Turbocharger.Manifest.State.{HandlerState}

-- Under each id the store holds only this.
abbrev pub Holds : {S : Type 0} → (S → ObjectId → Option Str) → (ObjectId → Str) → S → Type 0
Holds view f s = (id : ObjectId) (c : Str) → view s id ≡ some c → c ≡ f id

module _ {S : Type 0} (cas : Cas S) (view : S → ObjectId → Option Str) (store : IsStore cas view)
    (f : ObjectId → Str) where
  pub get_object-Holds :
      (id : ObjectId) (s : S) → Holds view f s → Holds view f (cas.get_object id s).1
  get_object-Holds id s holds k c h = holds k c (sym (store.get_keeps id k s) ∙ h)

  pub insert_object-Holds :
      (id : ObjectId) (c t : Str) (s : S)
      → c ≡ f id
      → Holds view f s
      → Holds view f (cas.insert_object id c t s).1
  insert_object-Holds id c t s is holds k d h = elim (store.insert_adds id k c t d s h) [
    | inl old ↦ holds k d old
    | inr (same, new) ↦ new ∙ is ∙ ap f (sym same)
  ]

  pub found-is :
      (id : ObjectId) (s : S) (c : Str)
      → Holds view f s
      → (cas.get_object id s).0 ≡ found c
      → c ≡ f id
  found-is id s c holds h = holds id c (store.get_found id s c h)

-- What the documentation of compress/gzip says: reading what was compressed gives the content.
abbrev pub IsGzip : Codecs → Type 0
IsGzip codecs = (c : Str) → codecs.gzip_reader (codecs.gzip c) ≡ ok (ok tt, c)

-- Each manifest in memory is the one under its id.
abbrev pub IsDecoded : Codecs → (ObjectId → Str) → Dict OptimizedManifest → Type 0
IsDecoded codecs content manifests =
    (id : ObjectId) (o : OptimizedManifest)
    → lookup id manifests ≡ some o
    → (m : Manifest) × (codecs.decode_manifest (content id) ≡ ok m) × (o ≡ optimize_manifest m)

pub insert-IsDecoded :
    (codecs : Codecs) (content : ObjectId → Str) (id : ObjectId) (m : Manifest)
    (manifests : Dict OptimizedManifest)
    → codecs.decode_manifest (content id) ≡ ok m
    → IsDecoded codecs content manifests
    → IsDecoded codecs content (insert id (optimize_manifest m) manifests)
insert-IsDecoded codecs content id m manifests decoded all k o h =
    look (sym (lookup-insert id k (optimize_manifest m) manifests) ∙ h)
  where
    some-inj : {a b : OptimizedManifest} → some a ≡ some b → a ≡ b
    some-inj p = cc

    look :
        (if id == k then some (optimize_manifest m) else lookup k manifests) ≡ some o
        → (n : Manifest) × (codecs.decode_manifest (content k) ≡ ok n) × (o ≡ optimize_manifest n)
    look g = elim (Bool-cases (id == k)) [
      | inl e ↦
          let same = (eq_iff id k).0 e in
          (
            m,
            subst (λ x. codecs.decode_manifest (content x) ≡ ok m) same decoded,
            sym (some-inj (rw e at g)),
          )
      | inr e ↦ all k o (rw e at g)
    ]

module _ {O C : Type 0} (codecs : Codecs) (origin_view : O → ObjectId → Option Str)
    (cache_view : C → ObjectId → Option Str) (content : ObjectId → Str) where
  -- `content` is the content that each id names. The origins and the caches hold only that, the cache
  -- of compressed files in compressed form.
  pub record AreCoherent (os ms : O) (gs us : C) (optimized : Dict OptimizedManifest) : Type 0 where
    pub files : Holds origin_view content os
    pub manifests : Holds origin_view content ms
    pub gzipped : Holds cache_view (λ id. codecs.gzip (content id)) gs
    pub uncompressed : Holds cache_view content us
    pub ram : IsDecoded codecs content optimized

  abbrev pub IsCoherent : HandlerState O C → Type 0
  IsCoherent h = AreCoherent h.files h.manifests h.gzipped h.uncompressed h.cached_manifests

  module _ (h : HandlerState O C) (i : IsCoherent h) where
    pub with_files : (o : O) → Holds origin_view content o → IsCoherent (record h { files = o })
    with_files o holds = record {
      files = holds;
      manifests = i.manifests;
      gzipped = i.gzipped;
      uncompressed = i.uncompressed;
      ram = i.ram;
    }

    pub with_manifests :
        (o : O) → Holds origin_view content o → IsCoherent (record h { manifests = o })
    with_manifests o holds = record {
      files = i.files;
      manifests = holds;
      gzipped = i.gzipped;
      uncompressed = i.uncompressed;
      ram = i.ram;
    }

    pub with_gzipped :
        (c : C)
        → Holds cache_view (λ id. codecs.gzip (content id)) c
        → IsCoherent (record h { gzipped = c })
    with_gzipped c holds = record {
      files = i.files;
      manifests = i.manifests;
      gzipped = holds;
      uncompressed = i.uncompressed;
      ram = i.ram;
    }

    pub with_uncompressed :
        (c : C) → Holds cache_view content c → IsCoherent (record h { uncompressed = c })
    with_uncompressed c holds = record {
      files = i.files;
      manifests = i.manifests;
      gzipped = i.gzipped;
      uncompressed = holds;
      ram = i.ram;
    }

    pub with_ram :
        (manifests : Dict OptimizedManifest)
        → IsDecoded codecs content manifests
        → IsCoherent (record h { cached_manifests = manifests })
    with_ram manifests decoded = record {
      files = i.files;
      manifests = i.manifests;
      gzipped = i.gzipped;
      uncompressed = i.uncompressed;
      ram = decoded;
    }
