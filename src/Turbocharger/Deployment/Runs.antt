-- ===== src/Turbocharger/Deployment/Runs.antt =====
-- pkg/turbocharger/deployment.go: what the steps of the workers keep.
use edgerouter.Base.{
  ◌≡◌, sym, ap, ◌∙◌, subst, Str, List, [], ◌∷◌, ◌++◌, map, append-nil, append_assoc, map-append,
  Option, some, ok, and_then-eq-ok, ok-injective, All, All_imp,
}
use edgerouter.Turbocharger.Ids.{ObjectId}
use edgerouter.Turbocharger.Store.{Cas}
use edgerouter.Turbocharger.Store.Contract.{IsStore}
use edgerouter.Turbocharger.Manifest.{FilePath, ext, or_octet_stream}
use edgerouter.Turbocharger.Manifest.Coherent.{Holds, insert_object-Holds}
use edgerouter.Turbocharger.Deployment.{
  FileToDeploy, Deploying, path_of, upload, Step, submitted, inserted, noted, Steps, done, next,
  upload_all, after_upload,
}
use mathlib.Core.List.Permᴰ
use mathlib.Core.List.{Permᴰ}

remove-All :
    {A : Type 0} (P : A → Type 0) (front : List A) (x : A) (back : List A)
    → All P (front ++ x ∷ back)
    → P x × All P (front ++ back)
remove-All P [] x back h = h
remove-All P (y ∷ front) x back h =
    let (p, rest) = remove-All P front x back h.1 in (p, (h.0, rest))

module _ {S : Type 0} (sha256 : Str → ObjectId) (mime_type_by_extension : Str → Str) (files : Cas S)
    (view : S → ObjectId → Option Str) (store : IsStore files view) (content : ObjectId → Str) where
  abbrev pub paths : List FileToDeploy → List FilePath
  paths l = map (path_of sha256) l

  -- All files, wherever they are.
  abbrev pub total : Deploying S → List FilePath
  total d = d.files ++ (d.uploaded ++ (paths d.received ++ paths d.source))

  Step-total :
      (d e : Deploying S) → Step sha256 mime_type_by_extension files d e → Permᴰ (total d) (total e)
  Step-total d e (submitted file rest is free) =
      subst (λ l. Permᴰ (d.files ++ (d.uploaded ++ (paths d.received ++ paths l))) (total e))
        (sym is)
        (Permᴰ.append_left d.files (
          Permᴰ.append_left d.uploaded
            (Permᴰ.middle (path_of sha256 file) (paths d.received) (paths rest))))
  Step-total d e (inserted front back file is did succeeded) =
      let p = path_of sha256 file in
      let Q = paths d.source in
      subst
        (λ l.
          Permᴰ (d.files ++ (d.uploaded ++ (l ++ Q)))
            (d.files ++ ((p ∷ d.uploaded) ++ (paths (front ++ back) ++ Q))))
        (sym (ap paths is ∙ map-append (path_of sha256) front (file ∷ back)))
        (subst
          (λ l.
            Permᴰ (d.files ++ (d.uploaded ++ ((paths front ++ p ∷ paths back) ++ Q)))
              (d.files ++ ((p ∷ d.uploaded) ++ (l ++ Q))))
          (sym (map-append (path_of sha256) front back))
          (Permᴰ.append_left d.files (
            Permᴰ.trans
              (Permᴰ.append_left d.uploaded
                (Permᴰ.append_right Q (Permᴰ.middle p (paths front) (paths back))))
              (Permᴰ.middle p d.uploaded ((paths front ++ paths back) ++ Q)))))
  Step-total d e (noted front back file is) =
      let X = paths d.received ++ paths d.source in
      subst (λ l. Permᴰ (d.files ++ (l ++ X)) (total e)) (sym is)
        (subst (λ l. Permᴰ (d.files ++ ((front ++ file ∷ back) ++ X)) l)
          (sym (append_assoc d.files (file ∷ []) ((front ++ back) ++ X)))
          (Permᴰ.append_left d.files (Permᴰ.append_right X (Permᴰ.middle file front back))))

  pub Steps-total :
      (d e : Deploying S)
      → Steps sha256 mime_type_by_extension files d e
      → Permᴰ (total d) (total e)
  Steps-total d e done = Permᴰ.refl (total d)
  Steps-total d e (next {e = c} step steps) =
      Permᴰ.trans (Step-total d c step) (Steps-total c e steps)

  -- The id of the file names its content.
  abbrev pub IsNamed : FileToDeploy → Type 0
  IsNamed file = content (sha256 file.content) ≡ file.content

  abbrev pub IsThere : S → FilePath → Type 0
  IsThere s p = (c : Str) × (view s p.content_id ≡ some c)

  pub record IsStored (d : Deploying S) : Type 0 where
    pub holds : Holds view content d.store
    pub named_received : All IsNamed d.received
    pub named_source : All IsNamed d.source
    pub there_uploaded : All (IsThere d.store) d.uploaded
    pub there_files : All (IsThere d.store) d.files

  append-All :
      (P : FilePath → Type 0) (xs : List FilePath) (x : FilePath)
      → All P xs
      → P x
      → All P (xs ++ x ∷ [])
  append-All P [] x h p = (p, tt)
  append-All P (y ∷ xs) x h p = (h.0, append-All P xs x h.1 p)

  Step-IsStored :
      (d e : Deploying S) → Step sha256 mime_type_by_extension files d e → IsStored d → IsStored e
  Step-IsStored d e (submitted file rest is free) i =
      let source = subst (All IsNamed) is i.named_source in
      record {
        holds = i.holds;
        named_received = (source.0, i.named_received);
        named_source = source.1;
        there_uploaded = i.there_uploaded;
        there_files = i.there_files;
      }
  Step-IsStored d e (inserted front back file {s = s} {result = result} is did succeeded) i =
      let (named, others) =
        remove-All IsNamed front file back (subst (All IsNamed) is i.named_received) in
      let id = sha256 file.content in
      let type = or_octet_stream (mime_type_by_extension (ext file.path)) in
      let is_s : (files.insert_object id file.content type d.store).1 ≡ s = ap (λ p. p.1) did in
      let is_result : (files.insert_object id file.content type d.store).0.result ≡ ok tt =
        ap (λ p. p.0.result) did ∙ succeeded in
      let kept : (p : FilePath) → IsThere d.store p → IsThere s p = λ p (c, h).
        subst (λ t. IsThere t p) is_s
          (store.insert_keeps id p.content_id file.content type c d.store h) in
      record {
        holds = subst (Holds view content) is_s (
            insert_object-Holds files view store content id file.content type d.store (sym named)
              i.holds);
        named_received = others;
        named_source = i.named_source;
        there_uploaded = (
          subst (λ t. IsThere t (path_of sha256 file)) is_s
              (store.insert_done id file.content type d.store is_result),
          All_imp _ _ d.uploaded kept i.there_uploaded,
        );
        there_files = All_imp _ _ d.files kept i.there_files;
      }
  Step-IsStored d e (noted front back file is) i =
      let (there, others) =
        remove-All (IsThere d.store) front file back
          (subst (All (IsThere d.store)) is i.there_uploaded) in
      record {
        holds = i.holds;
        named_received = i.named_received;
        named_source = i.named_source;
        there_uploaded = others;
        there_files = append-All (IsThere d.store) d.files file i.there_files there;
      }

  pub Steps-IsStored :
      (d e : Deploying S) → Steps sha256 mime_type_by_extension files d e → IsStored d → IsStored e
  Steps-IsStored d e done i = i
  Steps-IsStored d e (next {e = c} step steps) i =
      Steps-IsStored c e steps (Step-IsStored d c step i)

  pub upload_all-paths :
      (noted_files : List FilePath) (source : List FileToDeploy) (s : S) (out : List FilePath)
      (s' : S)
      → upload_all sha256 mime_type_by_extension files noted_files source s ≡ (ok out, s')
      → out ≡ noted_files ++ paths source
  unfolding upload_all
  upload_all-paths noted_files [] s out s' h =
      sym (ok-injective (ap (λ p. p.0) h)) ∙ sym (append-nil noted_files)
  upload_all-paths noted_files (file ∷ rest) s out s' h =
      let (u, t, now, later) =
        and_then-eq-ok
          (after_upload sha256 mime_type_by_extension files
            (upload sha256 mime_type_by_extension files file s))
          _ h in
      upload_all-paths (noted_files ++ path_of sha256 file ∷ []) rest t out s' later
      ∙ append_assoc noted_files (path_of sha256 file ∷ []) (paths rest)
