-- ===== src/Turbocharger/Manifest.antt =====
-- pkg/turbocharger/types.go and manifesthandler.go: manifests, the files that they name, and what the
-- handler takes from outside of the repository.
pub mod State
pub mod Caches
pub mod Resolve
pub mod Serve
pub mod Coherent
pub mod Bodies
pub mod Filled
pub mod Fetched
pub mod Resolved
pub mod Answers
pub mod Hits
pub mod Available
pub mod Located
pub mod Delivered
pub mod Blocking
use edgerouter.Base.{
  ℕ, Str, bytes, ◌==◌, contains, Bool, true, false, not, ◌&&◌, ◌||◌, List, [], ◌∷◌, ◌++◌, Option,
  none, some, Result, ok, err, eqb, if◌then◌else◌,
}
use edgerouter.Base.Dict.{Dict, lookup, insert}
use edgerouter.Config.Validate.{is_empty}
use edgerouter.Turbocharger.Ids.{ObjectId}

-- The struct Path.
pub record FilePath : Type 0 where
  pub path : Str
  pub content_id : ObjectId

pub record ManifestMetadata : Type 0 where
  pub project : Str
  pub deployed : ℕ

pub record Manifest : Type 0 where
  pub metadata : ManifestMetadata
  pub files : List FilePath

-- optimizedManifest
abbrev pub OptimizedManifest : Type 0
OptimizedManifest = Dict FilePath

abbrev pub insert_files : List FilePath → OptimizedManifest → OptimizedManifest
insert_files [] files = files
insert_files (file ∷ more) files = insert_files more (insert file.path file files)

unfoldable pub optimize_manifest : Manifest → OptimizedManifest
optimize_manifest manifest = insert_files manifest.files []

-- path.Ext, which is filepath.Ext where the separator is a slash: the suffix from the last dot of the
-- last element.
abbrev pub has_byte : ℕ → Str → Bool
has_byte b [] = false
has_byte b (c ∷ s) = eqb c b || has_byte b s

unfoldable pub ext : Str → Str
ext [] = []
ext (c ∷ s) =
    let rest = ext s in
    if not (is_empty rest) then rest else if eqb c b'.' && not (has_byte b'/' s) then c ∷ s else []

abbrev pub is_one_of : Str → List Str → Bool
is_one_of s [] = false
is_one_of s (t ∷ ts) = s == t || is_one_of s ts

unfoldable pub is_expected_to_compress_well : Str → Bool
unfolding ext
is_expected_to_compress_well key = is_one_of (ext key) (
    bytes ".js"
    ∷ bytes ".map"
    ∷ bytes ".css"
    ∷ bytes ".html"
    ∷ bytes ".json"
    ∷ bytes ".xml"
    ∷ bytes ".svg"
    ∷ bytes ".txt"
    ∷ [])

-- What is read of a request for a file: an absent header is the empty text.
pub record FileRequest : Type 0 where
  pub path : Str
  pub if_none_match : Str
  pub accept_encoding : Str

unfoldable pub client_supports_gzip : FileRequest → Bool
client_supports_gzip r = contains r.accept_encoding (bytes "gzip")

-- compress/gzip (the reader gives what can be read, and how reading ends), package mime, and
-- DecodeManifest by its call of encoding/json.
pub record Codecs : Type 0 where
  pub gzip : Str → Str
  pub gzip_reader : Str → Result (Result (Unit {0}) × Str)
  pub mime_type_by_extension : Str → Str
  pub decode_manifest : Str → Result Manifest

abbrev pub or_octet_stream : Str → Str
or_octet_stream content_type =
    if is_empty content_type then bytes "application/octet-stream" else content_type

-- What is written to the client.
pub record Sent : Type 0 where
  pub status : ℕ
  pub content_type : Str
  pub content_encoding : Option Str
  pub etag : Str
  pub body : Str

pub data Reply : Type 0 where
  nothing not_found_page not_modified : Reply
  internal_server_error : (message : Str) → Reply
  sent : Sent → Reply
