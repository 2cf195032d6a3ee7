-- ===== src/Turbocharger/Store.antt =====
-- pkg/turbocharger/types.go (the interface CAS), store-inmemory.go, store-localfs.go and store-s3.go:
-- the stores of contents by their ids.
pub mod Contract
pub mod Remote
use edgerouter.Base.{
  ℕ, suc, Str, bytes, ◌==◌, Bool, true, false, List, [], ◌∷◌, ◌++◌, Option, none, some, Result, ok,
  err, panic, if◌then◌else◌,
}
use edgerouter.Base.Dict.{Dict, lookup, insert}
use edgerouter.Turbocharger.Ids.{ObjectId}

-- The errors of reading, by what callers ask of them: fs.ErrNotExist itself, an error that wraps it,
-- and any other.
pub data ReadError : Type 0 where
  not_exist : ReadError
  wraps_not_exist other_error : (message : Str) → ReadError

abbrev pub error_text : ReadError → Str
error_text not_exist = bytes "file does not exist"
error_text (wraps_not_exist message) = message
error_text (other_error message) = message

pub data Got : Type 0 where
  found : (content : Str) → Got
  failed : ReadError → Got

-- What an insertion returns, and whether it read the content to its end: the content is a reader.
pub record Inserted : Type 0 where
  pub result : Result (Unit {0})
  pub consumed : Bool

-- What is read of a content whose reader fails: the bytes before the error, and the error.
abbrev pub BrokenRead : Type 0
BrokenRead = Str × Str

-- The interface CAS, over the state `S` of the store. `get_object` gives the content that its reader
-- stands for, and `read_error` says whether reading it to the end then fails.
pub record Cas (S : Type 0) : Type 0 where
  pub get_object : ObjectId → S → Got × S
  pub read_error : ObjectId → S → Option BrokenRead
  pub insert_object : ObjectId → (content content_type : Str) → S → Inserted × S

pub record InMemoryStore : Type 0 where
  pub files : Dict Str
  pub gets : ℕ
  pub puts : ℕ

abbrev pub new_in_memory_store : InMemoryStore
new_in_memory_store = record { files = []; gets = 0; puts = 0 }

abbrev pub got_of : Option Str → Got
got_of none = failed not_exist
got_of (some buf) = found buf

unfoldable pub in_memory_store : Cas InMemoryStore
in_memory_store = record {
  get_object = λ id d. (got_of (lookup id d.files), record d { gets = suc d.gets });
  read_error = λ id d. none;
  insert_object = λ id content content_type d. (
    record { result = ok tt; consumed = true },
    record d { files = insert id content d.files; puts = suc d.puts },
  );
}

-- What the file store takes of the operating system: os.Open, fileexists.Exists and
-- atomicfilewrite.Write, over the state `S` of the file system.
pub record FileSystem (S : Type 0) : Type 0 where
  pub open_file : Str → S → Got × S
  pub file_error : Str → S → Option BrokenRead
  pub exists : Str → S → Result Bool × S
  pub write_atomic : Str → (content : Str) → S → Inserted × S

abbrev pub not_read : Result (Unit {0}) → Inserted
not_read result = record { result = result; consumed = false }

module _ {S : Type 0} (fs : FileSystem S) (path : ObjectId → Str) where
  abbrev pub file_insert_checked : ObjectId → Str → Result Bool × S → Inserted × S
  file_insert_checked id content (ok true, s) = (not_read (ok tt), s)
  file_insert_checked id content (ok false, s) = fs.write_atomic (path id) content s
  file_insert_checked id content (err message, s) = (not_read (err message), s)
  file_insert_checked id content (panic, s) = (not_read panic, s)

  -- fileStore; `path` is its method, filepath.Join of the directory and the id's text.
  unfoldable pub file_store : Cas S
  file_store = record {
    get_object = λ id s. fs.open_file (path id) s;
    read_error = λ id s. fs.file_error (path id) s;
    insert_object =
        λ id content content_type s. file_insert_checked id content (fs.exists (path id) s);
  }

-- What S3 answers to a HEAD request.
pub data HeadAnswer : Type 0 where
  is_there : HeadAnswer
  api_error : (code message : Str) → HeadAnswer
  head_failed : (message : Str) → HeadAnswer

-- The calls of the S3 client for the store's bucket.
pub record S3Client (S : Type 0) : Type 0 where
  pub get : (key : Str) → S → Got × S
  pub body_error : (key : Str) → S → Option BrokenRead
  pub head : (key : Str) → S → HeadAnswer × S
  pub put : (key body content_type : Str) → S → Result (Unit {0}) × S

abbrev pub exists_of : HeadAnswer → Result Bool
exists_of is_there = ok true
exists_of (api_error code message) =
    if code == bytes "NotFound" then ok false else err (bytes "exists: " ++ message)
exists_of (head_failed message) = err (bytes "exists: " ++ message)

abbrev pub buffered : {S : Type 0} → Result (Unit {0}) × S → Inserted × S
buffered (result, s) = (record { result = result; consumed = true }, s)

module _ {S : Type 0} (client : S3Client S) (path : ObjectId → Str) where
  unfoldable pub s3_exists : ObjectId → S → Result Bool × S
  s3_exists id s = let (answer, s') = client.head (path id) s in (exists_of answer, s')

  abbrev pub s3_insert_checked :
      ObjectId → (content content_type : Str) → Result Bool × S → Inserted × S
  s3_insert_checked id content content_type (ok true, s) = (not_read (ok tt), s)
  s3_insert_checked id content content_type (ok false, s) =
      buffered (client.put (path id) content content_type s)
  s3_insert_checked id content content_type (err message, s) = (not_read (err message), s)
  s3_insert_checked id content content_type (panic, s) = (not_read panic, s)

  -- s3Storage; `path` is its method, the prefix followed by the id's text.
  unfoldable pub s3_storage : Cas S
  unfolding s3_exists
  s3_storage = record {
    get_object = λ id s. client.get (path id) s;
    read_error = λ id s. client.body_error (path id) s;
    insert_object =
        λ id content content_type s. s3_insert_checked id content content_type (s3_exists id s);
  }
