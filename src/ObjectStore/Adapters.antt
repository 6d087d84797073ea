-- ===== src/ObjectStore/Adapters.antt =====
-- src/flagship_lab/object_store.py: the protocol of a store, the local store behind it, and the
-- adapter of S3. The client of S3 and the arithmetic of dates are parameters.
use flagship_lab.Objects.{StoredObject, Version}
use flagship_lab.Prelude.Text.{starts_with, ◌<>◌, count}
use flagship_lab.Core.{utc_now}
use flagship_lab.Tx.{Tx, Env, ◌>>=◌, lift, ◌>>◌, raise_if}
use flagship_lab.Result.{Result, ok, ◌>=>◌, err, runtime_error, value_error}
use flagship_lab.ObjectStore.{
  get_version, safe_key, put_immutable, checked, strip_right, strip_left,
}
use flagship_lab.Prelude.{
  String, Option, none, some, if◌then◌else◌, ℕ, List, ◌==◌, select, ◌∷◌, ltb, [],
}

-- The protocol `ObjectStore`: key, data, content type and days of retention; key and version.
pub record ObjectStore : Type 0 where
  pub put : String → String → String → ℕ → Tx StoredObject
  pub get : String → Option String → Tx String

-- `matches = sorted(path.parent.glob(f"{path.name}.*"))`, less the metadata: the versions of a key.
unfoldable pub versions_of : String → List Version → List Version
unfolding starts_with
versions_of key files = select (λ v. starts_with (key <> ".") v.path) files

abbrev only_version : List Version → Result Version
only_version [] = err (runtime_error "FileNotFoundError")
only_version (v ∷ []) = ok v
only_version (v ∷ u ∷ rest) = err (runtime_error "FileNotFoundError")

-- `get` of the local store, of a version or of the only one.
unfoldable pub local_get : Env → String → Option String → List Version → Result String
unfolding versions_of get_version safe_key
local_get env key none files =
    safe_key key >=> λ safe. only_version (versions_of safe files) >=> λ v. checked env v
local_get env key (some version_id) files = get_version env key version_id files

abbrev put_files : Result (StoredObject × List Version) → Tx StoredObject
put_files (ok (stored, files)) w = (ok stored, record w { objects = files })
put_files (err e) w = (err e, w)

-- `LocalWormObjectStore`: `plus_days` adds the retention to a reading of the clock, which the model
-- takes for a version that exists too.
unfoldable pub local_store : Env → (String → ℕ → String) → ObjectStore
unfolding utc_now put_immutable local_get
local_store env plus_days = record {
  put = λ key contents content_type days. do
    now ← utc_now env
    λ w. put_files (put_immutable env key contents days (plus_days now days) w.objects) w;
  get = λ key version_id w. (local_get env key version_id w.objects, w);
}

-- The two calls of the S3 client: the bucket, key, body, type, checksum, end of the retention and
-- digest of an object, which return the id of its version; and the body with its stored digest.
pub record S3Client : Type 0 where
  pub put_object : String → String → String → String → String → String → String → Tx (Option String)
  pub get_object : String → String → Option String → Tx (String × Option String)
  -- `base64_sha256`
  pub base64_sha256 : String → String

pub record S3ObjectLockStore : Type 0 where
  pub bucket : String
  pub prefix : String

unfoldable pub new_s3_store : String → String → S3ObjectLockStore
new_s3_store bucket prefix = record { bucket = bucket; prefix = strip_right (strip_left prefix) }

unfoldable pub s3_key : S3ObjectLockStore → String → Result String
unfolding safe_key
s3_key store key =
    safe_key key >=> λ safe. ok (if store.prefix == "" then safe else store.prefix <> "/" <> safe)

-- `not version_id`: absent or empty.
abbrev pub given : Option String → Option String
given none = none
given (some v) = if v == "" then none else some v

abbrev pub versioned : Env → String → String → String → Option String → Result StoredObject
versioned env key contents retain_until none =
    err (runtime_error "S3 Object Lock store must return a version id")
versioned env key contents retain_until (some version_id) = safe_key key >=> λ safe. ok (record {
  key = safe;
  version_id = version_id;
  sha256 = env.sha256_text contents;
  size = count contents;
  retain_until = retain_until;
})

unfoldable pub s3_put :
    Env
    → (String → ℕ → String)
    → S3Client
    → S3ObjectLockStore
    → String
    → String
    → String
    → ℕ
    → Tx StoredObject
unfolding utc_now s3_key safe_key
s3_put env plus_days client store key contents content_type days = do
  raise_if (ltb days 1) (value_error "retention_days must be positive")
  now ← utc_now env
  let retain_until = plus_days now days
  path ← lift (s3_key store key)
  version_id ←
      client.put_object store.bucket path contents content_type (client.base64_sha256 contents)
        retain_until (env.sha256_text contents)
  lift (versioned env key contents retain_until (given version_id))

abbrev pub s3_checked : Env → String × Option String → Result String
s3_checked env (contents, expected) = elim (given expected) [
  | none ↦ ok contents
  | some digest ↦
      if env.sha256_text contents == digest
      then ok contents
      else err (value_error "stored object integrity check failed")
]

unfoldable pub s3_get : Env → S3Client → S3ObjectLockStore → String → Option String → Tx String
unfolding s3_key
s3_get env client store key version_id = do
  path ← lift (s3_key store key)
  response ← client.get_object store.bucket path (given version_id)
  lift (s3_checked env response)

unfoldable pub s3_store : Env → (String → ℕ → String) → S3Client → S3ObjectLockStore → ObjectStore
unfolding s3_put s3_get
s3_store env plus_days client store = record {
  put = s3_put env plus_days client store;
  get = s3_get env client store;
}
