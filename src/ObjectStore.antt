-- ===== src/ObjectStore.antt =====
-- src/flagship_lab/object_store.py: keys, and the local store of objects that are written once. The
-- files of the store are an association list from a path to an object with its metadata; the data
-- of an object is a text, its digest the parameter `sha256_text`, and the resolved path of a key is
-- the key itself, since a safe key has no `.` or `..` and the store has no symbolic links.
pub mod Adapters
pub mod WriteOnce
use flagship_lab.Objects.{Version, StoredObject}
use Prim.Native.Char.{code}
use flagship_lab.Prelude.Text.{◌<>◌, count}
use flagship_lab.Result.{Result, err, ok, runtime_error, value_error}
use flagship_lab.Prelude.{
  any, String, ℕ, if◌then◌else◌, Bool, List, ◌==◌, Option, ltb, not, eqb, ◌∷◌, [], ◌&&◌, ◌||◌, ◌++◌,
  none, some,
}
use flagship_lab.Tx.{Env}
use flagship_lab.Result.{◌>=>◌}

-- `key.replace("\\", "/")`
abbrev forward : String → String
forward String.[] = ""
forward (String.◌∷◌ c s) =
    let rest = forward s in if eqb (code c) 92 then String.◌∷◌ "/" rest else String.◌∷◌ c rest

abbrev pub strip_left : String → String
strip_left String.[] = ""
strip_left (String.◌∷◌ c s) = if eqb (code c) b'/' then strip_left s else String.◌∷◌ c s

abbrev pub strip_right : String → String
strip_right String.[] = ""
strip_right (String.◌∷◌ c s) =
    let rest = strip_right s in if rest == "" && eqb (code c) b'/' then "" else String.◌∷◌ c rest

-- `normalized.split("/")`, with the part that is being read.
abbrev split_parts : String → String → List String
split_parts part String.[] = part ∷ []
split_parts part (String.◌∷◌ c s) =
    if eqb (code c) b'/' then part ∷ split_parts "" s else split_parts (part <> String.◌∷◌ c "") s

abbrev pub bad_part : String → Bool
bad_part p = p == "" || p == "." || p == ".."

abbrev pub normalized_key : String → String
normalized_key key = strip_right (strip_left (forward key))

abbrev pub parts_of : String → List String
parts_of key = split_parts "" key

unfoldable pub safe_key : String → Result String
unfolding any
safe_key key =
    let normalized = normalized_key key in
    if normalized == "" || any bad_part (parts_of normalized)
    then err (value_error "invalid object key")
    else ok normalized

unfoldable pub version_at : String → List Version → Option Version
version_at path [] = none
version_at path (v ∷ vs) = if v.path == path then some v else version_at path vs

abbrev version_path : String → String → String
version_path key version_id = key <> "." <> version_id

abbrev pub create_version :
    Env → String → String → String → List Version → StoredObject × List Version
create_version env key contents retain_until files =
    let digest = env.sha256_text contents in
    let stored : StoredObject = record {
      key = key;
      version_id = digest;
      sha256 = digest;
      size = count contents;
      retain_until = retain_until;
    } in
    (
      stored,
      files
          ++ record { path = version_path key digest; contents = contents; metadata = stored } ∷ [],
    )

abbrev pub existing_version :
    Env → String → List Version → Version → Result (StoredObject × List Version)
existing_version env contents files v =
    if not (env.sha256_text v.contents == env.sha256_text contents)
    then err (value_error "immutable object collision")
    else ok (v.metadata, files)

-- `put_immutable`, where `retain_until` is the end of the retention that the clock gives.
unfoldable pub put_immutable :
    Env → String → String → ℕ → String → List Version → Result (StoredObject × List Version)
unfolding safe_key version_at
put_immutable env key contents retention_days retain_until files =
    if ltb retention_days 1
    then err (value_error "retention_days must be positive")
    else (safe_key key >=> λ safe.
        elim (version_at (version_path safe (env.sha256_text contents)) files) [
          | some v ↦ existing_version env contents files v
          | none ↦ ok (create_version env safe contents retain_until files)
        ])

abbrev pub checked : Env → Version → Result String
checked env v =
    if env.sha256_text v.contents == v.metadata.sha256
    then ok v.contents
    else err (value_error "stored object integrity check failed")

abbrev pub read_version : Env → Option Version → Result String
read_version env none = err (runtime_error "FileNotFoundError")
read_version env (some v) = checked env v

-- `get` of a version that is named.
unfoldable pub get_version : Env → String → String → List Version → Result String
unfolding safe_key version_at
get_version env key version_id files =
    safe_key key >=> λ safe. read_version env (version_at (version_path safe version_id) files)
