-- ===== src/ObjectStore/WriteOnce.antt =====
-- src/flagship_lab/object_store.py: what the local store keeps.
use flagship_lab.Prelude.Text.{count}
use flagship_lab.Result.{ok, bind-ok, bind-at}
use flagship_lab.Objects.{Version, StoredObject}
use flagship_lab.ObjectStore.{
  version_at, put_immutable, version_path, safe_key, create_version, get_version, existing_version,
}
use flagship_lab.Tx.{Env}
use flagship_lab.Prelude.{
  String, none, some, List, All, ◌==◌, ◌≡◌, ◌++◌, true, ◌∷◌, arith, Bool-cases, [], eq_iff, inl,
  inr, ℕ, eq_refl, refl, ltb, Option-cases, ap, ◌∙◌,
}

-- The metadata of every version holds the digest of its data.
abbrev pub IsIntactStore : Env → List Version → Type 0
IsIntactStore env files = All (λ v. (env.sha256_text v.contents == v.metadata.sha256) ≡ true) files

version_at-append :
    (path : String) (files more : List Version) {v : Version}
    → version_at path files ≡ some v
    → version_at path (files ++ more) ≡ some v
unfolding version_at
version_at-append path [] more h = absurd (ground arith)
version_at-append path (u ∷ us) more h = elim (Bool-cases (u.path == path)) [
  | inl here ↦ rw here (rw here at h)
  | inr there ↦ rw there (version_at-append path us more (rw there at h))
]

version_at-last :
    (path : String) (files : List Version) (v : Version)
    → version_at path files ≡ none
    → v.path ≡ path
    → version_at path (files ++ v ∷ []) ≡ some v
unfolding version_at
version_at-last path [] v h e = ground (arith, eq_iff v.path path)
version_at-last path (u ∷ us) v h e = elim (Bool-cases (u.path == path)) [
  | inl here ↦ absurd (ground (arith, rw here at h))
  | inr there ↦ rw there (version_at-last path us v (rw there at h) e)
]

version_at-IsIntactStore :
    (env : Env) (path : String) (files : List Version) {v : Version}
    → IsIntactStore env files
    → version_at path files ≡ some v
    → (env.sha256_text v.contents == v.metadata.sha256) ≡ true
unfolding version_at
version_at-IsIntactStore env path [] intact h = absurd (ground arith)
version_at-IsIntactStore env path (u ∷ us) intact h = elim (Bool-cases (u.path == path)) [
  | inl here ↦ ground (arith, rw here at h, intact.0)
  | inr there ↦ version_at-IsIntactStore env path us intact.1 (rw there at h)
]

append-IsIntactStore :
    (env : Env) (files : List Version) (v : Version)
    → IsIntactStore env files
    → (env.sha256_text v.contents == v.metadata.sha256) ≡ true
    → IsIntactStore env (files ++ v ∷ [])
append-IsIntactStore env [] v intact h = (h, tt)
append-IsIntactStore env (u ∷ us) v intact h = (intact.0, append-IsIntactStore env us v intact.1 h)

-- What a put that succeeds has done: it found a version of the same digest, or added one.
data IsPut (env : Env) (safe contents until : String) (files : List Version)
    (result : StoredObject × List Version) : Type 0 where
  found :
      (v : Version)
      → version_at (version_path safe (env.sha256_text contents)) files ≡ some v
      → (env.sha256_text v.contents == env.sha256_text contents) ≡ true
      → result ≡ (v.metadata, files)
      → IsPut env safe contents until files result
  created :
      version_at (version_path safe (env.sha256_text contents)) files ≡ none
      → result ≡ create_version env safe contents until files
      → IsPut env safe contents until files result

put_immutable-IsPut :
    (env : Env) (key contents : String) (days : ℕ) (until : String) (files : List Version)
    (result : StoredObject × List Version)
    → put_immutable env key contents days until files ≡ ok result
    → (safe : String) × (safe_key key ≡ ok safe) × IsPut env safe contents until files result
unfolding put_immutable
put_immutable-IsPut env key contents days until files result h = elim (Bool-cases (ltb days 1)) [
  | inl short ↦ absurd (ground (arith, rw short at h))
  | inr long ↦
      let (safe, read, h1) = bind-ok (safe_key key) _ (rw long at h) in
      (
        safe,
        read,
        elim (Option-cases (version_at (version_path safe (env.sha256_text contents)) files)) [
          | inl fresh ↦ created fresh (ground (arith, rw fresh at h1))
          | inr (v, seen) ↦
              let h2 : existing_version env contents files v ≡ ok result = rw seen at h1 in
              elim (Bool-cases (env.sha256_text v.contents == env.sha256_text contents)) [
                | inl same ↦ found v seen same (ground (arith, rw same at h2))
                | inr other ↦ absurd (ground (arith, rw other at h2))
              ]
        ],
      )
]

get_version-at :
    (env : Env) (key version_id : String) (files : List Version) {safe : String} (v : Version)
    → safe_key key ≡ ok safe
    → version_at (version_path safe version_id) files ≡ some v
    → (env.sha256_text v.contents == v.metadata.sha256) ≡ true
    → get_version env key version_id files ≡ ok v.contents
unfolding get_version
get_version-at env key version_id files {safe = safe} v read seen intact =
    bind-at (safe_key key) _ safe read ∙ rw seen (rw intact refl)

abbrev new_version : Env → String → String → String → Version
new_version env safe contents until =
    let digest = env.sha256_text contents in
    record {
      path = version_path safe digest;
      contents = contents;
      metadata = record {
        key = safe;
        version_id = digest;
        sha256 = digest;
        size = count contents;
        retain_until = until;
      };
    }

module _ (env : Env) (key contents : String) (days : ℕ) (until : String) (files : List Version)
    (result : StoredObject × List Version)
    (h : put_immutable env key contents days until files ≡ ok result) where
  -- After a put that succeeds, every version that the store had is there unchanged.
  pub put_immutable-keeps :
      (path : String) (v : Version)
      → version_at path files ≡ some v
      → version_at path result.1 ≡ some v
  put_immutable-keeps path v seen =
      let (safe, read, put) = put_immutable-IsPut env key contents days until files result h in
      elim put [
        | found u at same e ↦ rw e seen
        | created fresh e ↦ rw e (version_at-append path files _ seen)
      ]

  -- A put that succeeds keeps a store intact, where every version has the digest of its data.
  pub put_immutable-IsIntactStore : IsIntactStore env files → IsIntactStore env result.1
  put_immutable-IsIntactStore intact =
      let (safe, read, put) = put_immutable-IsPut env key contents days until files result h in
      elim put [
        | found u at same e ↦ rw e intact
        | created fresh e ↦ rw e (
            append-IsIntactStore env files (new_version env safe contents until) intact
              (eq_refl (env.sha256_text contents)))
      ]

  -- After a put that succeeds into an intact store, the version of the data's digest is read
  -- back: a text with that digest.
  pub get_version-put_immutable :
      IsIntactStore env files
      → (c : String) × (get_version env key (env.sha256_text contents) result.1 ≡ ok c)
        × (env.sha256_text c ≡ env.sha256_text contents)
  get_version-put_immutable intact =
      let (safe, read, put) = put_immutable-IsPut env key contents days until files result h in
      elim put [
        | found u at same e ↦ (
          u.contents,
          rw (ap (λ r. r.1) e) (
              get_version-at env key _ files u read at
                (version_at-IsIntactStore env _ files intact at)),
          (eq_iff (env.sha256_text u.contents) (env.sha256_text contents)).0 same,
        )
        | created fresh e ↦ (
          contents,
          rw (ap (λ r. r.1) e) (
              get_version-at env key _ _ (new_version env safe contents until) read
                (version_at-last _ files (new_version env safe contents until) fresh refl)
                (eq_refl (env.sha256_text contents))),
          refl,
        )
      ]
