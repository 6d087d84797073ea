-- ===== src/Objects.antt =====
-- src/flagship_lab/object_store.py: the files of the local store of objects. The store is a list of
-- versions, each with its metadata; the data of an object is a text.
use flagship_lab.Prelude.{String, ℕ}

pub record StoredObject : Type 0 where
  pub key : String
  pub version_id : String
  pub sha256 : String
  pub size : ℕ
  pub retain_until : String

-- A version file and its metadata.
pub record Version : Type 0 where
  pub path : String
  pub contents : String
  pub metadata : StoredObject
