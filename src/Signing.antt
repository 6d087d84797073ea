-- ===== src/Signing.antt =====
-- src/flagship_lab/signing.py: the signatures of evidence. The library of keys is a parameter: a
-- key that is loaded is one of Ed25519, with its operation, or one of another kind. A signature is
-- carried by its base64 text.
use flagship_lab.Json.{Json}
use flagship_lab.Result.{Result, ◌>=>◌, ok, err, value_error}
use flagship_lab.Prelude.{String, Option, Bool, some, none, List}

pub record Signature : Type 0 where
  pub algorithm : String
  pub key_id : String
  pub value : String

-- `EvidenceSigner`: its one method.
abbrev pub EvidenceSigner : Type 0
EvidenceSigner = String → Signature

-- What `load_pem_private_key` returns, and `base64.b64encode(key.sign(material)).decode()`.
pub data PrivateKey : Type 0 where
  ed25519_private : (String → String) → PrivateKey
  another_private : PrivateKey

-- What `load_pem_public_key` returns, and whether `verify(base64.b64decode(value), material)`
-- raises nothing.
pub data PublicKey : Type 0 where
  ed25519_public : (String → String → Bool) → PublicKey
  another_public : PublicKey

-- The libraries under the evidence: keys, HMAC, `json.dumps` with `indent=2`, and archives.
pub record Library : Type 0 where
  pub load_private : String → Result PrivateKey
  pub load_public : String → Result PublicKey
  pub hmac_sha256 : String → String → String
  pub dumps : Json → String
  pub zip : List (String × String) → String
  pub unzip : String → Result (List (String × String))

-- `isinstance(key, Ed25519PrivateKey)`, or the error.
unfoldable pub ed25519_key : PrivateKey → Result (String → String)
ed25519_key (ed25519_private sign) = ok sign
ed25519_key another_private =
    err (value_error "evidence signing key must be an Ed25519 private key")

unfoldable pub new_ed25519_signer : Library → String → String → Result EvidenceSigner
unfolding ed25519_key
new_ed25519_signer lib pem key_id = lib.load_private pem >=> λ loaded.
    ed25519_key loaded >=> λ sign.
    ok (λ material. record { algorithm = "Ed25519"; key_id = key_id; value = sign material })

-- The answer of `kms_client.sign`: the id of the key, where it is given, and the signature.
pub record KmsAnswer : Type 0 where
  pub answered_key : Option String
  pub signature : String

abbrev key_or : String → Option String → String
key_or key_id none = key_id
key_or key_id (some k) = k

-- `AwsKmsSigner(kms_client, key_id, signing_algorithm)`: the client is its method `sign`.
unfoldable pub aws_kms_signer :
    (String → String → String → KmsAnswer) → String → String → EvidenceSigner
aws_kms_signer client key_id signing_algorithm material =
    let response = client key_id material signing_algorithm in
    record {
      algorithm = signing_algorithm;
      key_id = key_or key_id response.answered_key;
      value = response.signature;
    }
