-- ===== src/Usecase/Response.antt =====
-- internal/usecase/batch_response.go: the answer of the batch API. The messages are shown and never
-- compared, so they stay native strings. A header is a map whose keys are written once.
pub mod Json
use cargohold.Prelude.{
  Bool, List, Option, String, [], false, if◌then◌else◌, none, not, some, true, ℕ, ◌∷◌,
}
use cargohold.Prelude.Int.{pos, ℤ}
use cargohold.Prelude.Text.{Text, codes, text_eq}

pub record Action : Type 0 where
  pub href : Text
  pub header : List (Text × Text)
  pub expires_in : ℤ

pub record Actions : Type 0 where
  pub upload : Option Action
  pub download : Option Action

pub record ObjectError : Type 0 where
  pub code : ℕ
  pub message : String

pub record ResponseObject : Type 0 where
  pub oid : Text
  pub size : ℤ
  pub authenticated : Bool
  pub actions : Option Actions
  pub object_error : Option ObjectError

pub record BatchResponse : Type 0 where
  pub transfer : Text
  pub objects : List ResponseObject
  pub hash_algo : Text

abbrev pub default_transfer_type : Text
default_transfer_type = codes "basic"

-- int(PresignedURLTTL.Seconds()), fifteen minutes
abbrev pub presigned_url_seconds : ℤ
presigned_url_seconds = pos 900

-- The answer for an object that is refused.
unfoldable pub refused : Text → ℤ → ℕ → String → ResponseObject
refused oid size code message = record {
  oid = oid;
  size = size;
  authenticated = false;
  actions = none;
  object_error = some (record { code = code; message = message });
}

-- The answer for an object that is accepted, with or without something to do.
unfoldable pub accepted : Text → ℤ → Option Actions → ResponseObject
accepted oid size actions = record {
  oid = oid;
  size = size;
  authenticated = true;
  actions = actions;
  object_error = none;
}

-- The action at a URL, with the request's Authorization header if it is not empty.
unfoldable pub action_at : Text → Text → Action
action_at url auth_header = record {
  href = url;
  header = if not (text_eq auth_header []) then (codes "Authorization", auth_header) ∷ [] else [];
  expires_in = presigned_url_seconds;
}
