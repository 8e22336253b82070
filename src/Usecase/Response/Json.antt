-- ===== src/Usecase/Response/Json.antt =====
-- internal/usecase/batch_response.go: the shapes that encoding/json reads and writes. A field with
-- `omitempty` is absent where it holds the zero value, and an absent field is read as that value.
use mathlib.Core.Option
use mathlib.Core.Path.{ap₂}
use cargohold.Exec.{Result, ok, then_ok}
use cargohold.Prelude.{Bool, List, Option, String, [], ap, map, none, refl, some, ℕ, ◌∷◌, ◌≡◌}
use cargohold.Prelude.Int.{ℤ}
use cargohold.Prelude.Text.{Text}
use cargohold.Usecase.Response.{Action, Actions, BatchResponse, ObjectError, ResponseObject}

pub record ActionJson : Type 0 where
  pub href : Text
  pub header : List (Text × Text)
  pub expires_in : ℤ

pub record ActionsJson : Type 0 where
  pub upload : Option ActionJson
  pub download : Option ActionJson

pub record ObjectErrorJson : Type 0 where
  pub code : ℕ
  pub message : String

pub record ResponseObjectJson : Type 0 where
  pub oid : Text
  pub size : ℤ
  pub authenticated : Bool
  pub actions : Option ActionsJson
  pub error : Option ObjectErrorJson

pub record BatchResponseJson : Type 0 where
  pub transfer : Text
  pub objects : List ResponseObjectJson
  pub hash_algo : Text

pub action_to_json : Action → ActionJson
action_to_json a = record { href = a.href; header = a.header; expires_in = a.expires_in }

pub to_action : ActionJson → Action
to_action a = record { href = a.href; header = a.header; expires_in = a.expires_in }

pub actions_to_json : Actions → ActionsJson
actions_to_json a = record {
  upload = Option.map action_to_json a.upload;
  download = Option.map action_to_json a.download;
}

pub to_actions : ActionsJson → Actions
to_actions a = record {
  upload = Option.map to_action a.upload;
  download = Option.map to_action a.download;
}

pub object_error_to_json : ObjectError → ObjectErrorJson
object_error_to_json e = record { code = e.code; message = e.message }

pub to_object_error : ObjectErrorJson → ObjectError
to_object_error e = record { code = e.code; message = e.message }

pub response_object_to_json : ResponseObject → ResponseObjectJson
response_object_to_json r = record {
  oid = r.oid;
  size = r.size;
  authenticated = r.authenticated;
  actions = Option.map actions_to_json r.actions;
  error = Option.map object_error_to_json r.object_error;
}

pub to_response_object : ResponseObjectJson → ResponseObject
to_response_object r = record {
  oid = r.oid;
  size = r.size;
  authenticated = r.authenticated;
  actions = Option.map to_actions r.actions;
  object_error = Option.map to_object_error r.error;
}

option_map_back {ℓ κ} :
    {A : Type ℓ} {B : Type κ} (f : A → B) (g : B → A)
    → ((a : A) → g (f a) ≡ a)
    → (o : Option A) → Option.map g (Option.map f o) ≡ o
option_map_back f g back none = refl
option_map_back f g back (some a) = ap some (back a)

to_action-json : (a : Action) → to_action (action_to_json a) ≡ a
unfolding to_action action_to_json
to_action-json a = refl

to_object_error-json : (e : ObjectError) → to_object_error (object_error_to_json e) ≡ e
unfolding to_object_error object_error_to_json
to_object_error-json e = refl

to_actions-json : (a : Actions) → to_actions (actions_to_json a) ≡ a
unfolding to_actions actions_to_json
to_actions-json a =
    let same = option_map_back action_to_json to_action to_action-json in
    ap₂ (λ u d. record { upload = u; download = d }) (same a.upload) (same a.download)

to_response_object-json : (r : ResponseObject) → to_response_object (response_object_to_json r) ≡ r
unfolding to_response_object response_object_to_json
to_response_object-json r =
    ap₂ (λ a e. record r { actions = a; object_error = e })
      (option_map_back actions_to_json to_actions to_actions-json r.actions)
      (option_map_back object_error_to_json to_object_error to_object_error-json r.object_error)

map_back {ℓ κ} :
    {A : Type ℓ} {B : Type κ} (f : A → B) (g : B → A)
    → ((a : A) → g (f a) ≡ a)
    → (xs : List A) → map g (map f xs) ≡ xs
map_back f g back [] = refl
map_back f g back (x ∷ xs) = ap₂ (λ y ys. y ∷ ys) (back x) (map_back f g back xs)

unfoldable pub batch_response_to_json : BatchResponse → BatchResponseJson
batch_response_to_json r = record {
  transfer = r.transfer;
  objects = map response_object_to_json r.objects;
  hash_algo = r.hash_algo;
}

-- `MarshalJSON` and `UnmarshalJSON` of a BatchResponse; `marshal` and `unmarshal` are
-- encoding/json at the type BatchResponseJson.
module _ {Bytes : Type 0} (marshal : BatchResponseJson → Result Bytes)
    (unmarshal : Bytes → Result BatchResponseJson) where
  unfoldable pub marshal_batch_response : BatchResponse → Result Bytes
  marshal_batch_response r = marshal (batch_response_to_json r)

  pub unmarshal_batch_response : Bytes → Result BatchResponse
  unmarshal_batch_response bytes = then_ok (unmarshal bytes) λ aux. ok (record {
    transfer = aux.transfer;
    objects = map to_response_object aux.objects;
    hash_algo = aux.hash_algo;
  })

  -- A response that was written is read back as it was, where encoding/json reads back its shape.
  pub unmarshal-marshal :
      (Readable : BatchResponseJson → Type 0)
      → ((j : BatchResponseJson) (b : Bytes) → Readable j → marshal j ≡ ok b → unmarshal b ≡ ok j)
      → (r : BatchResponse) (bytes : Bytes) → Readable (batch_response_to_json r)
      → marshal_batch_response r ≡ ok bytes
      → unmarshal_batch_response bytes ≡ ok r
  unfolding marshal_batch_response unmarshal_batch_response batch_response_to_json
  unmarshal-marshal Readable faithful r bytes readable h = rw (faithful _ bytes readable h) (
      ap (λ os. ok (record r { objects = os }))
        (map_back response_object_to_json to_response_object to_response_object-json r.objects))
