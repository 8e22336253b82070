-- ===== src/Handler/BatchApi/Laws.antt =====
-- What a batch request has passed when it is answered with a batch response.
use mathlib.Core.Path.{ap₂, subst}
use cargohold.Domain.Operation.{RepositoryPermissions, can_download, can_upload}
use cargohold.Domain.Repository.{RepositoryIdentifier, new_repository_identifier}
use cargohold.Domain.User.{UserInfo}
use cargohold.Exec.{Result, err, ok}
use cargohold.Exec.Read.{read_limited, read_limited-whole}
use cargohold.Failure.{GoError}
use cargohold.Handler.BatchApi.{
  BatchHttpRequest, BatchRequestDto, batch_reply, caller_of, check_permissions, check_size,
  forbidden, handle_batch, handle_use_case_error, max_body_size, operation_refusal, or_bad_request,
  or_permitted, or_reply, permission_refusal, prepare, serve, to_batch_request,
}
use cargohold.Handler.Http.{Reply, and_then, answered, validate_lfs_headers}
use cargohold.Ports.{Services}
use cargohold.Prelude.{
  Bool, Bool-cases, Option, String, ap, arith, false, if_both, inl, inr, length, ltb, none, not,
  refl, some, suc, sym, true, ℕ, ◌++◌, ◌<◌, ◌∙◌, ◌∷◌, ◌≡◌, ◌≤◌, ◌⊎◌,
}
use cargohold.Prelude.Text.{Text, codes, text_eq}
use cargohold.Usecase.Batch.{handle_batch_request}
use cargohold.Usecase.Request.{BatchRequest}
use cargohold.Usecase.Response.{BatchResponse, refused}

module _ {A B C : Type 0} where
  -- Both parts went on.
  pub and_then-eq-inr :
      (m : Reply C ⊎ A) (f : A → Reply C ⊎ B) (b : B)
      → and_then m f ≡ inr b
      → (a : A) × (m ≡ inr a) × (f a ≡ inr b)
  and_then-eq-inr (inl r) f b h = cc h
  and_then-eq-inr (inr a) f b h = (a, refl, h)

-- The user is known, with permissions that allow the operation.
pub record IsPermitted (user : Option UserInfo) (operation : Text) : Type 0 where
  pub who : UserInfo
  pub present : user ≡ some who
  pub permissions : RepositoryPermissions
  pub granted : who.permissions ≡ some permissions
  pub upload : operation ≡ codes "upload" → can_upload permissions ≡ true
  pub download : operation ≡ codes "download" → can_download permissions ≡ true

permission_refusal-none :
    {B : Type 0} (operation : Text) (o : Option RepositoryPermissions)
    → permission_refusal {B = B} operation o ≡ none
    → (p : RepositoryPermissions) × (o ≡ some p) × (operation_refusal operation p ≡ false)
unfolding permission_refusal forbidden
permission_refusal-none operation none h = cc h
permission_refusal-none operation (some p) h = elim (Bool-cases (operation_refusal operation p)) [
  | inl refused ↦ cc (rw refused at h)
  | inr fine ↦ (p, refl, fine)
]

not_negated : (b : Bool) → not b ≡ false → b ≡ true
not_negated true h = refl
not_negated false h = cc h

upload_granted :
    (p : RepositoryPermissions) → operation_refusal (codes "upload") p ≡ false → can_upload p ≡ true
unfolding operation_refusal text_eq
upload_granted p h = not_negated (can_upload p) h

download_granted :
    (p : RepositoryPermissions)
    → operation_refusal (codes "download") p ≡ false
    → can_download p ≡ true
unfolding operation_refusal text_eq
download_granted p h = not_negated (can_download p) h

check_permissions-IsPermitted :
    {B : Type 0} (user : Option UserInfo) (operation : Text)
    → check_permissions {B = B} user operation ≡ none
    → IsPermitted user operation
unfolding check_permissions forbidden
check_permissions-IsPermitted none operation h = cc h
check_permissions-IsPermitted (some u) operation h =
    let (p, granted, fine) = permission_refusal-none operation u.permissions h in
    record {
      who = u;
      present = refl;
      permissions = p;
      granted = granted;
      upload = λ e. upload_granted p (rw e at fine);
      download = λ e. download_granted p (rw e at fine);
    }

not_ltb : (n m : ℕ) → ltb n m ≡ false → m ≤ n
not_ltb n m h = ground arith

below : (n m : ℕ) → n ≤ m → n < suc m
below n m h = omega (arith, h)

abbrev parsing : String
parsing = "リクエストボディのパースに失敗しました"

abbrev is_answer : {B : Type 0} → Reply B → Bool
is_answer (answered status b) = true
is_answer _ = false

handle_use_case_error-is_error :
    (B : Type 0) (e : GoError) → is_answer (handle_use_case_error {B = B} e) ≡ false
unfolding handle_use_case_error
handle_use_case_error-is_error B e = ground arith

-- An early return is never an answer with a body.
Quiet : {A C : Type 0} → Reply C ⊎ A → Type 0
Quiet (inl r) = is_answer r ≡ false
Quiet (inr a) = Unit {0}

Quiet-and_then :
    {A B C : Type 0} (m : Reply C ⊎ A) (f : A → Reply C ⊎ B)
    → Quiet m
    → ((a : A) → Quiet (f a))
    → Quiet (and_then m f)
unfolding Quiet
Quiet-and_then (inl r) f h k = h
Quiet-and_then (inr a) f h k = k a

abbrev QuietOption : {C : Type 0} → Option (Reply C) → Type 0
QuietOption none = Unit {0}
QuietOption (some r) = is_answer r ≡ false

permission_refusal-QuietOption :
    (B : Type 0) (operation : Text) (o : Option RepositoryPermissions)
    → QuietOption (permission_refusal {B = B} operation o)
unfolding permission_refusal forbidden
permission_refusal-QuietOption B operation none = refl
permission_refusal-QuietOption B operation (some p) =
    if_both (λ (o : Option (Reply B)). QuietOption o) (operation_refusal operation p) refl tt

check_permissions-QuietOption :
    (B : Type 0) (user : Option UserInfo) (operation : Text)
    → QuietOption (check_permissions {B = B} user operation)
unfolding check_permissions forbidden
check_permissions-QuietOption B none operation = refl
check_permissions-QuietOption B (some u) operation =
    permission_refusal-QuietOption B operation u.permissions

module _ (parse_media_type : Text → Option Text) (unmarshal : Text → Result BatchRequestDto) where
  or_reply-eq-inr :
      {A : Type 0} (status : ℕ) (message : String) (r : Result A) (a : A)
      → or_reply parse_media_type unmarshal status message r ≡ inr a
      → r ≡ ok a
  unfolding or_reply
  or_reply-eq-inr status message (ok b) a h = cc h
  or_reply-eq-inr status message (err e) a h = cc h

  check_size-eq-inr :
      (t u : Text)
      → check_size parse_media_type unmarshal t ≡ inr u
      → (t ≡ u) × (length t ≤ max_body_size)
  unfolding check_size
  check_size-eq-inr t u h = elim (Bool-cases (ltb max_body_size (length t))) [
    | inl long ↦ cc (rw long at h)
    | inr short ↦ (cc (rw short at h), not_ltb max_body_size (length t) short)
  ]

  or_bad_request-eq-inr :
      (o : Option String) (u : Unit {0})
      → or_bad_request parse_media_type unmarshal o ≡ inr u
      → o ≡ none
  unfolding or_bad_request
  or_bad_request-eq-inr none u h = refl
  or_bad_request-eq-inr (some message) u h = cc h

  or_permitted-eq-inr :
      {A : Type 0} (o : Option (Reply BatchResponse)) (a b : A)
      → or_permitted parse_media_type unmarshal o a ≡ inr b
      → (o ≡ none) × (a ≡ b)
  unfolding or_permitted
  or_permitted-eq-inr none a b h = (refl, cc h)
  or_permitted-eq-inr (some r) a b h = cc h

  -- A request that has passed all checks, with what was read from it.
  pub record IsPrepared (c : BatchHttpRequest) (repo_id : RepositoryIdentifier) (req : BatchRequest)
      : Type 0 where
    pub headed : validate_lfs_headers parse_media_type c.accept c.content_type ≡ none
    pub parsed : new_repository_identifier (c.owner ++ b'/' ∷ c.repo) ≡ ok repo_id
    pub small : length c.bytes ≤ max_body_size
    pub dto : BatchRequestDto
    pub decoded : unmarshal c.bytes ≡ ok dto
    pub converted : to_batch_request dto (some repo_id) ≡ ok req
    pub permitted : IsPermitted c.user dto.operation

  prepare-IsPrepared :
      (c : BatchHttpRequest) (repo_id : RepositoryIdentifier) (req : BatchRequest)
      → prepare parse_media_type unmarshal c ≡ inr (repo_id, req)
      → IsPrepared c repo_id req
  unfolding prepare
  prepare-IsPrepared c repo_id req h =
      let headers =
        or_bad_request parse_media_type unmarshal
          (validate_lfs_headers parse_media_type c.accept c.content_type) in
      let (u, headed, h) = and_then-eq-inr headers _ _ h in
      let (repo', parsed, h) =
        and_then-eq-inr
          (or_reply parse_media_type unmarshal 400 "リポジトリ識別子の形式が不正です"
            (new_repository_identifier (c.owner ++ b'/' ∷ c.repo)))
          _ _ h in
      let (t, taken, h) =
        and_then-eq-inr
          (or_reply parse_media_type unmarshal 422 parsing
            (read_limited (suc max_body_size) c.bytes c.broken))
          _ _ h in
      let (t', sized, h) = and_then-eq-inr (check_size parse_media_type unmarshal t) _ _ h in
      let (dto, decoded, h) =
        and_then-eq-inr (or_reply parse_media_type unmarshal 422 parsing (unmarshal t')) _ _ h in
      let (req', converted, h) =
        and_then-eq-inr
          (or_reply parse_media_type unmarshal 422 parsing (to_batch_request dto (some repo'))) _ _
          h in
      let (fine, same) =
        or_permitted-eq-inr (check_permissions c.user dto.operation) (repo', req') _ h in
      let same_repo = ap (λ (x : RepositoryIdentifier × BatchRequest). x.0) same in
      let (same_text, fits) = check_size-eq-inr t t' sized in
      let whole =
        read_limited-whole (suc max_body_size) c.bytes c.broken t
          (or_reply-eq-inr 422 parsing _ t taken) (below (length t) max_body_size fits) in
      record {
        headed = or_bad_request-eq-inr _ u headed;
        parsed = or_reply-eq-inr 400 _ _ repo' parsed ∙ ap ok same_repo;
        small = subst (λ (x : Text). length x ≤ max_body_size) whole fits;
        dto = dto;
        decoded = ap unmarshal (sym whole ∙ same_text) ∙ or_reply-eq-inr 422 parsing _ dto decoded;
        converted =
            ap (λ r. to_batch_request dto (some r)) (sym same_repo)
            ∙ (or_reply-eq-inr 422 parsing _ req' converted
                ∙ ap (λ (x : RepositoryIdentifier × BatchRequest). ok x.1) same);
        permitted = check_permissions-IsPermitted c.user dto.operation fine;
      }

  Quiet-or_reply :
      {A : Type 0} (status : ℕ) (message : String) (r : Result A)
      → Quiet (or_reply parse_media_type unmarshal status message r)
  unfolding or_reply Quiet
  Quiet-or_reply status message (ok a) = tt
  Quiet-or_reply status message (err e) = refl

  Quiet-or_bad_request : (o : Option String) → Quiet (or_bad_request parse_media_type unmarshal o)
  unfolding or_bad_request Quiet
  Quiet-or_bad_request none = tt
  Quiet-or_bad_request (some message) = refl

  Quiet-check_size : (t : Text) → Quiet (check_size parse_media_type unmarshal t)
  unfolding check_size Quiet
  Quiet-check_size t =
      if_both (λ (x : Reply BatchResponse ⊎ Text). Quiet x) (ltb max_body_size (length t)) refl tt

  Quiet-or_permitted :
      {A : Type 0} (o : Option (Reply BatchResponse)) (a : A)
      → QuietOption o
      → Quiet (or_permitted parse_media_type unmarshal o a)
  unfolding or_permitted Quiet
  Quiet-or_permitted none a h = tt
  Quiet-or_permitted (some r) a h = h

  Quiet-prepare : (c : BatchHttpRequest) → Quiet (prepare parse_media_type unmarshal c)
  unfolding prepare
  Quiet-prepare c =
      Quiet-and_then
        (or_bad_request parse_media_type unmarshal
          (validate_lfs_headers parse_media_type c.accept c.content_type))
        _ (Quiet-or_bad_request _)
        λ _.
          Quiet-and_then
            (or_reply parse_media_type unmarshal 400 "リポジトリ識別子の形式が不正です"
              (new_repository_identifier (c.owner ++ b'/' ∷ c.repo)))
            _ (Quiet-or_reply 400 _ _)
            λ repo_id.
              Quiet-and_then
                (or_reply parse_media_type unmarshal 422 parsing
                  (read_limited (suc max_body_size) c.bytes c.broken))
                _ (Quiet-or_reply 422 _ _)
                λ t.
                  Quiet-and_then (check_size parse_media_type unmarshal t) _ (Quiet-check_size t)
                    λ t'.
                      Quiet-and_then
                        (or_reply parse_media_type unmarshal 422 parsing (unmarshal t')) _
                        (Quiet-or_reply 422 _ _)
                        λ dto.
                          Quiet-and_then
                            (or_reply parse_media_type unmarshal 422 parsing
                              (to_batch_request dto (some repo_id)))
                            _ (Quiet-or_reply 422 _ _)
                            λ req.
                              Quiet-or_permitted (check_permissions c.user dto.operation)
                                (repo_id, req)
                                (check_permissions-QuietOption BatchResponse c.user dto.operation)

  module _ {W : Type 0} (s : Services W) where
    -- What a batch response rests on.
    pub record IsBatchServed (c : BatchHttpRequest) (status : ℕ) (resp : BatchResponse) (w w' : W)
        : Type 0 where
      pub fine : status ≡ 200
      pub repo_id : RepositoryIdentifier
      pub req : BatchRequest
      pub prepared : IsPrepared c repo_id req
      pub ran :
          handle_batch_request s (caller_of parse_media_type unmarshal s c repo_id) req w
          ≡ (ok resp, w')

    batch_reply-answered :
        (r : Result BatchResponse) (status : ℕ) (resp : BatchResponse)
        → batch_reply parse_media_type unmarshal r ≡ answered status resp
        → (status ≡ 200) × (r ≡ ok resp)
    unfolding batch_reply
    batch_reply-answered (ok b) status resp h = (cc h, cc h)
    batch_reply-answered (err e) status resp h =
        cc (ap is_answer h, handle_use_case_error-is_error BatchResponse e)

    serve-IsBatchServed :
        (c : BatchHttpRequest) (w w' : W) (status : ℕ) (resp : BatchResponse)
        (p : Reply BatchResponse ⊎ (RepositoryIdentifier × BatchRequest))
        → prepare parse_media_type unmarshal c ≡ p
        → serve parse_media_type unmarshal s c p w ≡ (answered status resp, w')
        → IsBatchServed c status resp w w'
    unfolding serve Quiet
    serve-IsBatchServed c w w' status resp (inl r) e h =
        let silent =
          subst (λ (x : Reply BatchResponse ⊎ (RepositoryIdentifier × BatchRequest)). Quiet x) e
            (Quiet-prepare c) in
        cc (silent, ap (λ (z : Reply BatchResponse × W). is_answer z.0) h)
    serve-IsBatchServed c w w' status resp (inr (repo_id, req)) e h =
        let ran = handle_batch_request s (caller_of parse_media_type unmarshal s c repo_id) req w in
        let (fine, done) =
          batch_reply-answered ran.0 status resp (ap (λ (z : Reply BatchResponse × W). z.0) h) in
        record {
          fine = fine;
          repo_id = repo_id;
          req = req;
          prepared = prepare-IsPrepared c repo_id req e;
          ran = ap₂ (λ r v. (r, v)) done (ap (λ (z : Reply BatchResponse × W). z.1) h);
        }

    -- A batch response is sent with status 200 only: the headers were right, the path named a
    -- repository, the body was at most 10 MiB and was decoded, the user was known and has the
    -- permissions for the operation, and the batch use case returned this response for the request.
    pub handle_batch-IsBatchServed :
        (c : BatchHttpRequest) (w w' : W) (status : ℕ) (resp : BatchResponse)
        → handle_batch parse_media_type unmarshal s c w ≡ (answered status resp, w')
        → IsBatchServed c status resp w w'
    unfolding handle_batch
    handle_batch-IsBatchServed c w w' status resp h =
        serve-IsBatchServed c w w' status resp (prepare parse_media_type unmarshal c) refl h
