-- ===== src/Handler/Http.antt =====
-- internal/handler/lfs_common.go, internal/handler/response/types.go and AppError of
-- internal/handler/middleware/error_handler.go: what a handler answers. mime.ParseMediaType is a
-- parameter, which gives the media type.
-- What a handler sends or returns; `B` is its own body.
use cargohold.Failure.{GoError}
use cargohold.Prelude.{
  Bool, List, Option, String, [], false, if◌then◌else◌, inl, inr, none, not, some, ℕ, ◌++◌, ◌==◌,
  ◌∷◌, ◌⊎◌,
}
use cargohold.Prelude.Text.{Text, codes, text_eq}

pub data Reply (B : Type 0) : Type 0 where
  -- SendLFSError(c, status, message)
  lfs_error : ℕ → String → Reply B
  -- NewAppError(status, message, err), left to the error handler
  app_error : ℕ → String → Option GoError → Reply B
  answered : ℕ → B → Reply B

abbrev pub git_lfs_content_type : Text
git_lfs_content_type = codes "application/vnd.git-lfs+json"

-- if err != nil || mediaType != GitLFSContentType
unfoldable pub is_lfs_type : Option Text → Bool
unfolding text_eq
is_lfs_type none = false
is_lfs_type (some media_type) = text_eq media_type git_lfs_content_type

-- The message of the error, if there is one.
unfoldable pub validate_lfs_headers : (Text → Option Text) → Text → Text → Option String
unfolding is_lfs_type
validate_lfs_headers parse_media_type accept content_type =
    if not (is_lfs_type (parse_media_type accept))
    then some "accept ヘッダーは application/vnd.git-lfs+json である必要があります"
    else if not (is_lfs_type (parse_media_type content_type))
    then some "Content-Typeは application/vnd.git-lfs+json である必要があります"
    else none

-- The headers that SendLFSError sets: the content type, and the challenge with a 401.
unfoldable pub lfs_error_headers : ℕ → List (Text × Text)
lfs_error_headers status =
    (codes "Content-Type", git_lfs_content_type)
    ∷ (if status == 401
        then (
          codes "LFS-Authenticate",
          codes "Basic realm=" ++ (34 ∷ (codes "Git LFS" ++ (34 ∷ []))),
        )
          ∷ []
        else [])

-- An early return, or what the handler goes on with.
abbrev pub and_then : {A B C : Type 0} → Reply C ⊎ A → (A → Reply C ⊎ B) → Reply C ⊎ B
and_then (inl r) f = inl r
and_then (inr a) f = f a
