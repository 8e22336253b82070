-- ===== src/Infra/Oidc/Checker.antt =====
-- internal/infrastructure/oidc/github_repository_checker.go: what GitHub lets the holder of a token
-- do in a repository. HTTP and encoding/json are parameters.
pub mod Laws
use cargohold.Domain.Operation.{RepositoryPermissions}
use cargohold.Domain.Repository.{RepositoryIdentifier}
use cargohold.Exec.{Exec, Result, err, lift, map_err, ok, on_error, then_ok, ◌>>=◌, ◌>>◌}
use cargohold.Failure.{plain, wrapped}
use cargohold.Prelude.{
  Bool, Option, String, [], false, if◌then◌else◌, none, not, some, true, ℕ, ◌++◌, ◌==◌, ◌||◌, ◌∷◌,
}
use cargohold.Prelude.Text.{Text, codes}
use cargohold.Usecase.Oauth.{OauthTokenResult}

-- An answer whose body is read by the decoder.
pub record ApiAnswer (Body : Type 0) : Type 0 where
  pub status_code : ℕ
  pub body : Body

-- the permissions of repositoryResponse; what the body leaves out is false
pub record RepositoryResponse : Type 0 where
  pub admin : Bool
  pub maintain : Bool
  pub push : Bool
  pub triage : Bool
  pub pull : Bool

-- http.NewRequestWithContext, Client.Do with the Authorization header, and the decoding of
-- repositoryResponse
pub record GitHubApi (W Body : Type 0) : Type 0 where
  pub new_request : Text → Result (Unit {0})
  pub do_request : Text → Text → Exec W (ApiAnswer Body)
  pub decode_repository : Body → Result RepositoryResponse

unfoldable pub repo_url : Text → RepositoryIdentifier → Text
repo_url endpoint repo = endpoint ++ (codes "/repos/" ++ (repo.owner ++ (47 ∷ repo.name)))

unfoldable pub check_repo :
    Text → Option RepositoryIdentifier → Result (Text × RepositoryIdentifier)
check_repo access_token none = err (plain "repository is required")
check_repo access_token (some r) = ok (access_token, r)

unfoldable pub check_token :
    Text → Option RepositoryIdentifier → Result (Text × RepositoryIdentifier)
unfolding check_repo
check_token [] repo = err (plain "access token is required")
check_token (c ∷ access_token) repo = check_repo (c ∷ access_token) repo

-- The three guards, and the access token and the repository that are there.
unfoldable pub check_input :
    Option OauthTokenResult → Option RepositoryIdentifier → Result (Text × RepositoryIdentifier)
unfolding check_token
check_input none repo = err (plain "token is required")
check_input (some token) repo = check_token token.access_token repo

-- the switch on the status
unfoldable pub access_of : ℕ → Result Bool
access_of status =
    if status == 200
    then ok true
    else if status == 404 || status == 403
    then ok false
    else err (plain "リポジトリアクセス確認に失敗しました: status=%d")

unfoldable pub new_repository_permissions : RepositoryResponse → RepositoryPermissions
new_repository_permissions r = record {
  admin = r.admin;
  push = r.push;
  pull = r.pull;
  maintain = r.maintain;
  triage = r.triage;
}

module _ {W Body : Type 0} (api : GitHubApi W Body) (api_endpoint : Text) where
  -- the request of both operations, under the message of its failure
  unfoldable pub ask_repository : String → Text × RepositoryIdentifier → Exec W (ApiAnswer Body)
  unfolding repo_url
  ask_repository failure (access_token, repo) = do
    lift (map_err (wrapped "リクエストの作成に失敗しました") (api.new_request (repo_url api_endpoint repo)))
    on_error (wrapped failure)
        (api.do_request (repo_url api_endpoint repo) (codes "Bearer " ++ access_token))

  unfoldable pub can_access_repository :
      Option OauthTokenResult → Option RepositoryIdentifier → Exec W Bool
  unfolding ask_repository check_input access_of
  can_access_repository token repo = do
    input ← lift (check_input token repo)
    resp ← ask_repository "リポジトリアクセス確認リクエストに失敗しました" input
    lift (access_of resp.status_code)

  unfoldable pub permissions_of : ApiAnswer Body → Result RepositoryPermissions
  unfolding new_repository_permissions
  permissions_of resp =
      if not (resp.status_code == 200)
      then err (plain "リポジトリ権限取得に失敗しました: status=%d")
      else then_ok (map_err (wrapped "レスポンスのデコードに失敗しました") (api.decode_repository resp.body))
          λ r. ok (new_repository_permissions r)

  unfoldable pub get_repository_permissions :
      Option OauthTokenResult → Option RepositoryIdentifier → Exec W RepositoryPermissions
  unfolding ask_repository check_input permissions_of
  get_repository_permissions token repo = do
    input ← lift (check_input token repo)
    resp ← ask_repository "リポジトリ権限取得リクエストに失敗しました" input
    lift (permissions_of resp)
