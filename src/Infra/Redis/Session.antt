-- ===== src/Infra/Redis/Session.antt =====
-- internal/infrastructure/redis/session.go and session_store_adapter.go.
pub mod Laws
use cargohold.Domain.User.{UserInfo}
use cargohold.Exec.{Exec, always, lift, map_err, on_error, pure, raise, ◌>>=◌, ◌>>◌}
use cargohold.Failure.{plain, wrapped}
use cargohold.Infra.CacheKeys.{session_key}
use cargohold.Infra.Redis.{Codec, Driver, delete_key, get_key, set_key}
use cargohold.Infra.Redis.UserInfo.{UserInfoDto, deserialize, serialize}
use cargohold.Prelude.{Option, if◌then◌else◌, none, some, ℕ, ◌==◌}
use cargohold.Prelude.Text.{Text}

-- SessionTTL
abbrev pub default_session_ttl : ℕ
default_session_ttl = 86400000000000

module _ {W : Type 0} (driver : Driver W) (codec : Codec UserInfoDto) where
  -- if ttl == 0 { ttl = SessionTTL }
  unfoldable pub session_ttl_or_default : ℕ → ℕ
  session_ttl_or_default ttl = if ttl == 0 then default_session_ttl else ttl

  unfoldable pub set_session : Text → Option UserInfo → ℕ → Exec W (Unit {0})
  unfolding session_ttl_or_default serialize set_key
  set_session session_id none ttl = raise (plain "userInfo is nil")
  set_session session_id (some user_info) ttl = do
    bytes ← lift (map_err (wrapped "セッション情報のシリアライズに失敗しました") (serialize codec (some user_info)))
    on_error (wrapped "セッション情報の保存に失敗しました")
        (set_key driver (session_key session_id) bytes (session_ttl_or_default ttl))

  unfoldable pub get_session : Text → Exec W UserInfo
  unfolding get_key deserialize
  get_session session_id = do
    bytes ← on_error (wrapped "セッション情報の取得に失敗しました") (get_key driver (session_key session_id))
    lift (map_err (wrapped "セッション情報のデシリアライズに失敗しました") (deserialize codec bytes))

  unfoldable pub delete_session : Text → Exec W (Unit {0})
  unfolding delete_key
  delete_session session_id =
      on_error (wrapped "セッション情報の削除に失敗しました") (delete_key driver (session_key session_id))

  -- SessionStoreAdapter.CreateSession; `generate` is the UUIDGenerator.
  unfoldable pub create_stored_session : (W → Text × W) → UserInfo → ℕ → Exec W Text
  unfolding set_session
  create_stored_session generate user_info ttl = do
    session_id ← always generate
    set_session session_id (some user_info) ttl
    pure session_id
