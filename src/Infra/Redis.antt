-- ===== src/Infra/Redis.antt =====
-- internal/infrastructure/redis/cache.go: the operations of RedisClient. The client of go-redis and
-- encoding/json are parameters. An expiry may take an entry away at any time.
pub mod UserInfo
pub mod Session
pub mod State
pub mod Laws
use cargohold.Exec.{Exec, Result, lift, map_err, on_error, pure, ◌>>=◌}
use cargohold.Failure.{GoError, is_error, redis_nil, sentinel, wrapped}
use cargohold.Infra.Allowlist.{AllowlistCacheClient}
use cargohold.Infra.Caching.{CacheClient, CachedMetadata}
use cargohold.Prelude.{Bool, String, false, if◌then◌else◌, ltb, ℕ}
use cargohold.Prelude.Text.{Text}

-- *redis.Client: `exists` counts keys, and a missing key is the error redis.Nil.
pub record Driver (W : Type 0) : Type 0 where
  pub get : Text → Exec W Text
  pub set : Text → Text → ℕ → Exec W (Unit {0})
  pub del : Text → Exec W (Unit {0})
  pub exists : Text → Exec W ℕ
  pub get_del : Text → Exec W Text

-- json.Marshal and json.Unmarshal at one type
pub record Codec (A : Type 0) : Type 0 where
  pub marshal : A → Result Text
  pub unmarshal : Text → Result A

-- err == redis.Nil
unfoldable pub is_nil_reply : GoError → Bool
is_nil_reply (sentinel s) = is_error (sentinel s) redis_nil
is_nil_reply _ = false

-- ErrCacheMiss is redis.Nil itself.
unfoldable pub reply_error : String → GoError → GoError
unfolding is_nil_reply
reply_error message e = if is_nil_reply e then sentinel redis_nil else wrapped message e

module _ {W : Type 0} (driver : Driver W) where
  unfoldable pub get_key : Text → Exec W Text
  unfolding reply_error
  get_key key = on_error (reply_error "キーの取得に失敗しました") (driver.get key)

  unfoldable pub set_key : Text → Text → ℕ → Exec W (Unit {0})
  set_key key value ttl = on_error (wrapped "キーの設定に失敗しました") (driver.set key value ttl)

  unfoldable pub delete_key : Text → Exec W (Unit {0})
  delete_key key = on_error (wrapped "キーの削除に失敗しました") (driver.del key)

  unfoldable pub key_exists : Text → Exec W Bool
  key_exists key = do n ← on_error (wrapped "キーの存在確認に失敗しました") (driver.exists key); pure (ltb 0 n)

  module _ {A : Type 0} (codec : Codec A) where
    unfoldable pub set_json_key : Text → A → ℕ → Exec W (Unit {0})
    set_json_key key value ttl = do
      json_bytes ← lift (map_err (wrapped "JSONシリアライズに失敗しました") (codec.marshal value))
      on_error (wrapped "キーの設定に失敗しました") (driver.set key json_bytes ttl)

    unfoldable pub get_json_key : Text → Exec W A
    unfolding reply_error
    get_json_key key = do
      val ← on_error (reply_error "キーの取得に失敗しました") (driver.get key)
      lift (map_err (wrapped "JSONデシリアライズに失敗しました") (codec.unmarshal val))

    unfoldable pub get_del_json : Text → Exec W A
    unfolding reply_error
    get_del_json key = do
      val ← on_error (reply_error "キーの取得と削除に失敗しました") (driver.get_del key)
      lift (map_err (wrapped "JSONデシリアライズに失敗しました") (codec.unmarshal val))

  -- RedisClient as the usecase.CacheClient of the caching repository
  unfoldable pub redis_cache_client : Codec CachedMetadata → CacheClient W
  unfolding key_exists get_json_key set_json_key delete_key
  redis_cache_client codec = record {
    exists = key_exists;
    get_json = get_json_key codec;
    set_json = set_json_key codec;
    delete = delete_key;
  }

  -- RedisClient as the cache of the allowlist
  unfoldable pub redis_allowlist_client : AllowlistCacheClient W
  unfolding get_key set_key delete_key
  redis_allowlist_client = record { get = get_key; set = set_key; delete = delete_key }
