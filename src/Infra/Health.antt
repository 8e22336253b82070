-- ===== src/Infra/Health.antt =====
-- internal/infrastructure/postgres/health_checker.go, redis/health_checker.go with the method Ping of
-- redis/client.go, and s3/health_checker.go. The pings are the libraries'.
use cargohold.Exec.{Exec, on_error, raise}
use cargohold.Failure.{plain, wrapped}
use cargohold.Prelude.{Option, none, some}
use cargohold.Prelude.Text.{codes}
use cargohold.Usecase.Readiness.{HealthChecker}

module _ {W : Type 0} where
  unfoldable pub postgres_checker : Exec W (Unit {0}) → HealthChecker W
  postgres_checker ping = record {
    name = codes "postgres";
    check = on_error (wrapped "postgres health check failed") ping;
  }

  -- RedisClient.Ping; a nil client is `none`.
  unfoldable pub ping_client : Option (Exec W (Unit {0})) → Exec W (Unit {0})
  ping_client none = raise (plain "redis client is nil")
  ping_client (some ping) = ping

  unfoldable pub redis_checker : Option (Exec W (Unit {0})) → HealthChecker W
  unfolding ping_client
  redis_checker client = record {
    name = codes "redis";
    check = on_error (wrapped "redis health check failed") (ping_client client);
  }

  unfoldable pub s3_checker : Exec W (Unit {0}) → HealthChecker W
  s3_checker head_bucket = record {
    name = codes "s3";
    check = on_error (wrapped "s3 health check failed") head_bucket;
  }
