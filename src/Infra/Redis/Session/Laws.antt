-- ===== src/Infra/Redis/Session/Laws.antt =====
-- Sessions are read back as they were created.
use cargohold.Domain.User.{UserInfo}
use cargohold.Prelude.Text.{Text}
