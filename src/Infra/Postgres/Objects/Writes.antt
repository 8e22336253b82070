-- ===== src/Infra/Postgres/Objects/Writes.antt =====
-- The repository over the table `lfs_objects` as a store.
use cargohold.Domain.Object.{LfsObject}
use cargohold.Domain.Oid.{Oid}
use cargohold.Infra.Caching.Laws.{View}
use cargohold.Infra.Postgres.{LfsObjectRow, Pool}
use cargohold.Infra.Postgres.Objects.Store.{IsObjectTable, objects_of}
use cargohold.Prelude.Text.{Text}

module _ {W : Type 0} (pool : Pool W) (rows : View W LfsObjectRow)
    (table : IsObjectTable pool rows) where
  abbrev stored : View W LfsObject
  stored w k = objects_of rows w k
