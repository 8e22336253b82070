-- ===== src/Infra/Redis/Laws.antt =====
-- What is asked of Redis and of encoding/json. `entry` is what the keys hold; an expired one is gone.
use cargohold.Exec.{ok}
use cargohold.Infra.Redis.{Codec, Driver}
use cargohold.Prelude.{Option, none, some, ℕ, ◌≡◌}
use cargohold.Prelude.Text.{Text}

module _ {W : Type 0} where
  pub record IsDriver (driver : Driver W) (entry : W → Text → Option Text) : Type 0 where
    pub get-entry : (k : Text) (w : W) (v : Text) → (driver.get k w).0 ≡ ok v → entry w k ≡ some v
    pub set-entry :
        (k v : Text) (ttl : ℕ) (w : W)
        → (driver.set k v ttl w).0 ≡ ok tt
        → entry (driver.set k v ttl w).1 k ≡ some v
    pub get_del-entry :
        (k : Text) (w : W) (v : Text) → (driver.get_del k w).0 ≡ ok v → entry w k ≡ some v
    pub get_del_gone :
        (k : Text) (w : W) (v : Text)
        → (driver.get_del k w).0 ≡ ok v
        → entry (driver.get_del k w).1 k ≡ none

-- What was written is read back, for the values that JSON can hold, such as strings in UTF-8.
pub record IsCodec {A : Type 0} (codec : Codec A) (Good : A → Type 0) : Type 0 where
  pub round_trip : (a : A) (t : Text) → Good a → codec.marshal a ≡ ok t → codec.unmarshal t ≡ ok a
