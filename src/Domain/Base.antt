-- ===== src/Domain/Base.antt =====
-- The errors of the service, mastomini_rs/src/domain/mod.rs.
use Prim.Native.String.{String}
use mastomini.Prelude.{List, ℕ, ◌*◌}
use mastomini.Store.Base.{StoreError}

-- An error's text, by the arguments of its `format!`.
pub data Text : Type 0 where
  literal : String → Text
  -- "Record rejected by storage: {e}"
  rejected : StoreError → Text
  -- "Storage failure, restart required: {e}"
  restart_required : StoreError → Text
  -- "Notification storage failure, restart required: {error}"
  delivery_failed : Text → Text

pub data Error : Type 0 where
  not_found : Error
  unauthorized : Error
  forbidden : Text → Error
  invalid : Text → Error
  too_many : Text → Error
  unavailable : Text → Error

-- `Display` of `Error`
unfoldable pub display : Error → Text
display not_found = literal "Record not found"
display unauthorized = literal "The access token is invalid"
display (forbidden m) = m
display (invalid m) = m
display (too_many m) = m
display (unavailable m) = m

abbrev pub max_accounts : ℕ
max_accounts = 32

abbrev pub hour_ms : ℕ
hour_ms = 60 * 60 * 1000

pub record Governor : Type 0 where
  pub window_start_ms : ℕ
  pub global : ℕ
  pub per_account : List ℕ
