-- ===== src/Json.antt =====
-- The JSON objects of the columns `payload`, `result` and `data`, as far as the services build them.
use smart_email_manager.Prelude.{ℕ, String, Bool, List}

-- The values of a JSON object that the services build.
pub data Value : Type 0 where
  num : ℕ → Value
  text : String → Value
  texts : List String → Value
  flag : Bool → Value
  ids : List ℕ → Value

abbrev pub Data : Type 0
Data = List (String × Value)
