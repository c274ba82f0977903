-- ===== src/Sdk/Json.antt =====
-- The part of the JSON library (nlohmann::json) that the code calls. It is not in the repository:
-- values of its type and its functions are parameters. A text is its bytes. A function that throws
-- gives `none`.
use nusim.Base.{ℕ, Bool, Option, none, some, List, ℤ}
use Prim.Native.String.{String}

pub record Json (D J : Type 0) : Type 0 where
  -- json::parse, which throws parse_error
  pub parse : List ℕ → Option J
  -- json::object()
  pub object : J
  pub contains : J → String → Bool
  -- value[key].get<T>(), which throws type_error where the value is of another type
  pub get_int64 : J → String → Option ℤ
  pub get_int : J → String → Option ℤ
  pub get_double : J → String → Option D
  pub get_bool : J → String → Option Bool
  -- json{{key, number}}.dump()
  pub dump : String → ℤ → List ℕ

infixl 5 ◌>>=◌
abbrev pub ◌>>=◌ : {A B : Type 0} → Option A → (A → Option B) → Option B
some a >>= f = f a
none >>= f = none
