-- ===== src/Types/Tree.antt =====
-- types/tree.go: the definitions of a module. A `*Type` is a number, or `none` where it is nil, and a
-- table says what it points to. A `*TypeVar` is a number. A name is its bytes.
use pea_old.Prelude.{ℕ, Bool, List, Option}
use pea_old.Utf8.{Bytes}

-- What is read of a `*Type`; `fields` are the names of its fields.
pub record TypeDef : Type 0 where
  pub var : Option ℕ
  pub priv : Bool
  pub mod_path : Bytes
  pub name : Bytes
  pub arity : ℕ
  pub args : List (Option ℕ)
  pub fields : List Bytes
