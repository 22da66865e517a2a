-- ===== src/GeeRpc/Service.antt =====
-- geerpc/service.go: a service and the methods of it that can be called.
--
-- What the source asks of `reflect` of a method is a record, with its name and signature. The method itself is what a call returns, an error or none.
mod Tests
pub mod Methods
pub mod Values
use distributed_study.Common.{
  ℕ, ◌+◌, ◌%◌, ◌^◌, Str, Dict, lookup, insert, Option, none, some, List, [], ◌∷◌, Bool, true, false,
  not, ◌&&◌, ◌||◌, ◌==◌, nat_key, str_key, leb, if◌then◌else◌,
}

-- The kinds of type that have an element type, and a type by its name and package path, which are
-- empty for a type that is written out.
pub data Kind : Type 0 where
  pointer map_kind slice array chan : Kind

pub data TypeInfo : Type 0 where
  plain : Str → Str → TypeInfo
  composite : Kind → Str → Str → TypeInfo → TypeInfo

abbrev pub type_name : TypeInfo → Str
type_name (plain name path) = name
type_name (composite kind name path elem) = name

abbrev pub pkg_path : TypeInfo → Str
pkg_path (plain name path) = path
pkg_path (composite kind name path elem) = path

pub record MethodInfo : Type 0 where
  pub name : Str
  pub num_in : ℕ
  pub num_out : ℕ
  -- the last parameter is written with `...`, and its type is a slice
  pub is_variadic : Bool
  pub out_is_error : Bool
  pub arg_type : TypeInfo
  pub reply_type : TypeInfo

pub record MethodType : Type 0 where
  pub method : MethodInfo
  pub num_calls : ℕ

pub record Service : Type 0 where
  pub name : Str
  pub methods : Dict Str MethodType

-- `ast.IsExported`, on ASCII names.
pub is_exported : Str → Bool
is_exported [] = false
is_exported (c ∷ s) = leb b'A' c && leb c b'Z'

pub is_exported_or_buildin_type : TypeInfo → Bool
is_exported_or_buildin_type t = is_exported (type_name t) || pkg_path t == []

-- The three tests of the loop in `registerMethods`, each of which goes on to the next method.
pub is_suitable : MethodInfo → Bool
is_suitable m =
    if not (m.num_in == 3) || not (m.num_out == 1)
    then false
    else (if not m.out_is_error
        then false
        else (if not (is_exported_or_buildin_type m.arg_type)
              || not (is_exported_or_buildin_type m.reply_type)
            then false
            else true))

pub register_methods : List MethodInfo → Dict Str MethodType → Dict Str MethodType
register_methods [] methods = methods
register_methods (m ∷ ms) methods = register_methods ms (
    if is_suitable m then insert m.name (record { method = m; num_calls = 0 }) methods else methods)

-- `none` is the fatal end for a name that is not exported.
pub new_service : Str → List MethodInfo → Option Service
new_service name ms =
    if not (is_exported name)
    then none
    else some (record { name = name; methods = register_methods ms [] })

-- `call` counts, and returns what the method returns.
unfoldable pub call : (MethodInfo → Option Str) → Str → Service → Option (Option Str × Service)
call invoke name s = elim (lookup name s.methods) [
  | none ↦ none
  | some m ↦ some (
    invoke m.method,
    record s {
      methods = insert name (record m { num_calls = (m.num_calls + 1) % 2 ^ 64 }) s.methods;
    },
  )
]
