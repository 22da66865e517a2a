-- ===== src/GeeRpc/Service/Values.antt =====
-- geerpc/service.go, newArgv, newReplyv and the call by `reflect`, with what readRequest hands to
-- the decoder: which types the values have.
--
-- `none` is a panic of `reflect`. Whether a type implements an interface is an argument. A value is a pointer to a new variable, or a new variable that has
-- an address.
pub mod Fitting
use distributed_study.Common.{
  Str, Option, none, some, [], Bool, true, false, ◌&&◌, ◌||◌, ◌==◌, str_key, if◌then◌else◌, ◌>>=◌,
}
use distributed_study.GeeRpc.Service.{
  Kind, pointer, map_kind, slice, array, chan, TypeInfo, plain, composite, MethodInfo,
}

pub data Value : Type 0 where
  pointer_to addressed : TypeInfo → Value

unfoldable pub value_type : Value → TypeInfo
value_type (pointer_to t) = composite pointer [] [] t
value_type (addressed t) = t

unfoldable pub is_pointer : TypeInfo → Bool
is_pointer (plain name path) = false
is_pointer (composite pointer name path elem) = true
is_pointer (composite kind name path elem) = false

-- `Type.Elem`.
unfoldable pub elem_type : TypeInfo → Option TypeInfo
elem_type (plain name path) = none
elem_type (composite kind name path elem) = some elem

unfoldable pub new_argv : TypeInfo → Option Value
new_argv arg_type =
    if is_pointer arg_type
    then (do elem ← elem_type arg_type; some (pointer_to elem))
    else some (addressed arg_type)

-- `argvi`, which `readRequest` hands to `ReadBody`.
unfoldable pub body_target : Value → Value
body_target (pointer_to t) = pointer_to t
body_target (addressed t) = if is_pointer t then addressed t else pointer_to t

-- What the new variable behind a reply holds.
pub data Content : Type 0 where
  zero_value empty_map empty_slice : Content

unfoldable pub content_of : TypeInfo → Content
content_of (composite map_kind name path elem) = empty_map
content_of (composite slice name path elem) = empty_slice
content_of t = zero_value

unfoldable pub new_replyv : TypeInfo → Option (Value × Content)
new_replyv reply_type = do elem ← elem_type reply_type; some (pointer_to elem, content_of elem)

unfoldable pub same_kind : Kind → Kind → Bool
same_kind pointer pointer = true
same_kind map_kind map_kind = true
same_kind slice slice = true
same_kind array array = true
same_kind chan chan = true
same_kind k l = false

-- The same type.
unfoldable pub same_type : TypeInfo → TypeInfo → Bool
same_type (plain a p) (plain b q) = a == b && p == q
same_type (composite k a p t) (composite l b q u) =
    same_kind k l && (a == b && (p == q && same_type t u))
same_type t u = false

-- A value of the first type can be passed as the second: the types are the same, or have the same
-- structure, and one of them has no name.
unfoldable pub assignable : TypeInfo → TypeInfo → Bool
assignable (composite k a p t) (composite l b q u) =
    same_kind k l && (same_type t u && ((a == [] || b == []) || (a == b && p == q)))
assignable t u = same_type t u

-- The argument and the reply that `readRequest` makes for a method.
unfoldable pub make_values : MethodInfo → Option (Value × Value)
make_values m = do
  argv ← new_argv m.arg_type
  (replyv, content) ← new_replyv m.reply_type
  some (argv, replyv)

-- A value of the first type can be passed where the second is asked for.
unfoldable pub passes : (TypeInfo → TypeInfo → Bool) → TypeInfo → TypeInfo → Bool
passes implements t u = assignable t u || implements t u

-- `f.Call` takes the reply: a variadic method has it packed as an element of its last parameter.
unfoldable pub takes_reply : (TypeInfo → TypeInfo → Bool) → MethodInfo → TypeInfo → Bool
takes_reply implements m t =
    if m.is_variadic
    then elim (elem_type m.reply_type) [ none ↦ false | some u ↦ passes implements t u ]
    else passes implements t m.reply_type

-- Making the argument and the reply, and `f.Call` with them, do not panic.
unfoldable pub calls_safely : (TypeInfo → TypeInfo → Bool) → MethodInfo → Bool
calls_safely implements m = elim (make_values m) [
  | none ↦ false
  | some (argv, replyv) ↦
      passes implements (value_type argv) m.arg_type && takes_reply implements m (value_type replyv)
]
