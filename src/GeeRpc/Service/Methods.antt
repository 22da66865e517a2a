-- ===== src/GeeRpc/Service/Methods.antt =====
-- Which methods a service has.
use distributed_study.Common.{
  ◌≡◌, ◌↔◌, refl, Str, Dict, lookup, insert, lookup-insert, Option, some, List, [], ◌∷◌, true, ◌&&◌,
  nat_key, str_key, str_beq, if◌then◌else◌, arith,
}
use distributed_study.GeeRpc.Service.{
  MethodInfo, MethodType, is_suitable, register_methods, is_exported_or_buildin_type,
}

-- The last suitable method of the name, or what was there before.
unfoldable pub last_suitable : Str → List MethodInfo → Option MethodType → Option MethodType
last_suitable name [] before = before
last_suitable name (m ∷ ms) before = last_suitable name ms (
    if is_suitable m && str_beq m.name name
    then some (record { method = m; num_calls = 0 })
    else before)

-- A service has under a name the last of its methods of that name that is suitable, not called
-- yet, or else what stood there before.
lookup-register_methods :
    (name : Str) (ms : List MethodInfo) (methods : Dict Str MethodType)
    → lookup name (register_methods ms methods) ≡ last_suitable name ms (lookup name methods)
unfolding register_methods last_suitable
lookup-register_methods name [] methods = refl
lookup-register_methods name (m ∷ ms) methods =
    let entry : MethodType = record { method = m; num_calls = 0 } in
    let added = lookup-register_methods name ms (insert m.name entry methods) in
    let left = lookup-register_methods name ms methods in
    ground (arith, lookup-insert m.name name entry methods)

-- A method is suitable exactly if it takes two arguments beside its receiver and returns one
-- error, and both arguments are of exported or builtin types.
is_suitable_iff :
    (m : MethodInfo)
    → (is_suitable m ≡ true) ↔ (
        (m.num_in ≡ 3)
        × (m.num_out ≡ 1)
        × (m.out_is_error ≡ true)
        × (is_exported_or_buildin_type m.arg_type ≡ true)
        × (is_exported_or_buildin_type m.reply_type ≡ true))
unfolding is_suitable
is_suitable_iff m = ground arith
