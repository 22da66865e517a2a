-- ===== src/GeeRpc/Service/Tests.antt =====
-- A service with a method that is called and methods that are not.
use distributed_study.Common.{
  ◌≡◌, ◌↔◌, refl, bytes, lookup, insert, str_beq, none, some, [], ◌∷◌, true, false, ◌==◌, Bool,
  nat_key, str_key,
}
use distributed_study.GeeRpc.Service.{
  TypeInfo, plain, pointer, composite, map_kind, slice, MethodInfo, MethodType, is_exported,
  is_exported_or_buildin_type, is_suitable, register_methods, new_service, call,
}
use distributed_study.GeeRpc.Service.Methods.{last_suitable}
use distributed_study.GeeRpc.Service.Values.{
  Value, pointer_to, is_pointer, elem_type, new_argv, body_target, new_replyv, make_values, passes,
  takes_reply, assignable, same_type, same_kind, value_type, calls_safely,
}
use distributed_study.GeeRpc.Service.Values.Fitting.{is_allowed, calls_safely_iff}

program : Unit {0}
unfolding is_exported is_exported_or_buildin_type is_suitable register_methods new_service call
    last_suitable lookup insert str_beq
program = tt

abbrev builtin : TypeInfo
builtin = plain (bytes "int") []

abbrev hidden : TypeInfo
hidden = plain (bytes "args") (bytes "main")

abbrev sum : MethodInfo
sum = record {
  name = bytes "Sum";
  num_in = 3;
  is_variadic = false;
  num_out = 1;
  out_is_error = true;
  arg_type = builtin;
  reply_type = builtin;
}

abbrev secret : MethodInfo
secret = record sum { name = bytes "Secret"; arg_type = hidden }

abbrev sum_counted : MethodType
sum_counted = record { method = sum; num_calls = 1 }

made :
    new_service (bytes "Foo") (sum ∷ secret ∷ [])
    ≡ some (record {
      name = bytes "Foo";
      methods = (bytes "Sum", record { method = sum; num_calls = 0 }) ∷ [];
    })
unfolding program
made = refl

not_exported : new_service (bytes "foo") [] ≡ none
unfolding program
not_exported = refl

called :
    call
      (λ m. none)
      (bytes "Sum")
      (record {
        name = bytes "Foo";
        methods = (bytes "Sum", record { method = sum; num_calls = 0 }) ∷ [];
      })
    ≡ some (none, record { name = bytes "Foo"; methods = (bytes "Sum", sum_counted) ∷ [] })
unfolding program
called = refl

-- Any type implements the interface without methods.
abbrev implements : TypeInfo → TypeInfo → Bool
implements t (plain name path) = name == bytes "any"
implements t (composite k name path u) = false

-- A method whose reply is an int is registered, and panics when it is called.
registered : (is_suitable sum ≡ true) × (calls_safely implements sum ≡ false)
unfolding program calls_safely make_values new_argv new_replyv is_pointer elem_type
registered = (refl, refl)

-- A method that takes any number of replies can be called with one.
abbrev variadic : MethodInfo
variadic = record sum {
  is_variadic = true;
  reply_type = composite slice [] [] (plain (bytes "any") []);
}

packed : calls_safely implements variadic ≡ true
unfolding program calls_safely make_values new_argv new_replyv is_pointer elem_type takes_reply
    passes assignable same_type same_kind value_type str_beq
packed = refl

abbrev count_words : MethodInfo
count_words = record sum { reply_type = composite pointer [] [] (composite map_kind [] [] builtin) }

calls_safely_iff_example :
    ((argv : Value) × ((new_argv count_words.arg_type ≡ some argv)
        × ((u : TypeInfo) × (body_target argv ≡ pointer_to u))))
    × ((calls_safely implements count_words ≡ true) ↔ (is_allowed implements count_words ≡ true))
calls_safely_iff_example = calls_safely_iff implements count_words (λ t k a p u. refl)
