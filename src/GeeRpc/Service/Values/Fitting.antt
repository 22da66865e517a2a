-- ===== src/GeeRpc/Service/Values/Fitting.antt =====
-- Which methods can be called with the values that are made for them.
use distributed_study.Common.{
  ◌≡◌, ◌↔◌, ◌∙◌, ap, Bool, Bool-cases, ◌||◌, if◌then◌else◌, Option-cases, inl, inr, sym, refl, Str,
  none, some, [], true, false, str_key, str_beq_iff, arith,
}
use mathlib.Core.Path.{subst}
use distributed_study.GeeRpc.Service.{
  pointer, map_kind, slice, array, chan, TypeInfo, plain, composite, Kind, MethodInfo,
}
use distributed_study.GeeRpc.Service.Values.{
  Value, pointer_to, addressed, value_type, is_pointer, elem_type, new_argv, body_target,
  new_replyv, same_kind, same_type, assignable, make_values, passes, takes_reply, calls_safely,
}

same_type_refl : (t : TypeInfo) → same_type t t ≡ true
unfolding same_type same_kind
same_type_refl (plain a p) = ground (arith, str_beq_iff a a, str_beq_iff p p)
same_type_refl (composite pointer a p t) =
    ground (arith, str_beq_iff a a, str_beq_iff p p, same_type_refl t)
same_type_refl (composite map_kind a p t) =
    ground (arith, str_beq_iff a a, str_beq_iff p p, same_type_refl t)
same_type_refl (composite slice a p t) =
    ground (arith, str_beq_iff a a, str_beq_iff p p, same_type_refl t)
same_type_refl (composite array a p t) =
    ground (arith, str_beq_iff a a, str_beq_iff p p, same_type_refl t)
same_type_refl (composite chan a p t) =
    ground (arith, str_beq_iff a a, str_beq_iff p p, same_type_refl t)

assignable_refl : (t : TypeInfo) → assignable t t ≡ true
unfolding assignable same_kind
assignable_refl (plain a p) = same_type_refl (plain a p)
assignable_refl (composite pointer a p t) =
    ground (arith, str_beq_iff a a, str_beq_iff p p, same_type_refl t)
assignable_refl (composite map_kind a p t) =
    ground (arith, str_beq_iff a a, str_beq_iff p p, same_type_refl t)
assignable_refl (composite slice a p t) =
    ground (arith, str_beq_iff a a, str_beq_iff p p, same_type_refl t)
assignable_refl (composite array a p t) =
    ground (arith, str_beq_iff a a, str_beq_iff p p, same_type_refl t)
assignable_refl (composite chan a p t) =
    ground (arith, str_beq_iff a a, str_beq_iff p p, same_type_refl t)

-- A pointer without a name can be passed as any pointer to the same.
assignable-pointer :
    (a p : Str) (t : TypeInfo)
    → assignable (composite pointer [] [] t) (composite pointer a p t) ≡ true
unfolding assignable same_kind
assignable-pointer a p t = ground (arith, str_beq_iff [] [], same_type_refl t)

-- A value can be made for an argument of any type, it can be passed as the argument, and the decoder
-- is handed a pointer to it.
Fits : TypeInfo → Type 0
Fits t =
    (argv : Value) × ((new_argv t ≡ some argv)
      × ((assignable (value_type argv) t ≡ true)
          × ((u : TypeInfo) × (body_target argv ≡ pointer_to u))))

argv-Fits : (t : TypeInfo) → Fits t
unfolding Fits new_argv is_pointer elem_type value_type body_target
argv-Fits (plain a p) =
    (addressed (plain a p), (refl, (assignable_refl (plain a p), (plain a p, refl))))
argv-Fits (composite pointer a p t) = (pointer_to t, (refl, (assignable-pointer a p t, (t, refl))))
argv-Fits (composite map_kind a p t) =
    (addressed _, (refl, (assignable_refl (composite map_kind a p t), (_, refl))))
argv-Fits (composite slice a p t) =
    (addressed _, (refl, (assignable_refl (composite slice a p t), (_, refl))))
argv-Fits (composite array a p t) =
    (addressed _, (refl, (assignable_refl (composite array a p t), (_, refl))))
argv-Fits (composite chan a p t) =
    (addressed _, (refl, (assignable_refl (composite chan a p t), (_, refl))))

-- The argument and the reply can be made exactly if the reply's type has an element type.
pub make_values-some :
    (m : MethodInfo) (u : TypeInfo)
    → elem_type m.reply_type ≡ some u
    → (argv : Value) × ((make_values m ≡ some (argv, pointer_to u))
        × (assignable (value_type argv) m.arg_type ≡ true))
unfolding Fits make_values new_replyv
make_values-some m u e =
    let (argv, (made, (fits, target))) = argv-Fits m.arg_type in
    (argv, (rw (make_values, made) (rw e refl), fits))

pub make_values-none : (m : MethodInfo) → elem_type m.reply_type ≡ none → make_values m ≡ none
unfolding Fits make_values new_replyv
make_values-none m e =
    let (argv, (made, _)) = argv-Fits m.arg_type in rw (make_values, made) (rw e refl)

no_elem-is_pointer : (t : TypeInfo) → elem_type t ≡ none → is_pointer t ≡ false
unfolding elem_type is_pointer
no_elem-is_pointer (plain a p) e = refl
no_elem-is_pointer (composite k a p t) e = ground arith

-- No type that is written out is an interface that others implement.
abbrev pub AreInterfaces : (TypeInfo → TypeInfo → Bool) → Type 0
AreInterfaces implements =
    (t : TypeInfo) (k : Kind) (a p : Str) (u : TypeInfo) → implements t (composite k a p u) ≡ false

module _ (implements : TypeInfo → TypeInfo → Bool) (m : MethodInfo) where
  calls_safely-takes_reply :
      (u : TypeInfo)
      → elem_type m.reply_type ≡ some u
      → calls_safely implements m ≡ takes_reply implements m (composite pointer [] [] u)
  unfolding calls_safely value_type passes
  calls_safely-takes_reply u e =
      let (argv, (made, fits)) = make_values-some m u e in rw (calls_safely, made) (rw fits refl)

  calls_safely_unmade : elem_type m.reply_type ≡ none → calls_safely implements m ≡ false
  unfolding calls_safely
  calls_safely_unmade e = rw (calls_safely, make_values-none m e) refl

  passes-pointer :
      AreInterfaces implements
      → (t u : TypeInfo) → elem_type t ≡ some u
      → passes implements (composite pointer [] [] u) t ≡ is_pointer t
  unfolding passes elem_type is_pointer assignable same_kind
  passes-pointer only (plain a p) u e = ground arith
  passes-pointer only (composite pointer a p t) u e =
      let same : t ≡ u = ground arith in
      subst (λ v. passes implements (composite pointer [] [] v) (composite pointer a p t) ≡ true)
        same
        (ap (λ b. b || implements (composite pointer [] [] t) (composite pointer a p t))
          (assignable-pointer a p t))
  passes-pointer only (composite map_kind a p t) u e =
      ground (arith, only (composite pointer [] [] u) map_kind a p t)
  passes-pointer only (composite slice a p t) u e =
      ground (arith, only (composite pointer [] [] u) slice a p t)
  passes-pointer only (composite array a p t) u e =
      ground (arith, only (composite pointer [] [] u) array a p t)
  passes-pointer only (composite chan a p t) u e =
      ground (arith, only (composite pointer [] [] u) chan a p t)

  calls_safely-is_pointer :
      AreInterfaces implements
      → m.is_variadic ≡ false
      → calls_safely implements m ≡ is_pointer m.reply_type
  unfolding takes_reply is_pointer elem_type
  calls_safely-is_pointer only fixed = elim (Option-cases (elem_type m.reply_type)) [
    | inl no_elem ↦ calls_safely_unmade no_elem ∙ sym (no_elem-is_pointer m.reply_type no_elem)
    | inr (u, e) ↦
        calls_safely-takes_reply u e
        ∙ (rw (takes_reply, fixed) refl ∙ passes-pointer only m.reply_type u e)
  ]

  calls_safely_variadic :
      (u : TypeInfo)
      → m.is_variadic ≡ true
      → elem_type m.reply_type ≡ some u
      → calls_safely implements m ≡ passes implements (composite pointer [] [] u) u
  unfolding takes_reply
  calls_safely_variadic u packs e =
      calls_safely-takes_reply u e ∙ rw (takes_reply, packs) (rw e refl)

pub calls_safely-elem_type :
    (implements : TypeInfo → TypeInfo → Bool) (m : MethodInfo)
    → calls_safely implements m ≡ true
    → (u : TypeInfo) × (elem_type m.reply_type ≡ some u)
calls_safely-elem_type implements m safe = elim (Option-cases (elem_type m.reply_type)) [
  | inl no_elem ↦
      let not_safe : false ≡ true = sym (calls_safely_unmade implements m no_elem) ∙ safe in
      ground arith
  | inr has ↦ has
]

-- What a reply's type must be: a pointer, or, where the method is variadic, a list of what a pointer
-- to such can be passed as.
unfoldable pub is_allowed : (TypeInfo → TypeInfo → Bool) → MethodInfo → Bool
is_allowed implements m =
    if m.is_variadic
    then elim (elem_type m.reply_type) [
      | none ↦ false
      | some u ↦ passes implements (composite pointer [] [] u) u
    ]
    else is_pointer m.reply_type

calls_safely-is_allowed :
    (implements : TypeInfo → TypeInfo → Bool) (m : MethodInfo)
    → AreInterfaces implements
    → calls_safely implements m ≡ is_allowed implements m
unfolding is_allowed
calls_safely-is_allowed implements m only = elim (Bool-cases m.is_variadic) [
  | inr fixed ↦ calls_safely-is_pointer implements m only fixed ∙ sym (rw (is_allowed, fixed) refl)
  | inl packs ↦ elim (Option-cases (elem_type m.reply_type)) [
    | inl no_elem ↦
        calls_safely_unmade implements m no_elem ∙ sym (rw (is_allowed, packs) (rw no_elem refl))
    | inr (u, e) ↦
        calls_safely_variadic implements m u packs e ∙ sym (rw (is_allowed, packs) (rw e refl))
  ]
]

-- The decoder is handed a pointer to a new variable for the argument, whatever its type. Making
-- the values and the call with them do not panic exactly if the type of the reply is a pointer,
-- or, where the method is variadic, if a pointer to an element of its last parameter can be
-- passed as such an element. No type that is written out is an interface that others implement.
pub calls_safely_iff :
    (implements : TypeInfo → TypeInfo → Bool) (m : MethodInfo)
    → AreInterfaces implements
    → ((argv : Value) × ((new_argv m.arg_type ≡ some argv)
          × ((u : TypeInfo) × (body_target argv ≡ pointer_to u))))
      × ((calls_safely implements m ≡ true) ↔ (is_allowed implements m ≡ true))
unfolding Fits
calls_safely_iff implements m only =
    let (argv, (made, (fits, target))) = argv-Fits m.arg_type in
    let same = calls_safely-is_allowed implements m only in
    ((argv, (made, target)), (λ e. sym same ∙ e, λ e. same ∙ e))
