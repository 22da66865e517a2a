-- ===== src/GeeRpc/Debug/Counting.antt =====
-- The page counts the calls.
use distributed_study.Common.{
  ℕ, ◌+◌, ◌%◌, ◌^◌, ◌<◌, ◌≡◌, ◌∙◌, ap, refl, sym, Str, Dict, lookup, insert, lookup-insert, Option,
  some, ◌>>=◌, List, [], ◌∷◌, ◌&&◌, ◌==◌, nat_key, str_key, str_beq_iff, if◌then◌else◌, arith,
  Option-cases, Bool-cases, inl, inr,
}
use distributed_study.GeeRpc.Service
use distributed_study.GeeRpc.Service.{Service, MethodType, MethodInfo}
use distributed_study.GeeRpc.Server.{Server}
use distributed_study.GeeRpc.Debug.{debug_services, call_method, call_methods, listed_calls}

-- How often a method stands in a list of calls.
unfoldable pub times : Str → Str → List (Str × Str) → ℕ
times s m [] = 0
times s m ((service_name, method_name) ∷ calls) =
    let rest = times s m calls in if service_name == s && method_name == m then rest + 1 else rest

-- The count of a method.
counted : Str → Str → Dict Str Service → Option ℕ
counted s m services = do
  svc ← lookup s services
  mtype ← lookup m svc.methods
  some mtype.num_calls

listed_counted :
    (s m : Str) (services : Dict Str Service)
    → listed_calls s m (debug_services services) ≡ counted s m services
unfolding listed_calls debug_services counted lookup
listed_counted s m [] = refl
listed_counted s m ((k, svc) ∷ rest) = ground (arith, listed_counted s m rest)

call_method_counts :
    (invoke : MethodInfo → Option Str) (service_name method_name s m : Str) (server : Server)
    (n : ℕ)
    → counted s m server.service_map ≡ some n
    → counted s m (call_method invoke service_name method_name server).service_map
      ≡ some (if service_name == s && method_name == m then (n + 1) % 2 ^ 64 else n)
unfolding call_method Service.call counted
call_method_counts invoke service_name method_name s m server n e =
    elim (Option-cases (lookup service_name server.service_map)) [
      | inl absent ↦ ground (arith, str_beq_iff service_name s)
      | inr (svc, there) ↦ elim (Option-cases (lookup method_name svc.methods)) [
        | inl missing ↦ ground (arith, str_beq_iff service_name s, str_beq_iff method_name m)
        | inr (mtype, found) ↦
            let counted_more : MethodType = record mtype {
              num_calls = (mtype.num_calls + 1) % 2 ^ 64;
            } in
            let svc' : Service = record svc {
              methods = insert method_name counted_more svc.methods;
            } in
            ground (
              arith,
              str_beq_iff service_name s,
              str_beq_iff method_name m,
              lookup-insert service_name s svc' server.service_map,
              lookup-insert method_name m counted_more svc.methods,
            )
      ]
    ]

-- Whatever is called, the page has for each method that is registered the number of calls before
-- and of the calls made of it, modulo 2^64.
pub listed_calls_lem :
    (invoke : MethodInfo → Option Str) (calls : List (Str × Str)) (s m : Str) (server : Server)
    (n : ℕ)
    → n < 2 ^ 64
    → listed_calls s m (debug_services server.service_map) ≡ some n
    → listed_calls s m (debug_services (call_methods invoke calls server).service_map)
      ≡ some ((n + times s m calls) % 2 ^ 64)
unfolding call_methods times
listed_calls_lem invoke [] s m server n h e = e ∙ ap some (omega arith)
listed_calls_lem invoke ((service_name, method_name) ∷ calls) s m server n h e =
    let now = sym (listed_counted s m server.service_map) ∙ e in
    let after = call_method_counts invoke service_name method_name s m server n now in
    let server' = call_method invoke service_name method_name server in
    elim (Bool-cases (service_name == s && method_name == m)) [
      | inl it ↦
          listed_calls_lem invoke calls s m server' ((n + 1) % 2 ^ 64) (omega arith)
            (listed_counted s m server'.service_map ∙ (after ∙ rw it refl))
          ∙ rw it (ap some (omega arith))
      | inr other ↦
          listed_calls_lem invoke calls s m server' n h
            (listed_counted s m server'.service_map ∙ (after ∙ rw other refl))
          ∙ rw other refl
    ]
