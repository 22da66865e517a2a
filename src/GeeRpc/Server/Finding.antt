-- ===== src/GeeRpc/Server/Finding.antt =====
-- What the server finds for a request.
use distributed_study.Common.{
  ℕ, suc, ◌+◌, ◌≡◌, refl, Str, lookup, insert, lookup-insert, none, some, [], ◌∷◌, ◌++◌, length,
  false, ◌==◌, nat_key, str_key, str_beq, str_beq_iff, drop, take-length-append, has_byte, arith,
  Bool-cases, inl, inr,
}
use distributed_study.GeeRpc.Service.{Service, MethodType}
use distributed_study.GeeRpc.Server.{
  ill_formed, Server, register, last_index, found, failed, find_service, load_method,
}

last_index-none : (b : ℕ) (s : Str) → has_byte b s ≡ false → last_index b s ≡ none
unfolding has_byte last_index
last_index-none b [] h = refl
last_index-none b (c ∷ s) h = elim (Bool-cases (c == b)) [
  | inl e ↦ ground arith
  | inr e ↦ let rest = last_index-none b s (ground arith) in ground arith
]

last_index-append :
    (b : ℕ) (s t : Str) → has_byte b t ≡ false → last_index b (s ++ b ∷ t) ≡ some (length s)
unfolding last_index
last_index-append b [] t h = let rest = last_index-none b t h in ground arith
last_index-append b (c ∷ s) t h = let rest = last_index-append b s t h in ground arith

drop-suc-append : (s t : Str) (b : ℕ) → drop (suc (length s)) (s ++ b ∷ t) ≡ t
drop-suc-append [] t b = refl
drop-suc-append (c ∷ s) t b = drop-suc-append s t b

drop-suc_length : (s t : Str) (b : ℕ) → drop (length s + 1) (s ++ b ∷ t) ≡ t
drop-suc_length s t b =
    let e : length s + 1 ≡ suc (length s) = omega arith in rw e (drop-suc-append s t b)

-- A request is split at its last dot: a service, a dot and a method without a dot find what the
-- server has under the two, and a request without a dot is ill formed.
find_service_splits :
    (service method : Str) (server : Server)
    → has_byte b'.' method ≡ false
    → (find_service (service ++ b'.' ∷ method) server ≡ load_method service method server)
      × (find_service method server ≡ failed (ill_formed method))
unfolding find_service
find_service_splits service method server h =
    let at = last_index-append b'.' service method h in
    let no = last_index-none b'.' method h in
    let front = take-length-append service (b'.' ∷ method) in
    let behind = drop-suc_length service method b'.' in
    (rw (find_service, at, front, behind) refl, rw (find_service, no) refl)

-- Once a service is registered under a new name, its methods are found: a method's name without a
-- dot, behind the service's name and a dot, finds the service and the method. The services under
-- other names are found as before.
find_service-register :
    (s : Service) (server : Server) (method other : Str) (mtype : MethodType)
    → has_byte b'.' method ≡ false
    → lookup s.name server.service_map ≡ none
    → lookup method s.methods ≡ some mtype
    → str_beq s.name other ≡ false
    → ((register s server).0 ≡ none)
      × (find_service (s.name ++ b'.' ∷ method) (register s server).1 ≡ found s mtype)
      × (find_service (other ++ b'.' ∷ method) (register s server).1
          ≡ find_service (other ++ b'.' ∷ method) server)
unfolding register load_method
find_service-register s server method other mtype h new has differs =
    let after : Server = record { service_map = insert s.name s server.service_map } in
    let own = find_service_splits s.name method after h in
    let others = find_service_splits other method after h in
    let before = find_service_splits other method server h in
    let same = lookup-insert s.name s.name s server.service_map in
    let apart = lookup-insert s.name other s server.service_map in
    let is_own = str_beq_iff s.name s.name in ground arith
