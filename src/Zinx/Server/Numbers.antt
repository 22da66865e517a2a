-- ===== src/Zinx/Server/Numbers.antt =====
-- The numbers of the connections.
use distributed_study.Common.{
  ℕ, zero, suc, ◌+◌, ◌%◌, ◌^◌, ◌<◌, ◌≡◌, ◌∙◌, ap, some, List, [], ◌∷◌, Bool, true, false, length,
  get_elem?, arith,
}
use distributed_study.Zinx.Connection.{new_connection}
use distributed_study.Zinx.Server.{accept_from}

-- The i-th connection of the accept loop has the number i more than the first, modulo 2^32.
get_elem-accept_from :
    (accepts : List Bool) (cid i : ℕ)
    → cid < 2 ^ 32
    → i < length (accept_from cid accepts)
    → get_elem? (accept_from cid accepts) i ≡ some (new_connection ((cid + i) % 2 ^ 32))
unfolding accept_from
get_elem-accept_from [] cid i small h = absurd (omega arith)
get_elem-accept_from (false ∷ rest) cid i small h = get_elem-accept_from rest cid i small h
get_elem-accept_from (true ∷ rest) cid zero small h =
    ap (λ (n : ℕ). some (new_connection n)) (omega arith)
get_elem-accept_from (true ∷ rest) cid (suc i) small h =
    get_elem-accept_from rest ((cid + 1) % 2 ^ 32) i (omega arith) (omega arith)
    ∙ ap (λ (n : ℕ). some (new_connection n)) (omega arith)
