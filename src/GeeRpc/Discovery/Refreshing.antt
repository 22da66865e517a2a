-- ===== src/GeeRpc/Discovery/Refreshing.antt =====
-- What a client reads from the header is what the registry listed.
use distributed_study.Common.{
  ℕ, ◌+◌, ◌≤◌, ◌≡◌, ◌≢◌, ◌∙◌, refl, ap, Str, str_key, str_beq, str_beq_iff, none, List, [], ◌∷◌,
  ◌++◌, false, All, nat_beq, arith, join, split, is_space, trim_left, trim_right, trim_space,
}
use distributed_study.GeeRpc.Registry.{Registry, get, alive_servers, serve_http}
use distributed_study.GeeRpc.Discovery.{GeeRegistryDiscovery, ok, keep_named, refresh}

abbrev pub HasNo : ℕ → Str → Type 0
HasNo sep = All (λ b. nat_beq b sep ≡ false)

-- An address: not empty, and with no comma and no space.
abbrev pub IsAddr : Str → Type 0
IsAddr s = (s ≢ []) × HasNo b',' s × All (λ b. is_space b ≡ false) s

split-one : (sep : ℕ) (s : Str) → HasNo sep s → split sep s ≡ s ∷ []
unfolding split
split-one sep [] h = refl
split-one sep (b ∷ s) h = ground (arith, split-one sep s)

split-append : (sep : ℕ) (s t : Str) → HasNo sep s → split sep (s ++ sep ∷ t) ≡ s ∷ split sep t
unfolding split
split-append sep [] t h = ground arith
split-append sep (b ∷ s) t h = ground (arith, split-append sep s t)

-- `strings.Split` undoes `strings.Join`, if there is a piece and the separator is in none.
split-join :
    (sep : ℕ) (s : Str) (l : List Str)
    → HasNo sep s
    → All (HasNo sep) l
    → split sep (join sep (s ∷ l)) ≡ s ∷ l
unfolding join
split-join sep s [] h hs = split-one sep s h
split-join sep s (t ∷ l) h hs =
    split-append sep s (join sep (t ∷ l)) h ∙ ap (◌∷◌ s) (split-join sep t l hs.0 hs.1)

trim_right_none : (s : Str) → All (λ b. is_space b ≡ false) s → trim_right s ≡ s
unfolding trim_right
trim_right_none [] h = refl
trim_right_none (b ∷ []) h = ground arith
trim_right_none (b ∷ c ∷ s) h = let e = trim_right_none (c ∷ s) h.1 in rw e refl

trim_space_none : (s : Str) → All (λ b. is_space b ≡ false) s → trim_space s ≡ s
unfolding trim_space trim_left
trim_space_none [] h = trim_right_none [] h
trim_space_none (b ∷ s) h = let e = trim_right_none (b ∷ s) h in ground arith

keep_named_addrs : (l : List Str) → All IsAddr l → keep_named l ≡ l
unfolding keep_named
keep_named_addrs [] h = refl
keep_named_addrs (s ∷ l) h = ground (
  arith,
  trim_space_none s h.0.2,
  str_beq_iff s [],
  str_beq_iff (trim_space s) [],
  keep_named_addrs l,
  h.0.0,
)

addrs_have_no_comma : (l : List Str) → All IsAddr l → All (HasNo b',') l
addrs_have_no_comma [] h = tt
addrs_have_no_comma (s ∷ l) h = (h.0.1, addrs_have_no_comma l h.1)

keep_named-split-join : (l : List Str) → All IsAddr l → keep_named (split b',' (join b',' l)) ≡ l
keep_named-split-join [] h =
    unfold join split keep_named trim_space trim_left trim_right str_beq in refl
keep_named-split-join (s ∷ l) h =
    ap keep_named (split-join b',' s l h.0.1 (addrs_have_no_comma l h.1))
    ∙ keep_named_addrs (s ∷ l) h

-- A client whose list is out of date gets from a registry's answer to GET exactly the servers
-- that the registry lists, in that order, if their addresses are not empty and have neither
-- commas nor spaces.
pub refresh-serve_http :
    (now then_on : ℕ) (addr : Str) (r : Registry) (d : GeeRegistryDiscovery)
    → All IsAddr (alive_servers now r).0
    → d.last_update + d.timeout ≤ then_on
    → refresh then_on (ok (serve_http now get addr r).0.servers_header) d ≡ (
      none,
      record d {
        multi = record (d.multi) { servers = (alive_servers now r).0 };
        last_update = then_on;
      },
    )
unfolding refresh serve_http
refresh-serve_http now then_on addr r d h late =
    ground (arith, keep_named-split-join (alive_servers now r).0 h)
