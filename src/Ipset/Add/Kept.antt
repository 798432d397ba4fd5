-- ===== src/Ipset/Add/Kept.antt =====
-- `ipset_add_ip` of src/ipset.c: what the context holds behind it.
use chinadns_ng.Prelude.{
  ℕ, ◌<◌, ◌≡◌, ◌⊎◌, Bool, true, false, ◌&&◌, Option, none, some, List, [], ◌∷◌, ◌++◌, length, ◌>>=◌,
}
use chinadns_ng.Prelude.Words.{Bytes}
use chinadns_ng.Ipset.{ip_n}
use chinadns_ng.Ipset.Context.{Addctx}
use chinadns_ng.Ipset.Add.{ipset_end_add_ip, ipset_add_ip}
use chinadns_ng.Ipset.Batch.{Datagram, Received, add_to_side, in_blacklist, side_of, with_side}
use chinadns_ng.Ipset.Add.Sides.{Shape, IsCtx, nothing_held}

-- One address more for a family.
abbrev pub one_more : (Bool → List Bytes) → Bool → Bytes → Bool → List Bytes
one_more ips true ip true = ips true ++ ip ∷ []
one_more ips true ip false = ips false
one_more ips false ip true = ips true
one_more ips false ip false = ips false ++ ip ∷ []

module _ {S : Type 0} where
  module _ (sendmmsg : List Datagram → S → Option ℕ × S) (recvmmsg : ℕ → S → Received × S)
      (is_ipset : Bool) (portid : ℕ) (shapes : Bool → Option Shape) (ips : Bool → List Bytes)
      (ctx : Addctx) (w : IsCtx is_ipset shapes ips ctx) where
    -- `ipset_add_ip` past its guards.
    abbrev added_to : Option (Addctx × S) → Bytes → Bool → Option (Addctx × S)
    added_to flushed ip v4 = flushed >>= λ (ctx', s').
        add_to_side is_ipset (side_of ctx' v4) v4 ip >>= λ side. some (with_side ctx' v4 side, s')

    -- What `ipset_add_ip` does: nothing, where the family has no set or the address is refused; the
    -- address is held, where there is room; or the context is flushed and then holds this address.
    abbrev pub IsAdding : Bool → Bytes → Bool → S → Type 0
    IsAdding ipset_blacklist ip v4 s =
        let r = ipset_add_ip sendmmsg recvmmsg is_ipset portid ipset_blacklist ctx ip v4 s in
        let flushed = ipset_end_add_ip sendmmsg recvmmsg is_ipset portid ctx s in
        (((shapes v4 ≡ none) ⊎ ((ipset_blacklist && in_blacklist ip v4) ≡ true))
          × (r ≡ some (ctx, s)))
        ⊎ ((length (ips v4) < ip_n)
            × ((ctx' : Addctx) × (r ≡ some (ctx', s))
                × IsCtx is_ipset shapes (one_more ips v4 ip) ctx'))
        ⊎ ((length (ips v4) ≡ ip_n)
            × (((flushed ≡ none) × (r ≡ none))
                ⊎ ((ctx1 : Addctx) × (s1 : S) × (ctx' : Addctx) × (flushed ≡ some (ctx1, s1))
                    × (r ≡ some (ctx', s1))
                    × IsCtx is_ipset shapes (one_more nothing_held v4 ip) ctx')))
