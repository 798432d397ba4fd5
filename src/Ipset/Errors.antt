-- ===== src/Ipset/Errors.antt =====
-- src/ipset.c: `ipset_strerror`. The texts of other errors are those of `strerror`, a parameter.
use Prim.Native.String.{String}
use chinadns_ng.Prelude.{ℕ, List, [], ◌∷◌, ◌==◌, if◌then◌else◌}

-- The cases of the switch: the error codes of ipset and their names.
abbrev pub ipset_errors : List (ℕ × String)
ipset_errors =
    (4097, "IPSET_ERR_PROTOCOL")
    ∷ (4098, "IPSET_ERR_FIND_TYPE")
    ∷ (4099, "IPSET_ERR_MAX_SETS")
    ∷ (4100, "IPSET_ERR_BUSY")
    ∷ (4101, "IPSET_ERR_EXIST_SETNAME2")
    ∷ (4102, "IPSET_ERR_TYPE_MISMATCH")
    ∷ (4103, "IPSET_ERR_EXIST")
    ∷ (4104, "IPSET_ERR_INVALID_CIDR")
    ∷ (4105, "IPSET_ERR_INVALID_NETMASK")
    ∷ (4106, "IPSET_ERR_INVALID_FAMILY")
    ∷ (4107, "IPSET_ERR_TIMEOUT")
    ∷ (4108, "IPSET_ERR_REFERENCED")
    ∷ (4109, "IPSET_ERR_IPADDR_IPV4")
    ∷ (4110, "IPSET_ERR_IPADDR_IPV6")
    ∷ (4111, "IPSET_ERR_COUNTER")
    ∷ (4112, "IPSET_ERR_COMMENT")
    ∷ (4113, "IPSET_ERR_INVALID_MARKMASK")
    ∷ (4114, "IPSET_ERR_SKBINFO")
    ∷ (4115, "IPSET_ERR_BITMASK_NETMASK_EXCL")
    ∷ (4352, "IPSET_ERR_HASH_FULL")
    ∷ (4353, "IPSET_ERR_HASH_ELEM")
    ∷ (4354, "IPSET_ERR_INVALID_PROTO")
    ∷ (4355, "IPSET_ERR_MISSING_PROTO")
    ∷ (4356, "IPSET_ERR_HASH_RANGE_UNSUPPORTED")
    ∷ (4357, "IPSET_ERR_HASH_RANGE")
    ∷ []

unfoldable pub find_error : (ℕ → String) → List (ℕ × String) → ℕ → String
find_error strerror [] errcode = strerror errcode
find_error strerror ((code, name) ∷ errors) errcode =
    let rest = find_error strerror errors errcode in if errcode == code then name else rest

unfoldable pub ipset_strerror : (ℕ → String) → ℕ → String
ipset_strerror strerror errcode = find_error strerror ipset_errors errcode
