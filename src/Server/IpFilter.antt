-- ===== src/Server/IpFilter.antt =====
-- pkg/erserver/ipfilter.go: access control by source address. Addresses and prefixes are those of
-- package net/netip, whose Contains is modelled; its parsers, the HCL decoder and
-- sliceutil.ContainsString are parameters.
pub mod Laws
use edgerouter.Base.{
  ℕ, ◌-◌, ◌/◌, ◌^◌, Str, bytes, Bool, true, false, ◌&&◌, List, [], ◌∷◌, ◌++◌, Option, none, some,
  Result, ok, err, panic, ◌>>=◌, find, eqb, if◌then◌else◌,
}
use edgerouter.Config.Validate.{is_empty}

-- netip.Addr: the address as a number, with the zone of an IPv6 address.
pub data Addr : Type 0 where
  v4 : ℕ → Addr
  v6 : ℕ → (zone : Str) → Addr

-- netip.Prefix, as ParsePrefix makes it: the number of bits is at most the address's length.
pub record Prefix : Type 0 where
  pub ip : Addr
  pub bits : ℕ

abbrev same_top : Addr → Addr → ℕ → Bool
same_top (v4 a) (v4 b) bits = eqb (a / 2 ^ (32 - bits)) (b / 2 ^ (32 - bits))
same_top (v6 a z) (v6 b y) bits = is_empty y && eqb (a / 2 ^ (128 - bits)) (b / 2 ^ (128 - bits))
same_top (v4 a) (v6 b y) bits = false
same_top (v6 a z) (v4 b) bits = false

-- p.Contains(ip)
unfoldable pub prefix_contains : Prefix → Addr → Bool
prefix_contains p ip = same_top p.ip ip p.bits

pub record IpRule : Type 0 where
  pub ip_prefix : Prefix
  pub allowed_app_ids : List Str

-- The element type of the two lists of the rules file.
pub record AllowAllItem : Type 0 where
  pub prefix : Str

pub record AllowOnlyItem : Type 0 where
  pub prefix : Str
  pub apps : List Str

pub record IpRulesConfig : Type 0 where
  pub allow_all_apps : List AllowAllItem
  pub allow_only_apps : List AllowOnlyItem

-- What os.Open gives for the rules file.
pub data Opened : Type 0 where
  content : Str → Opened
  not_exist : Opened
  open_error : Str → Opened

unfoldable pub rule_for_ip : Addr → List IpRule → Option IpRule
rule_for_ip ip rules = find (λ rule. prefix_contains rule.ip_prefix ip) rules

unfoldable pub allow_only_apps : Prefix → Str → List Str → IpRule
allow_only_apps prefix app1 app_n = record { ip_prefix = prefix; allowed_app_ids = app1 ∷ app_n }

unfoldable pub allow_all_apps : Prefix → IpRule
allow_all_apps prefix = record { ip_prefix = prefix; allowed_app_ids = [] }

module _ (contains_string : List Str → Str → Bool) where
  unfoldable pub allows_app : IpRule → Str → Bool
  allows_app rule app_to_access =
      if is_empty rule.allowed_app_ids
      then true
      else contains_string rule.allowed_app_ids app_to_access

  module _ (addr_text : Addr → Str) where
    abbrev pub deny : Addr → Str → Bool × Str
    deny ip reason =
        (false, bytes "your IP (" ++ (addr_text ip ++ (bytes ") is not allowed " ++ reason)))

    abbrev pub allowed_by : Addr → Str → Option IpRule → Bool × Str
    allowed_by ip app_to_access none = deny ip (bytes "(implicit deny)")
    allowed_by ip app_to_access (some rule) =
        if allows_app rule app_to_access then (true, []) else deny ip (bytes "(explicit deny)")

    unfoldable pub ip_allowed_internal : Addr → Str → List IpRule → Bool × Str
    unfolding rule_for_ip allows_app
    ip_allowed_internal ip app_to_access rules = allowed_by ip app_to_access (rule_for_ip ip rules)

    -- `parse_addr_port` gives the address of netip.ParseAddrPort.
    module _ (parse_addr_port : Str → Result Addr) where
      abbrev pub allowed_parsed : Result Addr → Str → List IpRule → Bool × Str
      allowed_parsed (ok ip) app_to_access rules = ip_allowed_internal ip app_to_access rules
      allowed_parsed (err e) app_to_access rules = (false, bytes "invalid IP: " ++ e)
      allowed_parsed panic app_to_access rules = (false, [])

      unfoldable pub ip_allowed : Str → Str → List IpRule → Bool × Str
      unfolding ip_allowed_internal
      ip_allowed ip_and_port app_to_access rules =
          if is_empty rules
          then (true, [])
          else allowed_parsed (parse_addr_port ip_and_port) app_to_access rules

-- `parse_prefix` is netip.ParsePrefix, `unmarshal_hcl` the decoding of the rules file.
module _ (parse_prefix : Str → Result Prefix) where
  abbrev pub or_panic : Result Prefix → Result Prefix
  or_panic (ok p) = ok p
  or_panic (err e) = panic
  or_panic panic = panic

  unfoldable pub must_parse_prefix : Str → Result Prefix
  must_parse_prefix raw_prefix = or_panic (parse_prefix raw_prefix)

  unfoldable pub add_allow_all : List IpRule → List AllowAllItem → Result (List IpRule)
  unfolding must_parse_prefix
  add_allow_all rules [] = ok rules
  add_allow_all rules (item ∷ items) = do
    prefix ← must_parse_prefix item.prefix
    add_allow_all (rules ++ allow_all_apps prefix ∷ []) items

  -- `allowSpecified.Apps[0]` panics on an empty list.
  abbrev pub rule_of_apps : Prefix → List Str → Result IpRule
  rule_of_apps prefix [] = panic
  rule_of_apps prefix (app1 ∷ app_n) = ok (allow_only_apps prefix app1 app_n)

  unfoldable pub add_allow_only : List IpRule → List AllowOnlyItem → Result (List IpRule)
  unfolding must_parse_prefix
  add_allow_only rules [] = ok rules
  add_allow_only rules (item ∷ items) = do
    prefix ← must_parse_prefix item.prefix
    rule ← rule_of_apps prefix item.apps
    add_allow_only (rules ++ rule ∷ []) items

  module _ (unmarshal_hcl : Str → Result IpRulesConfig) where
    unfoldable pub parse_hcl_rules : Str → Result (List IpRule)
    unfolding add_allow_all add_allow_only
    parse_hcl_rules text = do
      conf ← unmarshal_hcl text
      rules ← add_allow_all [] conf.allow_all_apps
      rules' ← add_allow_only rules conf.allow_only_apps
      if is_empty rules' then err (bytes "empty IP rules file") else ok rules'

    unfoldable pub load_ip_rules : Opened → Result (List IpRule)
    unfolding parse_hcl_rules
    load_ip_rules (content text) = parse_hcl_rules text
    load_ip_rules not_exist = ok []
    load_ip_rules (open_error e) = err e
