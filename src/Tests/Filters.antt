-- ===== src/Tests/Filters.antt =====
-- Runs of pkg/erserver/ipfilter.go and hostregexp.go.
use edgerouter.Base.{
  ◌⊎◌, ◌≡◌, ◌≢◌, refl, ◌↔◌, ◌⊎◌, Str, bytes, ◌==◌, Bool, true, false, List, [], ◌∷◌, ◌++◌, none,
  Result, ok, err, panic, Each,
}
use edgerouter.Server.IpFilter.{
  Addr, Prefix, IpRule, AllowAllItem, AllowOnlyItem, IpRulesConfig, Opened, not_exist, content,
  ip_allowed, parse_hcl_rules, load_ip_rules, prefix_contains,
}
use edgerouter.Server.IpFilter.Laws.{
  Decides, Grants, FromAllowAll, FromAllowOnly, ip_allowed_iff, load_ip_rules-ok,
}
use edgerouter.Server.HostRegexp.{escape_regex_chars, replace_placeholders, hostname_regexp_syntax}
use edgerouter.Server.HostRegexp.Laws.{replace-escape}
use edgerouter.Tests.Sample.{contains_string, contains_string_iff}

abbrev no_text : Addr → Str
no_text ip = []

-- Addresses of one byte.
abbrev one_byte : Str → Result Addr
one_byte (c ∷ []) = ok (Addr.v4 c)
one_byte s = err (bytes "not an address")

abbrev rules : List IpRule
rules =
    record {
      ip_prefix = record { ip = Addr.v4 64; bits = 30 };
      allowed_app_ids = bytes "shop" ∷ [];
    }
    ∷ record { ip_prefix = record { ip = Addr.v4 0; bits = 24 }; allowed_app_ids = [] }
    ∷ []

abbrev is_let_through : Str → Str → Bool
is_let_through ip app = (ip_allowed contains_string no_text one_byte ip app rules).0

-- The first rule decides for `A` to `C`, the second for the other addresses.
first_rule_allows : is_let_through (bytes "A") (bytes "shop") ≡ true
unfolding ip_allowed bytes prefix_contains contains_string ◌==◌
first_rule_allows = refl

first_rule_denies : is_let_through (bytes "A") (bytes "api") ≡ false
unfolding ip_allowed bytes prefix_contains contains_string ◌==◌
first_rule_denies = refl

second_rule_allows : is_let_through (bytes "z") (bytes "api") ≡ true
unfolding ip_allowed bytes prefix_contains
second_rule_allows = refl

invalid_address : is_let_through (bytes "zz") (bytes "api") ≡ false
unfolding ip_allowed bytes
invalid_address = refl

ip_allowed_iff_example : (is_let_through (bytes "A") (bytes "api") ≡ true) ↔ (
    (rules ≡ [])
    ⊎ ((ip : Addr) × (rule : IpRule) × (one_byte (bytes "A") ≡ ok ip)
        × Decides ip rules rule
        × Grants rule (bytes "api")))
ip_allowed_iff_example =
    ip_allowed_iff contains_string contains_string_iff no_text one_byte (bytes "A") (bytes "api")
      rules

abbrev prefix_of : Str → Result Prefix
prefix_of (c ∷ []) = ok (record { ip = Addr.v4 c; bits = 32 })
prefix_of s = err (bytes "not a prefix")

abbrev two_items : Str → Result IpRulesConfig
two_items s = ok (record {
  allow_all_apps = record { prefix = bytes "A" } ∷ [];
  allow_only_apps = record { prefix = bytes "B"; apps = bytes "api" ∷ [] } ∷ [];
})

abbrev no_items : Str → Result IpRulesConfig
no_items s = ok (record { allow_all_apps = []; allow_only_apps = [] })

abbrev empty_apps : Str → Result IpRulesConfig
empty_apps s = ok (record {
  allow_all_apps = [];
  allow_only_apps = record { prefix = bytes "B"; apps = [] } ∷ [];
})

-- The parsing panics where an item names no application, and where a prefix is not one.
empty_apps_panic : parse_hcl_rules prefix_of empty_apps [] ≡ panic
unfolding parse_hcl_rules bytes
empty_apps_panic = refl

no_items_error : parse_hcl_rules prefix_of no_items [] ≡ err (bytes "empty IP rules file")
unfolding parse_hcl_rules
no_items_error = refl

abbrev two_rules : List IpRule
two_rules =
    record { ip_prefix = record { ip = Addr.v4 65; bits = 32 }; allowed_app_ids = [] }
    ∷ record {
      ip_prefix = record { ip = Addr.v4 66; bits = 32 };
      allowed_app_ids = bytes "api" ∷ [];
    }
    ∷ []

two_items_parsed : parse_hcl_rules prefix_of two_items [] ≡ ok two_rules
unfolding parse_hcl_rules bytes edgerouter.Server.IpFilter.allow_all_apps
    edgerouter.Server.IpFilter.allow_only_apps
two_items_parsed = refl

two_items_loaded : load_ip_rules prefix_of two_items (content []) ≡ ok two_rules
unfolding load_ip_rules
two_items_loaded = two_items_parsed

load_ip_rules-ok_example :
    ((content [] ≡ not_exist) × (two_rules ≡ []))
    ⊎ ((text : Str) × (conf : IpRulesConfig) × (alls onlys : List IpRule) × (content []
          ≡ content text)
        × (two_items text ≡ ok conf)
        × (two_rules ≡ alls ++ onlys)
        × Each (FromAllowAll prefix_of) conf.allow_all_apps alls
        × Each (FromAllowOnly prefix_of) conf.allow_only_apps onlys
        × (two_rules ≢ []))
load_ip_rules-ok_example =
    load_ip_rules-ok prefix_of two_items (content []) two_rules two_items_loaded

-- The patterns of hostregexp_test.go.
fn61_pattern :
    hostname_regexp_syntax (bytes "hellohttp.{[^.]+}.fn61.net")
    ≡ bytes "^hellohttp\\.[^.]+\\.fn61\\.net$"
unfolding bytes hostname_regexp_syntax
fn61_pattern = refl

two_placeholders : hostname_regexp_syntax (bytes "{foo|bar}.{a}.fi") ≡ bytes "^foo|bar\\.a\\.fi$"
unfolding bytes hostname_regexp_syntax
two_placeholders = refl

replace-escape_example :
    replace_placeholders none
      (escape_regex_chars (bytes "a." ++ (b'{' ∷ (bytes "[^.]+" ++ (b'}' ∷ bytes ".fi")))))
    ≡ escape_regex_chars (bytes "a.")
      ++ (bytes "[^.]+" ++ replace_placeholders none (escape_regex_chars (bytes ".fi")))
unfolding bytes
replace-escape_example =
    replace-escape (bytes "a.") (bytes "[^.]+") (bytes ".fi") (λ h. cc) (refl, (refl, tt))
      (refl, (refl, (refl, (refl, (refl, tt)))))
