-- ===== src/Server/IpFilter/Laws.antt =====
-- Who is let through by pkg/erserver/ipfilter.go, and what a rules file means.
use edgerouter.Base.{
  Str, bytes, ◌≡◌, ◌≢◌, refl, sym, subst, ap, ◌∙◌, ◌↔◌, ◌⊎◌, inl, inr, Bool, true, false, List, [],
  ◌∷◌, ◌++◌, append_assoc, append-nil, Option, none, some, Result, ok, err, panic, >>=-eq-ok,
  ok-injective, First, find-First, First-find, Any, Each, Bool-cases, if◌then◌else◌,
}
use edgerouter.Config.Validate.{is_empty}
use edgerouter.Server.IpFilter.{
  Addr, Prefix, prefix_contains, IpRule, AllowAllItem, AllowOnlyItem, IpRulesConfig, Opened,
  content, not_exist, open_error, rule_for_ip, allow_all_apps, allow_only_apps, allows_app,
  allowed_by, ip_allowed_internal, ip_allowed, allowed_parsed, or_panic, must_parse_prefix,
  add_allow_all, rule_of_apps, add_allow_only, parse_hcl_rules, load_ip_rules,
}

-- The rule is the first whose prefix contains the address.
abbrev pub Decides : Addr → List IpRule → IpRule → Type 0
Decides ip rules rule = First (λ r. prefix_contains r.ip_prefix ip) rules rule

-- The rule names no application at all, or this one.
abbrev pub Grants : IpRule → Str → Type 0
Grants rule app = (rule.allowed_app_ids ≡ []) ⊎ Any (λ a. a ≡ app) rule.allowed_app_ids

module _ (contains_string : List Str → Str → Bool)
    (contains_string_iff : (xs : List Str) (x : Str)
      → (contains_string xs x ≡ true) ↔ Any (λ a. a ≡ x) xs) where
  allows_app_iff :
      (rule : IpRule) (app : Str) → (allows_app contains_string rule app ≡ true) ↔ Grants rule app
  unfolding allows_app
  allows_app_iff rule app = go rule.allowed_app_ids
    where
      go :
          (ids : List Str)
          → ((if is_empty ids then true else contains_string ids app) ≡ true)
            ↔ ((ids ≡ []) ⊎ Any (λ a. a ≡ app) ids)
      go [] = ((λ h. inl refl), (λ h. refl))
      go (i ∷ ids) = (
        (λ h. inr ((contains_string_iff (i ∷ ids) app).0 h)),
        elim [ inl e ↦ cc | inr a ↦ (contains_string_iff (i ∷ ids) app).1 a ],
      )

  module _ (addr_text : Addr → Str) (parse_addr_port : Str → Result Addr) where
    allowed_by_iff :
        (ip : Addr) (app : Str) (rules : List IpRule) (o : Option IpRule)
        → rule_for_ip ip rules ≡ o
        → ((allowed_by contains_string addr_text ip app o).0 ≡ true)
          ↔ ((rule : IpRule) × Decides ip rules rule × Grants rule app)
    unfolding rule_for_ip
    allowed_by_iff ip app rules none e =
        ((λ h. cc), (λ (rule, d, g). let f = First-find _ rules rule d in cc))
    allowed_by_iff ip app rules (some r) e = elim (Bool-cases (allows_app contains_string r app)) [
      | inl t ↦ ((λ h. (r, find-First _ rules r e, (allows_app_iff r app).0 t)), (λ h. rw t))
      | inr t ↦ (
        (λ h. let h' : false ≡ true = rw t at h in cc),
        (λ (rule, d, g).
            let f = First-find _ rules rule d in
            let same : rule ≡ r = cc in
            let t' = (allows_app_iff rule app).1 g in
            let t'' : allows_app contains_string r app ≡ true = rw (← same) t' in cc),
      )
    ]

    ip_allowed_internal_iff :
        (ip : Addr) (app : Str) (rules : List IpRule)
        → ((ip_allowed_internal contains_string addr_text ip app rules).0 ≡ true)
          ↔ ((rule : IpRule) × Decides ip rules rule × Grants rule app)
    unfolding ip_allowed_internal
    ip_allowed_internal_iff ip app rules = allowed_by_iff ip app rules (rule_for_ip ip rules) refl

    allowed_parsed_iff :
        (app : Str) (r : IpRule) (rs : List IpRule) (parsed : Result Addr)
        → ((allowed_parsed contains_string addr_text parse_addr_port parsed app (r ∷ rs)).0 ≡ true)
          ↔ ((ip : Addr) × (rule : IpRule) × (parsed ≡ ok ip)
              × Decides ip (r ∷ rs) rule
              × Grants rule app)
    allowed_parsed_iff app r rs (ok ip) =
        let (to, from) = ip_allowed_internal_iff ip app (r ∷ rs) in
        (
          (λ h. let (rule, d, g) = to h in (ip, rule, refl, d, g)),
          (λ (ip', rule, e, d, g).
              let same : ip' ≡ ip = sym (ok-injective e) in
              from (rule, subst (λ a. Decides a (r ∷ rs) rule) same d, g)),
        )
    allowed_parsed_iff app r rs (err e) = ((λ h. cc), (λ (ip, rule, e', d, g). cc))
    allowed_parsed_iff app r rs panic = ((λ h. cc), (λ (ip, rule, e', d, g). cc))

    -- A request to an application is let through exactly when there are no rules, or its address is
    -- valid and the first rule that contains the address grants the application.
    pub ip_allowed_iff :
        (ip_and_port app : Str) (rules : List IpRule)
        → ((ip_allowed contains_string addr_text parse_addr_port ip_and_port app rules).0 ≡ true)
          ↔ ((rules ≡ [])
              ⊎ ((ip : Addr) × (rule : IpRule) × (parse_addr_port ip_and_port ≡ ok ip)
                  × Decides ip rules rule
                  × Grants rule app))
    unfolding ip_allowed
    ip_allowed_iff ip_and_port app [] = ((λ h. inl refl), (λ h. refl))
    ip_allowed_iff ip_and_port app (r ∷ rs) =
        let (to, from) = allowed_parsed_iff app r rs (parse_addr_port ip_and_port) in
        ((λ h. inr (to h)), elim [ inl e ↦ cc | inr a ↦ from a ])

-- The rule that each item of the file stands for.
module _ (parse_prefix : Str → Result Prefix) where
  abbrev pub FromAllowAll : AllowAllItem → IpRule → Type 0
  FromAllowAll item rule =
      (parse_prefix item.prefix ≡ ok rule.ip_prefix) × (rule.allowed_app_ids ≡ [])

  abbrev pub FromAllowOnly : AllowOnlyItem → IpRule → Type 0
  FromAllowOnly item rule =
      (parse_prefix item.prefix ≡ ok rule.ip_prefix)
      × (rule.allowed_app_ids ≡ item.apps)
      × (item.apps ≢ [])

  must_parse_prefix-ok :
      (raw : Str) (p : Prefix) → must_parse_prefix parse_prefix raw ≡ ok p → parse_prefix raw ≡ ok p
  unfolding must_parse_prefix
  must_parse_prefix-ok raw p h = go (parse_prefix raw) h
    where
      go : (r : Result Prefix) → or_panic parse_prefix r ≡ ok p → r ≡ ok p
      go (ok q) e = e
      go (err m) e = cc
      go panic e = cc

  add_allow_all-Each :
      (rules : List IpRule) (items : List AllowAllItem) (out : List IpRule)
      → add_allow_all parse_prefix rules items ≡ ok out
      → (added : List IpRule) × (out ≡ rules ++ added) × Each FromAllowAll items added
  unfolding add_allow_all allow_all_apps
  add_allow_all-Each rules [] out h = ([], rw append-nil (sym (ok-injective h)), tt)
  add_allow_all-Each rules (item ∷ items) out h =
      let (p, hp, h') = >>=-eq-ok (must_parse_prefix parse_prefix item.prefix) _ h in
      let (added, e, each) = add_allow_all-Each (rules ++ allow_all_apps p ∷ []) items out h' in
      (
        allow_all_apps p ∷ added,
        e ∙ append_assoc rules (allow_all_apps p ∷ []) added,
        ((must_parse_prefix-ok item.prefix p hp, refl), each),
      )

  rule_of_apps-ok :
      (p : Prefix) (apps : List Str) (rule : IpRule)
      → rule_of_apps parse_prefix p apps ≡ ok rule
      → (rule.ip_prefix ≡ p) × (rule.allowed_app_ids ≡ apps) × (apps ≢ [])
  unfolding allow_only_apps
  rule_of_apps-ok p [] rule h = cc
  rule_of_apps-ok p (a ∷ apps) rule h =
      let e = sym (ok-injective h) in
      (ap (λ r. r.ip_prefix) e, ap (λ r. r.allowed_app_ids) e, λ q. cc)

  add_allow_only-Each :
      (rules : List IpRule) (items : List AllowOnlyItem) (out : List IpRule)
      → add_allow_only parse_prefix rules items ≡ ok out
      → (added : List IpRule) × (out ≡ rules ++ added) × Each FromAllowOnly items added
  unfolding add_allow_only
  add_allow_only-Each rules [] out h = ([], rw append-nil (sym (ok-injective h)), tt)
  add_allow_only-Each rules (item ∷ items) out h =
      let (p, hp, h') = >>=-eq-ok (must_parse_prefix parse_prefix item.prefix) _ h in
      let (rule, hr, h'') = >>=-eq-ok (rule_of_apps parse_prefix p item.apps) _ h' in
      let (pe, ae, ne) = rule_of_apps-ok p item.apps rule hr in
      let (added, e, each) = add_allow_only-Each (rules ++ rule ∷ []) items out h'' in
      (
        rule ∷ added,
        e ∙ append_assoc rules (rule ∷ []) added,
        ((must_parse_prefix-ok item.prefix p hp ∙ ap ok (sym pe), ae, ne), each),
      )

  module _ (unmarshal_hcl : Str → Result IpRulesConfig) where
    parse_hcl_rules-ok :
        (text : Str) (rules : List IpRule)
        → parse_hcl_rules parse_prefix unmarshal_hcl text ≡ ok rules
        → (conf : IpRulesConfig) × (alls onlys : List IpRule) × (unmarshal_hcl text ≡ ok conf)
          × (rules ≡ alls ++ onlys)
          × Each FromAllowAll conf.allow_all_apps alls
          × Each FromAllowOnly conf.allow_only_apps onlys
          × (rules ≢ [])
    unfolding parse_hcl_rules
    parse_hcl_rules-ok text rules h =
        let (conf, hc, h₁) = >>=-eq-ok (unmarshal_hcl text) _ h in
        let (rs, h₂, h₃) = >>=-eq-ok (add_allow_all parse_prefix [] conf.allow_all_apps) _ h₁ in
        let (rs', h₄, h₅) = >>=-eq-ok (add_allow_only parse_prefix rs conf.allow_only_apps) _ h₃ in
        let (alls, e₁, each₁) = add_allow_all-Each [] conf.allow_all_apps rs h₂ in
        let (onlys, e₂, each₂) = add_allow_only-Each rs conf.allow_only_apps rs' h₄ in
        let (same, ne) = nonempty rs' h₅ in
        (conf, alls, onlys, hc, same ∙ e₂ ∙ ap (λ l. l ++ onlys) e₁, each₁, each₂, ne)
      where
        nonempty :
            (rs : List IpRule)
            → (if is_empty rs then err (bytes "empty IP rules file") else ok rs) ≡ ok rules
            → (rules ≡ rs) × (rules ≢ [])
        nonempty [] e = cc
        nonempty (r ∷ rs) e = (sym (ok-injective e), λ q. cc)

    -- Loading the rules succeeds in two ways only. Either the rules file does not exist, and there are
    -- no rules, so that the filter is off. Or the file is decoded, and gives a rule for each item,
    -- those for all applications first, in the order of the file, and at least one rule; a rule for
    -- some applications names at least one, so that it never means all of them.
    pub load_ip_rules-ok :
        (opened : Opened) (rules : List IpRule)
        → load_ip_rules parse_prefix unmarshal_hcl opened ≡ ok rules
        → ((opened ≡ not_exist) × (rules ≡ []))
          ⊎ ((text : Str) × (conf : IpRulesConfig) × (alls onlys : List IpRule) × (opened
                ≡ content text)
              × (unmarshal_hcl text ≡ ok conf)
              × (rules ≡ alls ++ onlys)
              × Each FromAllowAll conf.allow_all_apps alls
              × Each FromAllowOnly conf.allow_only_apps onlys
              × (rules ≢ []))
    unfolding load_ip_rules
    load_ip_rules-ok (content text) rules h =
        let (conf, alls, onlys, decoded, both, all, only, some_rule) =
          parse_hcl_rules-ok text rules h in
        inr (text, conf, alls, onlys, refl, decoded, both, all, only, some_rule)
    load_ip_rules-ok not_exist rules h = inl (refl, sym (ok-injective h))
    load_ip_rules-ok (open_error e) rules h = cc
