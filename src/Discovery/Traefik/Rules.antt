-- ===== src/Discovery/Traefik/Rules.antt =====
-- The frontend rules of pkg/erdiscovery/dockerdiscovery/traefikannotations.go, printed and parsed.
use edgerouter.Base.{
  Str, bytes, has_prefix, join, split-join, HasNone, ◌≡◌, refl, ap, ◌∙◌, List, [], ◌∷◌, ◌++◌, map,
  ok, All,
}
use edgerouter.Discovery.Traefik.{
  TraefikFrontendRule, no_rule, parse_sub_rule, parse_sub_rules, parse_traefik_frontend_rule,
}

-- A sub-rule, what it reads as in a label, and what it sets.
pub data SubRule : Type 0 where
  host path_prefix host_regexp : Str → SubRule

abbrev pub text_of : SubRule → Str
text_of (host s) = s
text_of (path_prefix s) = s
text_of (host_regexp s) = s

abbrev pub print_sub_rule : SubRule → Str
print_sub_rule (host s) = bytes "Host:" ++ s
print_sub_rule (path_prefix s) = bytes "PathPrefix:" ++ s
print_sub_rule (host_regexp s) = bytes "HostRegexp:" ++ s

abbrev pub assign : TraefikFrontendRule → SubRule → TraefikFrontendRule
assign r (host s) = record r { host = s }
assign r (path_prefix s) = record r { path_prefix = s }
assign r (host_regexp s) = record r { host_regexp = s }

abbrev pub assign_all : TraefikFrontendRule → List SubRule → TraefikFrontendRule
assign_all r [] = r
assign_all r (s ∷ ss) = assign_all (assign r s) ss

parse_sub_rule-print :
    (r : TraefikFrontendRule) (s : SubRule) → parse_sub_rule r (print_sub_rule s) ≡ ok (assign r s)
unfolding parse_sub_rule bytes has_prefix
parse_sub_rule-print r (host s) = refl
parse_sub_rule-print r (path_prefix s) = refl
parse_sub_rule-print r (host_regexp s) = refl

parse_sub_rules-print :
    (r : TraefikFrontendRule) (ss : List SubRule)
    → parse_sub_rules r (map print_sub_rule ss) ≡ ok (assign_all r ss)
unfolding parse_sub_rules
parse_sub_rules-print r [] = refl
parse_sub_rules-print r (s ∷ ss) =
    rw (parse_sub_rule-print r s) (parse_sub_rules-print (assign r s) ss)

print_sub_rule-HasNone : (s : SubRule) → HasNone b';' (text_of s) → HasNone b';' (print_sub_rule s)
unfolding bytes
print_sub_rule-HasNone (host s) n = (refl, (refl, (refl, (refl, (refl, n)))))
print_sub_rule-HasNone (path_prefix s) n =
    (refl, (refl, (refl, (refl, (refl, (refl, (refl, (refl, (refl, (refl, (refl, n)))))))))))
print_sub_rule-HasNone (host_regexp s) n =
    (refl, (refl, (refl, (refl, (refl, (refl, (refl, (refl, (refl, (refl, (refl, n)))))))))))

print_sub_rules-HasNone :
    (ss : List SubRule)
    → All (λ s. HasNone b';' (text_of s)) ss
    → All (HasNone b';') (map print_sub_rule ss)
print_sub_rules-HasNone [] h = tt
print_sub_rules-HasNone (s ∷ ss) h = (print_sub_rule-HasNone s h.0, print_sub_rules-HasNone ss h.1)

-- A rule that is printed from sub-rules without semicolons, joined by semicolons, parses to what
-- they set one after the other: of sub-rules of one kind the last counts.
pub parse_traefik_frontend_rule-print :
    (s : SubRule) (ss : List SubRule)
    → All (λ x. HasNone b';' (text_of x)) (s ∷ ss)
    → parse_traefik_frontend_rule (join (b';' ∷ []) (map print_sub_rule (s ∷ ss)))
      ≡ ok (assign_all no_rule (s ∷ ss))
unfolding parse_traefik_frontend_rule
parse_traefik_frontend_rule-print s ss h =
    ap (parse_sub_rules no_rule) (
      split-join b';' (print_sub_rule s) (map print_sub_rule ss) (print_sub_rule-HasNone s h.0)
        (print_sub_rules-HasNone ss h.1))
    ∙ parse_sub_rules-print no_rule (s ∷ ss)
