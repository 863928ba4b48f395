-- ===== src/ClientAgent/ParentingRule/Rule.antt =====
-- TryParseParentingRule of src/clientagent/parenting_rule.cpp, and the zones of the rule that it reads.
use ardos.Prelude.{
  ℕ, ◌≡◌, refl, ap, Bool, true, false, not, ◌||◌, List, Option, none, some, ◌==◌, if_ind, arith,
}
use ardos.Prelude.Sets.{mem}
use ardos.Dc.{Dc}
use ardos.ClientAgent.ParentingRule.{
  ParentingRule, ParentingRuleKind, stated, follow, cartesian, auto, defaults, is_cartesian,
  same_text, stated_name, follow_name, cartesian_name, auto_name, with_kind, parse_cartesian_rule,
  parse_auto_rule, parse_typed, extract_element_default_string, parse_defaults, parse_atomic,
  parse_field, try_parse_parenting_rule, cartesian_grid_zones,
}
use ardos.ClientAgent.ParentingRule.Grid.{IsGrid, Near, cartesian_grid_zones-Near}
use ardos.ClientAgent.ParentingRule.Parse.{
  parse_cartesian_rule-IsGrid, parse_cartesian_rule-Keeps, parse_auto_rule-Keeps, Keeps,
}

-- A rule that is Cartesian has a grid.
abbrev HasGrid : ParentingRule → Type 0
HasGrid rule = is_cartesian rule.kind ≡ true → IsGrid rule

with_kind-cartesian :
    (r : Bool × ParentingRule)
    → (r.0 ≡ true → IsGrid (record r.1 { kind = cartesian }))
    → Keeps defaults r
    → HasGrid (with_kind cartesian r).1
with_kind-cartesian (true, rule) good kept _ = good refl
with_kind-cartesian (false, rule) good kept e = absurd (cc (ap is_cartesian kept, e))

with_kind-auto : (r : Bool × ParentingRule) → Keeps defaults r → HasGrid (with_kind auto r).1
with_kind-auto (true, rule) kept e = absurd (cc e)
with_kind-auto (false, rule) kept e = absurd (cc (ap is_cartesian kept, e))

-- On the rule of a result.
abbrev Gridded : Bool × ParentingRule → Type 0
Gridded r = HasGrid r.1

no_grid :
    (b : Bool) (k : ParentingRuleKind)
    → is_cartesian k ≡ false
    → Gridded (b, record defaults { kind = k })
no_grid b k other same = absurd (cc (other, same))

parse_typed-Gridded :
    (type_str rule_str : List ℕ) → Gridded (parse_typed type_str rule_str defaults)
unfolding parse_typed
parse_typed-Gridded type_str rule_str =
    if_ind Gridded (same_text type_str stated_name) (λ _. no_grid true stated refl)
      λ _.
        if_ind Gridded (same_text type_str follow_name) (λ _. no_grid true follow refl)
          λ _.
            if_ind Gridded (same_text type_str cartesian_name)
              (λ _.
                with_kind-cartesian (parse_cartesian_rule rule_str defaults)
                  (parse_cartesian_rule-IsGrid rule_str defaults)
                  (parse_cartesian_rule-Keeps rule_str defaults))
              λ _.
                if_ind Gridded (same_text type_str auto_name)
                  (λ _.
                    with_kind-auto (parse_auto_rule rule_str defaults)
                      (parse_auto_rule-Keeps rule_str defaults))
                  (λ _. no_grid false stated refl)

zones_cartesian :
    (rule : ParentingRule) (a z : ℕ)
    → mem z (cartesian_grid_zones rule a) ≡ true
    → is_cartesian rule.kind ≡ true
unfolding cartesian_grid_zones
zones_cartesian rule a z =
    if_ind (λ (zs : List ℕ). mem z zs ≡ true → is_cartesian rule.kind ≡ true)
      (not (is_cartesian rule.kind) || (rule.cart_grid_size == 0)) (λ _ m. absurd (cc m))
      (λ grid _. ground arith)

module _ (dc : Dc) where
  parse_defaults-Gridded : (t r : Option (List ℕ)) → Gridded (parse_defaults dc t r)
  unfolding parse_defaults
  parse_defaults-Gridded (some t) (some r) = parse_typed-Gridded t r
  parse_defaults-Gridded (some t) none = no_grid false stated refl
  parse_defaults-Gridded none r = no_grid false stated refl

  parse_atomic-Gridded : (f : Option ℕ) → Gridded (parse_atomic dc f)
  unfolding parse_atomic
  parse_atomic-Gridded none = no_grid false stated refl
  parse_atomic-Gridded (some f) =
      if_ind Gridded (dc.num_elements f == 2)
        (λ _.
          parse_defaults-Gridded (extract_element_default_string dc f 0)
            (extract_element_default_string dc f 1))
        (λ _. no_grid false stated refl)

  parse_field-Gridded : (f : Option ℕ) → Gridded (parse_field dc f)
  unfolding parse_field
  parse_field-Gridded none = no_grid false stated refl
  parse_field-Gridded (some f) = parse_atomic-Gridded (dc.as_atomic_field f)

  try_parse_parenting_rule-Gridded :
      (klass : Option ℕ) → Gridded (try_parse_parenting_rule dc klass)
  unfolding try_parse_parenting_rule
  try_parse_parenting_rule-Gridded none = no_grid false stated refl
  try_parse_parenting_rule-Gridded (some k) = parse_field-Gridded (dc.field_by_name k _)

  -- Whatever class of whatever DC file a rule is read from, and whether that succeeds or not, the
  -- zones that CartesianGridZones opens for the rule that is left are zones of its grid, which does
  -- not wrap, within the radius of the avatar's.
  pub try_parse_parenting_rule-Near :
      (klass : Option ℕ) (a z : ℕ)
      → mem z (cartesian_grid_zones (try_parse_parenting_rule dc klass).1 a) ≡ true
      → IsGrid (try_parse_parenting_rule dc klass).1
        × Near (try_parse_parenting_rule dc klass).1 a z
  try_parse_parenting_rule-Near klass a z m =
      let rule = (try_parse_parenting_rule dc klass).1 in
      let g = try_parse_parenting_rule-Gridded klass (zones_cartesian rule a z m) in
      (g, (cartesian_grid_zones-Near rule g a z).0 m)
