-- ===== src/ClientAgent/Examples.antt =====
-- A grid of four by four zones from 1000 on, with radius 1.
use ardos.Prelude.{◌≡◌, ◌↔◌, refl, true, false, none, [], ◌∷◌, some, ◌==◌, if◌then◌else◌, arith}
use ardos.Prelude.Sets.{mem}
use ardos.Dc.{Dc}
use ardos.ClientAgent.ParentingRule.{
  ParentingRule, cartesian, defaults, cartesian_grid_zones, try_parse_parenting_rule,
  parse_cartesian_rule,
}
use ardos.ClientAgent.ParentingRule.Grid.{IsGrid, Near, cartesian_grid_zones-Near}
use ardos.ClientAgent.ParentingRule.Parse.{rule_text, parse_cartesian_rule-rule_text}
use ardos.ClientAgent.ParentingRule.Rule.{try_parse_parenting_rule-Near}

abbrev rule : ParentingRule
rule = record {
  kind = cartesian;
  cart_start_zone = 1000;
  cart_grid_size = 4;
  cart_radius = 1;
  auto_origin_zone = 0;
  auto_extra_zones = [];
}

rule-IsGrid : IsGrid rule
rule-IsGrid = record { grid = refl; some_cells = omega arith; fits = omega arith }

cartesian_grid_zones-Near_example :
    (mem 1000 (cartesian_grid_zones rule 1005) ≡ true) ↔ Near rule 1005 1000
cartesian_grid_zones-Near_example = cartesian_grid_zones-Near rule rule-IsGrid 1005 1000

parse_cartesian_rule-rule_text_example :
    parse_cartesian_rule (rule_text 1000 4 1) defaults
    ≡ (true, record defaults { cart_start_zone = 1000; cart_grid_size = 4; cart_radius = 1 })
parse_cartesian_rule-rule_text_example =
    parse_cartesian_rule-rule_text 1000 4 1 defaults (omega arith) (omega arith) (omega arith)
      (omega arith) (omega arith)

-- A DC file with one class, whose rule is "Cartesian" and "1000:4:1".
abbrev file : Dc
file = record {
  has_fixed_byte_size = λ _. false;
  fixed_byte_size = λ _. 0;
  num_length_bytes = λ _. 0;
  nested_fields = λ _. [];
  depth = λ _. 0;
  nested_lower = λ _. tt;
  field_by_name = λ _ _. some 1;
  as_atomic_field = λ _. some 1;
  num_elements = λ _. 2;
  has_element_default = λ _ _. true;
  element_default_string = λ _ i. some (
      if i == 0
      then 67 ∷ 97 ∷ 114 ∷ 116 ∷ 101 ∷ 115 ∷ 105 ∷ 97 ∷ 110 ∷ []
      else 49 ∷ 48 ∷ 48 ∷ 48 ∷ 58 ∷ 52 ∷ 58 ∷ 49 ∷ []);
  get_class = λ _. none;
  class_number = λ c. c;
  inherited_fields = λ _. [];
  field_by_index = λ _ _. none;
  field_number = λ f. f;
  as_molecular_field = λ _. none;
  is_required = λ _. false;
  is_ram = λ _. false;
  is_broadcast = λ _. false;
  is_clrecv = λ _. false;
  is_ownrecv = λ _. false;
  is_airecv = λ _. false;
  atomics = λ _. [];
}

try_parse_parenting_rule-Near_example :
    IsGrid (try_parse_parenting_rule file (some 1)).1
    × Near (try_parse_parenting_rule file (some 1)).1 1005 1000
unfolding try_parse_parenting_rule cartesian_grid_zones
try_parse_parenting_rule-Near_example = try_parse_parenting_rule-Near file (some 1) 1005 1000 refl
