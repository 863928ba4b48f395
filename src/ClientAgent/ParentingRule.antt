-- ===== src/ClientAgent/ParentingRule.antt =====
-- src/clientagent/parenting_rule.cpp. A string is the list of the codes of its characters; what a
-- function writes through its reference to a rule comes back beside its result, also when it fails.
pub mod Grid
pub mod Parse
pub mod Rule
use ardos.Prelude.{
  ℕ, zero, suc, ◌+◌, ◌-◌, ◌*◌, ◌/◌, ◌%◌, ◌^◌, Bool, true, false, not, ◌&&◌, ◌||◌, List, [], ◌∷◌,
  ◌++◌, length, Option, none, some, ltb, leb, ◌==◌, if◌then◌else◌,
}
use ardos.Prelude.Decimal.{is_digit, read_digits}
use ardos.Prelude.Sets.{insert, count_up}
use ardos.Dc.{Dc}

pub data ParentingRuleKind : Type 0 where
  stated follow cartesian auto : ParentingRuleKind

pub record ParentingRule : Type 0 where
  pub kind : ParentingRuleKind
  pub cart_start_zone : ℕ
  pub cart_grid_size : ℕ
  pub cart_radius : ℕ
  pub auto_origin_zone : ℕ
  pub auto_extra_zones : List ℕ

-- `out = {}`
abbrev pub defaults : ParentingRule
defaults = record {
  kind = stated;
  cart_start_zone = 0;
  cart_grid_size = 0;
  cart_radius = 0;
  auto_origin_zone = 0;
  auto_extra_zones = [];
}

abbrev pub all_digits : List ℕ → Bool
all_digits [] = true
all_digits (x ∷ xs) = is_digit x && all_digits xs

-- ParseUint32 on a variable that holds `out`. std::from_chars reads the digits at the start; without
-- one, or for a number that does not fit, it leaves the variable alone.
abbrev pub parse_uint32 : List ℕ → ℕ → Bool × ℕ
parse_uint32 [] out = (false, out)
parse_uint32 (x ∷ xs) out =
    let value = read_digits (x ∷ xs) 0 in
    if is_digit x && ltb value (2 ^ 32) then (all_digits xs, value) else (false, out)

-- The pieces between the delimiters, of which there is one more.
abbrev pub onto_first : ℕ → List (List ℕ) → List (List ℕ)
onto_first x [] = (x ∷ []) ∷ []
onto_first x (piece ∷ pieces) = (x ∷ piece) ∷ pieces

abbrev pub pieces : ℕ → List ℕ → List (List ℕ)
pieces delim [] = [] ∷ []
pieces delim (x ∷ xs) =
    let rest = pieces delim xs in if x == delim then [] ∷ rest else onto_first x rest

-- Split
unfoldable pub split : List ℕ → ℕ → List (List ℕ)
split [] delim = []
split (x ∷ xs) delim = pieces delim (x ∷ xs)

-- The largest zone of the grid, as ParseCartesianRule computes it in 64 bits: below 2^64.
abbrev pub max_zone : ParentingRule → ℕ
max_zone out = out.cart_start_zone + out.cart_grid_size * out.cart_grid_size - 1

-- The checks of ParseCartesianRule on the numbers that it has read.
unfoldable pub check_grid : ParentingRule → Bool × ParentingRule
check_grid out =
    if out.cart_grid_size == 0
    then (false, out)
    else if ltb (2 ^ 32 - 1) (max_zone out)
    then (false, out)
    else (true, out)

-- The three calls of ParseUint32: a later one is not made when an earlier one fails.
unfoldable pub parse_numbers : List ℕ → List ℕ → List ℕ → ParentingRule → Bool × ParentingRule
unfolding check_grid
parse_numbers first second third out =
    let (start_ok, start) = parse_uint32 first out.cart_start_zone in
    let out1 = record out { cart_start_zone = start } in
    let (size_ok, size) = parse_uint32 second out1.cart_grid_size in
    let out2 = record out1 { cart_grid_size = size } in
    let (radius_ok, radius) = parse_uint32 third out2.cart_radius in
    let out3 = record out2 { cart_radius = radius } in
    if not start_ok
    then (false, out1)
    else if not size_ok
    then (false, out2)
    else if not radius_ok
    then (false, out3)
    else check_grid out3

unfoldable pub parse_three : List (List ℕ) → ParentingRule → Bool × ParentingRule
unfolding parse_numbers
parse_three (first ∷ second ∷ third ∷ []) out = parse_numbers first second third out
parse_three parts out = (false, out)

-- ParseCartesianRule; 58 is ':'
unfoldable pub parse_cartesian_rule : List ℕ → ParentingRule → Bool × ParentingRule
unfolding split parse_three
parse_cartesian_rule rule_str out = parse_three (split rule_str 58) out

-- The loop over the extra zones.
unfoldable pub parse_zones : List (List ℕ) → ParentingRule → Bool × ParentingRule
parse_zones [] out = (true, out)
parse_zones (z ∷ zs) out =
    let (ok, parsed) = parse_uint32 z 0 in
    let rest =
      parse_zones zs (record out { auto_extra_zones = out.auto_extra_zones ++ parsed ∷ [] }) in
    let skipped = parse_zones zs out in
    if length z == 0 then skipped else if ok then rest else (false, out)

-- The text before the first `c` and behind it.
abbrev pub cut_at : ℕ → List ℕ → Option (List ℕ × List ℕ)
cut_at c [] = none
cut_at c (x ∷ xs) = if x == c then some ([], xs) else after (cut_at c xs)
  where
    after : Option (List ℕ × List ℕ) → Option (List ℕ × List ℕ)
    after none = none
    after (some (front, back)) = some (x ∷ front, back)

unfoldable pub parse_parts : Option (List ℕ × List ℕ) → ParentingRule → Bool × ParentingRule
unfolding split parse_zones
parse_parts none out = (false, out)
parse_parts (some (front, back)) out =
    let (ok, origin) = parse_uint32 front out.auto_origin_zone in
    let out1 = record out { auto_origin_zone = origin } in
    let (zones_ok, out2) = parse_zones (split back 124) out1 in
    if not ok
    then (false, out1)
    else if not zones_ok
    then (false, out2)
    else if length out2.auto_extra_zones == 0
    then (false, out2)
    else (true, out2)

-- ParseAutoRule; 124 is '|'
unfoldable pub parse_auto_rule : List ℕ → ParentingRule → Bool × ParentingRule
unfolding parse_parts
parse_auto_rule rule_str out = parse_parts (cut_at 58 rule_str) out

abbrev pub same_text : List ℕ → List ℕ → Bool
same_text [] [] = true
same_text [] (y ∷ ys) = false
same_text (x ∷ xs) [] = false
same_text (x ∷ xs) (y ∷ ys) = (x == y) && same_text xs ys

-- "Stated", "Follow", "Cartesian" and "Auto"
abbrev stated_name : List ℕ
stated_name = 83 ∷ 116 ∷ 97 ∷ 116 ∷ 101 ∷ 100 ∷ []

abbrev follow_name : List ℕ
follow_name = 70 ∷ 111 ∷ 108 ∷ 108 ∷ 111 ∷ 119 ∷ []

abbrev cartesian_name : List ℕ
cartesian_name = 67 ∷ 97 ∷ 114 ∷ 116 ∷ 101 ∷ 115 ∷ 105 ∷ 97 ∷ 110 ∷ []

abbrev auto_name : List ℕ
auto_name = 65 ∷ 117 ∷ 116 ∷ 111 ∷ []

-- "setParentingRules"
abbrev field_name : List ℕ
field_name =
    115 ∷ 101 ∷ 116 ∷ 80 ∷ 97 ∷ 114 ∷ 101 ∷ 110 ∷ 116 ∷ 105 ∷ 110 ∷ 103 ∷ 82 ∷ 117 ∷ 108 ∷ 101 ∷ 115
    ∷ []

-- The end of a branch of TryParseParentingRule that parses: the kind is set on success.
abbrev pub with_kind : ParentingRuleKind → Bool × ParentingRule → Bool × ParentingRule
with_kind k (true, out) = (true, record out { kind = k })
with_kind k (false, out) = (false, out)

unfoldable pub parse_typed : List ℕ → List ℕ → ParentingRule → Bool × ParentingRule
unfolding parse_cartesian_rule parse_auto_rule
parse_typed type_str rule_str out =
    if same_text type_str stated_name
    then (true, record out { kind = stated })
    else if same_text type_str follow_name
    then (true, record out { kind = follow })
    else if same_text type_str cartesian_name
    then with_kind cartesian (parse_cartesian_rule rule_str out)
    else if same_text type_str auto_name
    then with_kind auto (parse_auto_rule rule_str out)
    else (false, out)

module _ (dc : Dc) where
  -- ExtractElementDefaultString
  abbrev pub extract_element_default_string : ℕ → ℕ → Option (List ℕ)
  extract_element_default_string atomic_field element_index =
      if leb (dc.num_elements atomic_field) element_index
      then none
      else if not (dc.has_element_default atomic_field element_index)
      then none
      else dc.element_default_string atomic_field element_index

  unfoldable pub parse_defaults : Option (List ℕ) → Option (List ℕ) → Bool × ParentingRule
  unfolding parse_typed
  parse_defaults (some type_str) (some rule_str) = parse_typed type_str rule_str defaults
  parse_defaults (some type_str) none = (false, defaults)
  parse_defaults none rule_str = (false, defaults)

  unfoldable pub parse_atomic : Option ℕ → Bool × ParentingRule
  unfolding parse_defaults
  parse_atomic none = (false, defaults)
  parse_atomic (some atomic_field) =
      if dc.num_elements atomic_field == 2
      then parse_defaults (extract_element_default_string atomic_field 0)
          (extract_element_default_string atomic_field 1)
      else (false, defaults)

  unfoldable pub parse_field : Option ℕ → Bool × ParentingRule
  unfolding parse_atomic
  parse_field none = (false, defaults)
  parse_field (some field) = parse_atomic (dc.as_atomic_field field)

  -- TryParseParentingRule, for a class that may be null
  unfoldable pub try_parse_parenting_rule : Option ℕ → Bool × ParentingRule
  unfolding parse_field
  try_parse_parenting_rule none = (false, defaults)
  try_parse_parenting_rule (some klass) = parse_field (dc.field_by_name klass field_name)

-- The cells of one row and of all rows, as the two loops of CartesianGridZones insert them. The sum
-- of uint32_t wraps.
abbrev pub cell : ParentingRule → ℕ → ℕ → ℕ
cell rule r c = (rule.cart_start_zone + r * rule.cart_grid_size + c) % 2 ^ 32

unfoldable pub insert_row : ParentingRule → ℕ → List ℕ → List ℕ → List ℕ
insert_row rule r [] zones = zones
insert_row rule r (c ∷ cs) zones = insert_row rule r cs (insert (cell rule r c) zones)

unfoldable pub insert_rows : ParentingRule → List ℕ → List ℕ → List ℕ → List ℕ
unfolding insert_row
insert_rows rule [] cs zones = zones
insert_rows rule (r ∷ rs) cs zones = insert_rows rule rs cs (insert_row rule r cs zones)

-- The first and the last index of the window around `at`, in a row of `size` cells.
abbrev pub low : ℕ → ℕ → ℕ
low reach at = if leb reach at then at - reach else 0

abbrev pub high : ℕ → ℕ → ℕ → ℕ
high size reach at = if ltb (at + reach) (size - 1) then at + reach else size - 1

abbrev pub window : ℕ → ℕ → ℕ → List ℕ
window size reach at = count_up (high size reach at + 1 - low reach at) (low reach at)

abbrev pub is_cartesian : ParentingRuleKind → Bool
is_cartesian cartesian = true
is_cartesian _ = false

-- CartesianGridZones. A grid of size 0 returns early, so that no division is by 0.
unfoldable pub cartesian_grid_zones : ParentingRule → ℕ → List ℕ
unfolding insert_rows
cartesian_grid_zones rule avatar_zone =
    let size = rule.cart_grid_size in
    let linear = avatar_zone - rule.cart_start_zone in
    if not (is_cartesian rule.kind) || (size == 0)
    then []
    else if ltb avatar_zone rule.cart_start_zone
    then []
    else if leb (size * size) linear
    then []
    else insert_rows rule (window size rule.cart_radius (linear / size))
        (window size rule.cart_radius (linear % size)) []
