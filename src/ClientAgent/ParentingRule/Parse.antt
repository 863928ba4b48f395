-- ===== src/ClientAgent/ParentingRule/Parse.antt =====
-- The parsing of a Cartesian rule in src/clientagent/parenting_rule.cpp.
use ardos.Prelude.{
  ℕ, ◌+◌, ◌-◌, ◌*◌, ◌^◌, ◌≤◌, ◌<◌, ◌≡◌, refl, ap, ◌∙◌, Bool, true, false, not, List, [], ◌∷◌, ◌++◌,
  length, All, ltb, ◌==◌, if_ind, arith, Option, none, some,
}
use ardos.Prelude.Decimal.{
  read_digits, decimal, to_string, IsDigit, to_string-IsDigit, read_digits-decimal, decimal_long,
}
use ardos.ClientAgent.ParentingRule.{
  ParentingRule, cartesian, all_digits, parse_uint32, pieces, split, max_zone, check_grid,
  parse_numbers, parse_three, parse_cartesian_rule, parse_zones, parse_parts, cut_at,
  parse_auto_rule,
}
use ardos.ClientAgent.ParentingRule.Grid.{IsGrid}

-- What a parsed rule is good for.
abbrev Good : Bool × ParentingRule → Type 0
Good r = r.0 ≡ true → IsGrid (record r.1 { kind = cartesian })

Good-false : (out : ParentingRule) → Good (false, out)
Good-false out e = absurd (cc e)

check_grid-Good : (out : ParentingRule) → Good (check_grid out)
unfolding check_grid
check_grid-Good out =
    if_ind Good (out.cart_grid_size == 0) (λ _. Good-false out)
      λ some_cells.
        if_ind Good (ltb (2 ^ 32 - 1) (max_zone out)) (λ _. Good-false out)
          λ fits _. record { grid = refl; some_cells = ground arith; fits = ground arith }

parse_numbers-Good :
    (first second third : List ℕ) (out : ParentingRule)
    → Good (parse_numbers first second third out)
unfolding parse_numbers
parse_numbers-Good first second third out =
    let a = parse_uint32 first out.cart_start_zone in
    let b = parse_uint32 second out.cart_grid_size in
    let c = parse_uint32 third out.cart_radius in
    let out1 = record out { cart_start_zone = a.1 } in
    let out2 = record out1 { cart_grid_size = b.1 } in
    let out3 = record out2 { cart_radius = c.1 } in
    if_ind Good (not a.0) (λ _. Good-false out1)
      λ _.
        if_ind Good (not b.0) (λ _. Good-false out2)
          λ _. if_ind Good (not c.0) (λ _. Good-false out3) λ _. check_grid-Good out3

parse_three-Good : (parts : List (List ℕ)) (out : ParentingRule) → Good (parse_three parts out)
unfolding parse_three
parse_three-Good [] out = Good-false out
parse_three-Good (a ∷ []) out = Good-false out
parse_three-Good (a ∷ b ∷ []) out = Good-false out
parse_three-Good (a ∷ b ∷ c ∷ []) out = parse_numbers-Good a b c out
parse_three-Good (a ∷ b ∷ c ∷ d ∷ rest) out = Good-false out

-- A Cartesian rule that ParseCartesianRule accepts, whatever its text and the rule that it writes
-- over, has a grid with cells, the zones of which fit 32 bits.
pub parse_cartesian_rule-IsGrid :
    (rule_str : List ℕ) (out : ParentingRule)
    → (parse_cartesian_rule rule_str out).0 ≡ true
    → IsGrid (record (parse_cartesian_rule rule_str out).1 { kind = cartesian })
unfolding parse_cartesian_rule
parse_cartesian_rule-IsGrid rule_str out = parse_three-Good (split rule_str 58) out

all_digits-IsDigit : (xs : List ℕ) → All IsDigit xs → all_digits xs ≡ true
all_digits-IsDigit [] h = refl
all_digits-IsDigit (x ∷ xs) h = ground (arith, h.0, all_digits-IsDigit xs h.1)

parse_uint32-digits :
    (xs : List ℕ) (n out : ℕ)
    → All IsDigit xs
    → 0 < length xs
    → read_digits xs 0 ≡ n
    → n < 2 ^ 32
    → parse_uint32 xs out ≡ (true, n)
parse_uint32-digits [] n out h long e small = absurd (omega (arith, long))
parse_uint32-digits (x ∷ xs) n out h long e small =
    rw (e, h.0, all_digits-IsDigit xs h.1) (ground arith)

parse_uint32-to_string : (n out : ℕ) → n < 2 ^ 32 → parse_uint32 (to_string n) out ≡ (true, n)
unfolding to_string
parse_uint32-to_string n out small =
    parse_uint32-digits (decimal 20 n) n out (to_string-IsDigit n) (decimal_long 19 n)
      (read_digits-decimal 20 n (omega (arith, small))) small

pieces-digits : (xs : List ℕ) → All IsDigit xs → pieces 58 xs ≡ xs ∷ []
pieces-digits [] h = refl
pieces-digits (x ∷ xs) h = rw (pieces-digits xs h.1) (ground (arith, h.0))

pieces-append : (xs ys : List ℕ) → All IsDigit xs → pieces 58 (xs ++ 58 ∷ ys) ≡ xs ∷ pieces 58 ys
pieces-append [] ys h = refl
pieces-append (x ∷ xs) ys h = rw (pieces-append xs ys h.1) (ground (arith, h.0))

split-pieces : (xs ys : List ℕ) → split (xs ++ 58 ∷ ys) 58 ≡ pieces 58 (xs ++ 58 ∷ ys)
unfolding split
split-pieces [] ys = refl
split-pieces (x ∷ xs) ys = refl

-- `<startZone>:<gridSize>:<radius>`
abbrev pub rule_text : ℕ → ℕ → ℕ → List ℕ
rule_text start size radius = to_string start ++ 58 ∷ (to_string size ++ 58 ∷ to_string radius)

check_grid-ok :
    (out : ParentingRule)
    → 0 < out.cart_grid_size
    → out.cart_start_zone + out.cart_grid_size * out.cart_grid_size ≤ 2 ^ 32
    → check_grid out ≡ (true, out)
unfolding check_grid
check_grid-ok out some_cells fits = ground arith

-- The text of a start zone, a grid size and a radius, each below 2^32, for a grid with cells that
-- fits 32 bits, is accepted, and gives back the three numbers and leaves the rest of the rule alone.
pub parse_cartesian_rule-rule_text :
    (start size radius : ℕ) (out : ParentingRule)
    → 0 < size
    → start + size * size ≤ 2 ^ 32
    → start < 2 ^ 32
    → size < 2 ^ 32
    → radius < 2 ^ 32
    → parse_cartesian_rule (rule_text start size radius) out
      ≡ (true, record out { cart_start_zone = start; cart_grid_size = size; cart_radius = radius })
unfolding parse_cartesian_rule parse_three parse_numbers
parse_cartesian_rule-rule_text start size radius out some_cells fits near small far =
    ap (λ parts. parse_three parts out)
      (split-pieces (to_string start) (to_string size ++ 58 ∷ to_string radius)
        ∙ pieces-append (to_string start) (to_string size ++ 58 ∷ to_string radius)
            (to_string-IsDigit start)
        ∙ ap (λ parts. to_string start ∷ parts)
            (pieces-append (to_string size) (to_string radius) (to_string-IsDigit size)
              ∙ ap (λ parts. to_string size ∷ parts)
                  (pieces-digits (to_string radius) (to_string-IsDigit radius))))
    ∙ rw
        (
          parse_uint32-to_string start out.cart_start_zone near,
          parse_uint32-to_string size out.cart_grid_size small,
          parse_uint32-to_string radius out.cart_radius far,
        )
        (check_grid-ok
          (record out { cart_start_zone = start; cart_grid_size = size; cart_radius = radius })
          some_cells fits)

-- The parsing leaves the kind of the rule alone.
abbrev pub Keeps : ParentingRule → Bool × ParentingRule → Type 0
Keeps out r = r.1.kind ≡ out.kind

parse_numbers-Keeps :
    (first second third : List ℕ) (out : ParentingRule)
    → Keeps out (parse_numbers first second third out)
unfolding parse_numbers check_grid
parse_numbers-Keeps first second third out =
    let a = parse_uint32 first out.cart_start_zone in
    let b = parse_uint32 second out.cart_grid_size in
    let c = parse_uint32 third out.cart_radius in
    let out3 = record out { cart_start_zone = a.1; cart_grid_size = b.1; cart_radius = c.1 } in
    if_ind (Keeps out) (not a.0) (λ _. refl)
      λ _.
        if_ind (Keeps out) (not b.0) (λ _. refl)
          λ _.
            if_ind (Keeps out) (not c.0) (λ _. refl)
              λ _.
                if_ind (Keeps out) (b.1 == 0) (λ _. refl)
                  λ _. if_ind (Keeps out) (ltb (2 ^ 32 - 1) (max_zone out3)) (λ _. refl) (λ _. refl)

parse_three-Keeps :
    (parts : List (List ℕ)) (out : ParentingRule) → Keeps out (parse_three parts out)
unfolding parse_three
parse_three-Keeps [] out = refl
parse_three-Keeps (a ∷ []) out = refl
parse_three-Keeps (a ∷ b ∷ []) out = refl
parse_three-Keeps (a ∷ b ∷ c ∷ []) out = parse_numbers-Keeps a b c out
parse_three-Keeps (a ∷ b ∷ c ∷ d ∷ rest) out = refl

pub parse_cartesian_rule-Keeps :
    (rule_str : List ℕ) (out : ParentingRule) → Keeps out (parse_cartesian_rule rule_str out)
unfolding parse_cartesian_rule
parse_cartesian_rule-Keeps rule_str out = parse_three-Keeps (split rule_str 58) out

parse_zones-Keeps : (zs : List (List ℕ)) (out : ParentingRule) → Keeps out (parse_zones zs out)
unfolding parse_zones
parse_zones-Keeps [] out = refl
parse_zones-Keeps (z ∷ zs) out =
    let p = parse_uint32 z 0 in
    if_ind (Keeps out) (length z == 0) (λ _. parse_zones-Keeps zs out)
      λ _.
        if_ind (Keeps out) p.0
          (λ _.
            parse_zones-Keeps zs
              (record out { auto_extra_zones = out.auto_extra_zones ++ p.1 ∷ [] }))
          (λ _. refl)

parse_parts-Keeps :
    (parts : Option (List ℕ × List ℕ)) (out : ParentingRule) → Keeps out (parse_parts parts out)
unfolding parse_parts
parse_parts-Keeps none out = refl
parse_parts-Keeps (some (front, back)) out =
    let p = parse_uint32 front out.auto_origin_zone in
    let out1 = record out { auto_origin_zone = p.1 } in
    let z = parse_zones (split back 124) out1 in
    let kept = parse_zones-Keeps (split back 124) out1 in
    if_ind (Keeps out) (not p.0) (λ _. refl)
      λ _.
        if_ind (Keeps out) (not z.0) (λ _. kept)
          λ _. if_ind (Keeps out) (length z.1.auto_extra_zones == 0) (λ _. kept) (λ _. kept)

pub parse_auto_rule-Keeps :
    (rule_str : List ℕ) (out : ParentingRule) → Keeps out (parse_auto_rule rule_str out)
unfolding parse_auto_rule
parse_auto_rule-Keeps rule_str out = parse_parts-Keeps (cut_at 58 rule_str) out
