-- ===== src/ClientAgent/ParentingRule/Grid.antt =====
-- CartesianGridZones of src/clientagent/parenting_rule.cpp: the zones of the window around the avatar.
use native.Mathlib.Nat.{
  mod-eq_of_lt, mod-lt, div-add-mod', mul-add-div_right, mul-add-mod_self_right, div-eq_of_lt,
  mul-le-mul_right, div-lt_iff_lt-mul,
}
use ardos.Prelude.{
  ℕ, suc, ◌+◌, ◌-◌, ◌*◌, ◌/◌, ◌%◌, ◌^◌, ◌≤◌, ◌<◌, ◌≡◌, ◌⊎◌, ◌↔◌, inl, inr, refl, sym, ap, subst,
  ◌∙◌, true, false, not, ◌||◌, List, [], ◌∷◌, ltb, leb, ◌==◌, if_ind, Bool-cases, arith,
}
use ardos.Prelude.Sets.{mem, insert, mem-insert, mem-count_up, count_up-mem}
use ardos.ClientAgent.ParentingRule.{
  ParentingRule, is_cartesian, cell, insert_row, insert_rows, low, high, window,
  cartesian_grid_zones,
}

-- A grid with cells, the zones of which are numbers of 32 bits.
pub record IsGrid (rule : ParentingRule) : Type 0 where
  pub grid : is_cartesian rule.kind ≡ true
  pub some_cells : 0 < rule.cart_grid_size
  pub fits : rule.cart_start_zone + rule.cart_grid_size * rule.cart_grid_size ≤ 2 ^ 32

abbrev pub OnGrid : ParentingRule → ℕ → Type 0
OnGrid rule z =
    (rule.cart_start_zone ≤ z)
    × (z < rule.cart_start_zone + rule.cart_grid_size * rule.cart_grid_size)

abbrev pub row : ParentingRule → ℕ → ℕ
row rule z = (z - rule.cart_start_zone) / rule.cart_grid_size

abbrev pub col : ParentingRule → ℕ → ℕ
col rule z = (z - rule.cart_start_zone) % rule.cart_grid_size

-- No further apart than `reach`.
abbrev pub Around : ℕ → ℕ → ℕ → Type 0
Around reach at i = (i ≤ at + reach) × (at ≤ i + reach)

abbrev pub Near : ParentingRule → ℕ → ℕ → Type 0
Near rule a z =
    OnGrid rule a
    × (OnGrid rule z
        × (Around rule.cart_radius (row rule a) (row rule z)
            × Around rule.cart_radius (col rule a) (col rule z)))

window-mem :
    (size reach at i : ℕ)
    → at < size
    → mem i (window size reach at) ≡ true
    → (i < size) × Around reach at i
window-mem size reach at i inside h =
    let (from, to) = count_up-mem (high size reach at + 1 - low reach at) (low reach at) i h in
    (ground arith, (ground arith, ground arith))

mem-window :
    (size reach at i : ℕ)
    → at < size
    → i < size
    → Around reach at i
    → mem i (window size reach at) ≡ true
mem-window size reach at i inside small near =
    mem-count_up (high size reach at + 1 - low reach at) (low reach at) i (ground arith)
      (ground arith)

module _ (rule : ParentingRule) where
  row_kept :
      (r : ℕ) (cs zones : List ℕ) (z : ℕ)
      → mem z zones ≡ true
      → mem z (insert_row rule r cs zones) ≡ true
  unfolding insert_row
  row_kept r [] zones z h = h
  row_kept r (c ∷ cs) zones z h =
      row_kept r cs (insert (cell rule r c) zones) z
        (ground (arith, mem-insert z (cell rule r c) zones))

  in_row :
      (r : ℕ) (cs zones : List ℕ) (c : ℕ)
      → mem c cs ≡ true
      → mem (cell rule r c) (insert_row rule r cs zones) ≡ true
  unfolding insert_row
  in_row r [] zones c h = absurd (ground arith)
  in_row r (k ∷ cs) zones c h = elim (Bool-cases (c == k)) [
    | inl e ↦
        let same : c ≡ k = ground arith in
        row_kept r cs (insert (cell rule r k) zones) (cell rule r c)
          (mem-insert (cell rule r c) (cell rule r k) zones ∙ rw same (ground arith))
    | inr e ↦ in_row r cs (insert (cell rule r k) zones) c (ground arith)
  ]

  of_row :
      (r : ℕ) (cs zones : List ℕ) (z : ℕ)
      → mem z (insert_row rule r cs zones) ≡ true
      → ((c : ℕ) × (mem c cs ≡ true) × (z ≡ cell rule r c)) ⊎ (mem z zones ≡ true)
  unfolding insert_row
  of_row r [] zones z h = inr h
  of_row r (k ∷ cs) zones z h = elim (of_row r cs (insert (cell rule r k) zones) z h) [
    | inl (c, there, e) ↦ inl (c, ground arith, e)
    | inr old ↦ elim (Bool-cases (z == cell rule r k)) [
      | inl e ↦ inl (k, ground arith, ground arith)
      | inr e ↦ inr (ground (arith, mem-insert z (cell rule r k) zones))
    ]
  ]

  rows_kept :
      (rs cs zones : List ℕ) (z : ℕ)
      → mem z zones ≡ true
      → mem z (insert_rows rule rs cs zones) ≡ true
  unfolding insert_rows
  rows_kept [] cs zones z h = h
  rows_kept (r ∷ rs) cs zones z h =
      rows_kept rs cs (insert_row rule r cs zones) z (row_kept r cs zones z h)

  in_rows :
      (rs cs zones : List ℕ) (r c : ℕ)
      → mem r rs ≡ true
      → mem c cs ≡ true
      → mem (cell rule r c) (insert_rows rule rs cs zones) ≡ true
  unfolding insert_rows
  in_rows [] cs zones r c h k = absurd (ground arith)
  in_rows (q ∷ rs) cs zones r c h k = elim (Bool-cases (r == q)) [
    | inl e ↦
        let same : q ≡ r = ground arith in
        rows_kept rs cs (insert_row rule q cs zones) (cell rule r c) (
          subst (λ x. mem (cell rule r c) (insert_row rule x cs zones) ≡ true) (sym same)
            (in_row r cs zones c k))
    | inr e ↦ in_rows rs cs (insert_row rule q cs zones) r c (ground arith) k
  ]

  of_rows :
      (rs cs zones : List ℕ) (z : ℕ)
      → mem z (insert_rows rule rs cs zones) ≡ true
      → ((r c : ℕ) × (mem r rs ≡ true) × (mem c cs ≡ true) × (z ≡ cell rule r c))
        ⊎ (mem z zones ≡ true)
  unfolding insert_rows
  of_rows [] cs zones z h = inr h
  of_rows (q ∷ rs) cs zones z h = elim (of_rows rs cs (insert_row rule q cs zones) z h) [
    | inl (r, c, in_rs, in_cs, e) ↦ inl (r, c, ground arith, in_cs, e)
    | inr old ↦ elim (of_row q cs zones z old) [
      | inl (c, in_cs, e) ↦ inl (q, c, ground arith, in_cs, e)
      | inr older ↦ inr older
    ]
  ]

  module _ (g : IsGrid rule) where
    below :
        (r c : ℕ)
        → r < rule.cart_grid_size
        → c < rule.cart_grid_size
        → r * rule.cart_grid_size + c < rule.cart_grid_size * rule.cart_grid_size
    below r c h k =
        let step : suc r * rule.cart_grid_size ≤ rule.cart_grid_size * rule.cart_grid_size =
          mul-le-mul_right rule.cart_grid_size h in
        omega (arith, step, k)

    cell_exact :
        (r c : ℕ)
        → r < rule.cart_grid_size
        → c < rule.cart_grid_size
        → cell rule r c ≡ rule.cart_start_zone + (r * rule.cart_grid_size + c)
    cell_exact r c h k = omega (arith, below r c h k, g.fits)

    row-cell :
        (r c : ℕ) → r < rule.cart_grid_size → c < rule.cart_grid_size → row rule (cell rule r c) ≡ r
    row-cell r c h k =
        ap (λ z. (z - rule.cart_start_zone) / rule.cart_grid_size) (cell_exact r c h k)
        ∙ ap (λ n. n / rule.cart_grid_size) (omega arith)
        ∙ mul-add-div_right g.some_cells r c
        ∙ ap (λ n. r + n) (div-eq_of_lt k)
        ∙ omega arith

    col-cell :
        (r c : ℕ) → r < rule.cart_grid_size → c < rule.cart_grid_size → col rule (cell rule r c) ≡ c
    col-cell r c h k =
        ap (λ z. (z - rule.cart_start_zone) % rule.cart_grid_size) (cell_exact r c h k)
        ∙ ap (λ n. n % rule.cart_grid_size) (omega arith)
        ∙ mul-add-mod_self_right r rule.cart_grid_size c
        ∙ mod-eq_of_lt k

    row_small : (z : ℕ) → OnGrid rule z → row rule z < rule.cart_grid_size
    row_small z h = (div-lt_iff_lt-mul g.some_cells).1 (omega (arith, h.0, h.1))

    col_small : (z : ℕ) → col rule z < rule.cart_grid_size
    col_small z = mod-lt (z - rule.cart_start_zone) g.some_cells

    cell_of : (z : ℕ) → OnGrid rule z → cell rule (row rule z) (col rule z) ≡ z
    cell_of z h =
        cell_exact (row rule z) (col rule z) (row_small z h) (col_small z)
        ∙ omega (arith, div-add-mod' (z - rule.cart_start_zone) rule.cart_grid_size, h.0)

    open_grid :
        (a : ℕ)
        → OnGrid rule a
        → cartesian_grid_zones rule a
          ≡ insert_rows rule
              (window rule.cart_grid_size rule.cart_radius (row rule a))
              (window rule.cart_grid_size rule.cart_radius (col rule a))
              []
    unfolding cartesian_grid_zones
    open_grid a h =
        let grid = g.grid in
        let some_cells = g.some_cells in
        let low = h.0 in
        let high = h.1 in
        let inside : leb (rule.cart_grid_size * rule.cart_grid_size) (a - rule.cart_start_zone)
            ≡ false =
          ground arith in
        let start : ltb a rule.cart_start_zone ≡ false = ground arith in
        let some : (rule.cart_grid_size == 0) ≡ false = ground arith in
        rw (grid, some, start, inside) refl

    cell-Near :
        (a z r c : ℕ)
        → OnGrid rule a
        → mem r (window rule.cart_grid_size rule.cart_radius (row rule a)) ≡ true
        → mem c (window rule.cart_grid_size rule.cart_radius (col rule a)) ≡ true
        → z ≡ cell rule r c
        → Near rule a z
    cell-Near a z r c h in_rs in_cs e =
        let (r_small, r_near) =
          window-mem rule.cart_grid_size rule.cart_radius (row rule a) r (row_small a h) in_rs in
        let (c_small, c_near) =
          window-mem rule.cart_grid_size rule.cart_radius (col rule a) c (col_small a) in_cs in
        let place : z ≡ rule.cart_start_zone + (r * rule.cart_grid_size + c) =
          e ∙ cell_exact r c r_small c_small in
        (
          h,
          (
            (omega (arith, place), omega (arith, place, below r c r_small c_small)),
            (
              subst (Around rule.cart_radius (row rule a))
                  (sym (ap (row rule) e ∙ row-cell r c r_small c_small)) r_near,
              subst (Around rule.cart_radius (col rule a))
                  (sym (ap (col rule) e ∙ col-cell r c r_small c_small)) c_near,
            ),
          ),
        )

    zones-Near :
        (a z : ℕ) → OnGrid rule a → mem z (cartesian_grid_zones rule a) ≡ true → Near rule a z
    zones-Near a z h m =
        elim (of_rows (window rule.cart_grid_size rule.cart_radius (row rule a))
          (window rule.cart_grid_size rule.cart_radius (col rule a)) [] z
          (rw⁻¹ (open_grid a h) m)) [
            | inl (r, c, in_rs, in_cs, e) ↦ cell-Near a z r c h in_rs in_cs e
            | inr none_before ↦ absurd (cc none_before)
          ]

    zones-OnGrid : (a z : ℕ) → mem z (cartesian_grid_zones rule a) ≡ true → OnGrid rule a
    unfolding cartesian_grid_zones
    zones-OnGrid a z =
        if_ind (λ (zs : List ℕ). mem z zs ≡ true → OnGrid rule a)
          (not (is_cartesian rule.kind) || (rule.cart_grid_size == 0)) (λ _ m. absurd (cc m))
          λ _.
            if_ind (λ (zs : List ℕ). mem z zs ≡ true → OnGrid rule a) (ltb a rule.cart_start_zone)
              (λ _ m. absurd (cc m))
              λ after.
                if_ind (λ (zs : List ℕ). mem z zs ≡ true → OnGrid rule a)
                  (leb (rule.cart_grid_size * rule.cart_grid_size) (a - rule.cart_start_zone))
                  (λ _ m. absurd (cc m)) λ before m. (ground arith, ground arith)

    Near-zones : (a z : ℕ) → Near rule a z → mem z (cartesian_grid_zones rule a) ≡ true
    Near-zones a z (h, (k, (near_row, near_col))) = rw (open_grid a h) (
        subst
          (λ x.
            mem x (
              insert_rows rule (window rule.cart_grid_size rule.cart_radius (row rule a))
                (window rule.cart_grid_size rule.cart_radius (col rule a)) [])
            ≡ true)
          (cell_of z k)
          (in_rows (window rule.cart_grid_size rule.cart_radius (row rule a))
            (window rule.cart_grid_size rule.cart_radius (col rule a)) [] (row rule z) (col rule z)
            (mem-window rule.cart_grid_size rule.cart_radius (row rule a) (row rule z)
              (row_small a h) (row_small z k) near_row)
            (mem-window rule.cart_grid_size rule.cart_radius (col rule a) (col rule z) (col_small a)
              (col_small z) near_col)))

    -- For a rule with a grid whose zones fit 32 bits, and whatever its radius, CartesianGridZones for
    -- an avatar's zone has a zone just when both lie on the grid, and the rows and the columns of
    -- their cells are no more than the radius apart; off the grid it is empty.
    pub cartesian_grid_zones-Near :
        (a z : ℕ) → (mem z (cartesian_grid_zones rule a) ≡ true) ↔ Near rule a z
    cartesian_grid_zones-Near a z = (λ m. zones-Near a z (zones-OnGrid a z m) m, Near-zones a z)
