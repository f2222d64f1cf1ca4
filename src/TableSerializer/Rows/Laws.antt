-- ===== src/TableSerializer/Rows/Laws.antt =====
-- Adding values one by one, adding a row, and reading rows (class TableSerializer).
use mathlib.Core.Path.{subst}
use pxp_rpc.Base.{
  Option-cases, ℕ, zero, suc, ◌+◌, ◌-◌, ◌%◌, ◌^◌, ◌<◌, ◌≡◌, refl, sym, ap, ◌∙◌, false, List, [],
  ◌∷◌, ◌++◌, Option, none, some, length, get_elem?, ◌==◌, if◌then◌else◌, ◌>>=◌, arith,
  length-append, append_assoc, All, get_elem?-append, ◌⊎◌, inl, inr,
}
use pxp_rpc.TableSerializer.{Cell, Table}
use pxp_rpc.TableSerializer.Rows.{
  one_more, push_cells, add_row, cells_at, get_row, next_pos, move_to_next_value_pos_x, push_at,
  add_value,
}

unfoldable pub add_values : Table → List Cell → Option Table
add_values t [] = some t
add_values t (c ∷ cs) = add_value t c >>= λ u. add_values u cs

push_at-append :
    (ready : List (List Cell)) (col : List Cell) (rest : List (List Cell)) (c : Cell)
    → push_at (ready ++ (col ∷ rest)) (length ready) c ≡ some (ready ++ ((col ++ (c ∷ [])) ∷ rest))
unfolding push_at
push_at-append [] col rest c = refl
push_at-append (x ∷ ready) col rest c = rw (push_at-append ready col rest c) refl

-- A value that does not begin a row.
add_value_lem :
    (t : Table) (ready : List (List Cell)) (col : List Cell) (rest : List (List Cell)) (c : Cell)
    (p : ℕ)
    → t.cols ≡ ready ++ (col ∷ rest)
    → t.pos_x ≡ some p
    → suc p ≡ length ready
    → add_value t c
      ≡ some (record t { cols = ready ++ ((col ++ (c ∷ [])) ∷ rest); pos_x = some (length ready) })
unfolding add_value move_to_next_value_pos_x next_pos
add_value_lem t ready col rest c p same here len =
    let at : next_pos t ≡ length ready =
      rw (next_pos, here) (ground (arith, ap length same, length-append ready (col ∷ rest))) in
    let inner : (next_pos t == 0) ≡ false = ground arith in
    rw (inner, at, same, push_at-append ready col rest c) refl

-- The values that are left of a row.
add_values_rest :
    (t : Table) (ready rest : List (List Cell)) (row : List Cell) (p q : ℕ)
    → t.cols ≡ ready ++ rest
    → t.pos_x ≡ some p
    → suc p ≡ length ready
    → length row ≡ length rest
    → q ≡ p + length rest
    → (r : List (List Cell)) × (push_cells (length rest) rest row ≡ some r)
      × (add_values t row ≡ some (record t { cols = ready ++ r; pos_x = some q }))
unfolding push_cells add_values
add_values_rest t ready [] [] p q same here len lens last =
    let pos : t.pos_x ≡ some q = here ∙ ap some (omega (arith, last)) in
    ([], refl, rw (← same, ← pos) refl)
add_values_rest t ready [] (c ∷ row) p q same here len lens last = absurd (omega (arith, lens))
add_values_rest t ready (col ∷ rest) [] p q same here len lens last = absurd (omega (arith, lens))
add_values_rest t ready (col ∷ rest) (c ∷ row) p q same here len lens last =
    let x = col ++ (c ∷ []) in
    let u : Table = record t { cols = ready ++ (x ∷ rest); pos_x = some (length ready) } in
    let one : length (ready ++ (x ∷ [])) ≡ suc (length ready) =
      omega (arith, length-append ready (x ∷ [])) in
    let (r, er, eu) =
      add_values_rest u (ready ++ (x ∷ [])) rest row (length ready) q
        (sym (append_assoc ready (x ∷ []) rest)) refl (sym one) (omega (arith, lens))
        (omega (arith, last, len)) in
    (
      x ∷ r,
      rw er refl,
      rw (add_value_lem t ready col rest c p same here len) (
          eu
          ∙ ap (λ cs. some (record t { cols = cs; pos_x = some q }))
              (append_assoc ready (x ∷ []) r)),
    )

next_pos-start :
    (t : Table) (col : List Cell) (rest : List (List Cell))
    → t.cols ≡ col ∷ rest
    → (t.pos_x ≡ none) ⊎ (t.pos_x ≡ some (length rest))
    → next_pos t ≡ 0
unfolding next_pos
next_pos-start t col rest same (inl e) = rw (e, same) (ground arith)
next_pos-start t col rest same (inr e) = rw (e, same) (ground arith)

-- The first value of a row, where `moveToNextValuePosX` is before the first column.
add_value_first :
    (t : Table) (col : List Cell) (rest : List (List Cell)) (c : Cell)
    → t.cols ≡ col ∷ rest
    → (t.pos_x ≡ none) ⊎ (t.pos_x ≡ some (length rest))
    → add_value t c ≡ (
        one_more t.row_cnt >>= λ n.
        some (record t { cols = (col ++ (c ∷ [])) ∷ rest; pos_x = some 0; row_cnt = n }))
unfolding add_value move_to_next_value_pos_x push_at
add_value_first t col rest c same before = elim (Option-cases (one_more t.row_cnt)) [
  | inl e ↦ rw (next_pos-start t col rest same before, e) refl
  | inr (n, e) ↦ rw (next_pos-start t col rest same before, e, same) refl
]

add_row_lem :
    (t : Table) (col : List Cell) (rest : List (List Cell)) (c : Cell) (row : List Cell)
    (r : List (List Cell)) (n : ℕ)
    → t.cols ≡ col ∷ rest
    → length t.columns_type ≡ suc (length rest)
    → push_cells (length rest) rest row ≡ some r
    → one_more t.row_cnt ≡ some n
    → (add_row t (c ∷ row) >>= λ v. some (record v { pos_x = some (length rest) }))
      ≡ some (record t { cols = (col ++ (c ∷ [])) ∷ r; row_cnt = n; pos_x = some (length rest) })
unfolding add_row push_cells
add_row_lem t col rest c row r n same letters er e = rw (letters, same, er, e) refl

-- Adding the values of a row one by one is adding the row, when the last value ended a row or none
-- was added yet: the columns and the number of rows are the same, and the next value begins a row
-- again.
pub add_values-add_row :
    (t : Table) (col : List Cell) (rest : List (List Cell)) (c : Cell) (row : List Cell)
    → t.cols ≡ col ∷ rest
    → length t.columns_type ≡ suc (length rest)
    → length row ≡ length rest
    → (t.pos_x ≡ none) ⊎ (t.pos_x ≡ some (length rest))
    → add_values t (c ∷ row)
      ≡ (add_row t (c ∷ row) >>= λ u. some (record u { pos_x = some (length rest) }))
unfolding add_values add_row push_cells
add_values-add_row t col rest c row same letters lens before =
    let (r, er, _) =
      add_values_rest (record t { cols = col ∷ rest; pos_x = some 0 }) (col ∷ []) rest row 0
        (length rest) refl refl refl lens (omega arith) in
    elim (Option-cases (one_more t.row_cnt)) [
      | inl e ↦ rw (add_value_first t col rest c same before, add_row, letters, same, er, e) refl
      | inr (n, e) ↦
          let u : Table = record t {
            cols = (col ++ (c ∷ [])) ∷ rest;
            pos_x = some 0;
            row_cnt = n;
          } in
          let first : add_value t c ≡ some u =
            add_value_first t col rest c same before ∙ rw e refl in
          let (r1, er1, eu) =
            add_values_rest u ((col ++ (c ∷ [])) ∷ []) rest row 0 (length rest) refl refl refl lens
              (omega arith) in
          (rw first eu) ∙ sym (add_row_lem t col rest c row r1 n same letters er1 e)
    ]

get_elem?-append_lt :
    (xs ys : List Cell) (i : ℕ) → i < length xs → get_elem? (xs ++ ys) i ≡ get_elem? xs i
get_elem?-append_lt [] ys i h = absurd (omega arith)
get_elem?-append_lt (x ∷ xs) ys zero h = refl
get_elem?-append_lt (x ∷ xs) ys (suc i) h = get_elem?-append_lt xs ys i (omega arith)

-- One cell pushed on each column, all of which have `m` cells.
push_cells_lem :
    (m : ℕ) (cols : List (List Cell)) (row : List Cell)
    → All (λ col. length col ≡ m) cols
    → length row ≡ length cols
    → (r : List (List Cell)) × (push_cells (length cols) cols row ≡ some r)
      × (cells_at r m ≡ some row)
      × ((i : ℕ) → i < m → cells_at r i ≡ cells_at cols i)
      × All (λ col. length col ≡ suc m) r
unfolding push_cells cells_at
push_cells_lem m [] [] full lens = ([], refl, refl, (λ i h. refl), tt)
push_cells_lem m [] (c ∷ row) full lens = absurd (omega arith)
push_cells_lem m (col ∷ cols) [] full lens = absurd (omega arith)
push_cells_lem m (col ∷ cols) (c ∷ row) (f, fs) lens =
    let (r, e, last, before, grown) = push_cells_lem m cols row fs (omega arith) in
    let here : get_elem? (col ++ (c ∷ [])) m ≡ some c =
      subst (λ k. get_elem? (col ++ (c ∷ [])) k ≡ some c) f (get_elem?-append col [] c) in
    (
      (col ++ (c ∷ [])) ∷ r,
      rw e refl,
      rw (here, last) refl,
      λ i h. rw (get_elem?-append_lt col (c ∷ []) i (omega (arith, f)), before i h) refl,
      (omega (arith, f, length-append col (c ∷ [])), grown),
    )

-- A full row added to a table whose columns have all `rowCnt` cells is its new last row, the other
-- rows are as before, and all columns have `rowCnt` cells again.
pub get_row-add_row :
    (t : Table) (row : List Cell)
    → All (λ col. length col ≡ t.row_cnt) t.cols
    → length t.columns_type ≡ length t.cols
    → length row ≡ length t.cols
    → t.row_cnt < 2 ^ 31 - 1
    → (u : Table) × (add_row t row ≡ some u)
      × (get_row u t.row_cnt ≡ some row)
      × ((i : ℕ) → i < t.row_cnt → get_row u i ≡ get_row t i)
      × All (λ col. length col ≡ u.row_cnt) u.cols
unfolding add_row get_row one_more
get_row-add_row t row full letters lens room =
    let (r, e, last, before, grown) = push_cells_lem t.row_cnt t.cols row full lens in
    let count : (if t.row_cnt == 2 ^ 31 - 1 then none else some ((t.row_cnt + 1) % 2 ^ 32))
        ≡ some (suc t.row_cnt) =
      ground arith in
    (
      record t { cols = r; row_cnt = suc t.row_cnt },
      rw (letters, e, count) refl,
      last,
      before,
      grown,
    )
