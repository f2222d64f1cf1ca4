-- ===== src/Bridge/Variables.antt =====
-- The variables of runtime_bridge/c-modules/pxprpc_rtbridge_base/init.hpp: `rtbvars`, a map from names
-- to values, and `rtbvarsOnChange`, the event dispatchers that hear of changes.
use pxp_rpc.Base.{
  ℕ, ◌≡◌, refl, sym, ◌∙◌, true, false, List, [], ◌∷◌, Option, none, some, if◌then◌else◌, arith,
  Bool-cases, inl, inr,
}
use pxp_rpc.Pipe.Servers.{same_name, same_name_sym}
use pxp_rpc.Callable.Dispatcher.{Dispatcher, fire}

abbrev pub Variables : Type 0
Variables = List (List ℕ × List ℕ)

-- `rtbvars.erase`, `insert_or_assign` and `find`.
unfoldable pub erase : Variables → List ℕ → Variables
erase [] name = []
erase (e ∷ m) name = let rest = erase m name in if same_name e.0 name then rest else e ∷ rest

unfoldable pub insert_or_assign : Variables → List ℕ → List ℕ → Variables
insert_or_assign [] name value = (name, value) ∷ []
insert_or_assign (e ∷ m) name value =
    let rest = insert_or_assign m name value in
    if same_name e.0 name then (e.0, value) ∷ m else e ∷ rest

unfoldable pub find : Variables → List ℕ → Option (List ℕ)
find [] name = none
find (e ∷ m) name = let rest = find m name in if same_name e.0 name then some e.1 else rest

-- `rtbvars` and `rtbvarsOnChange`
pub record Bridge : Type 0 where
  pub rtbvars : Variables
  pub on_change : List Dispatcher

-- The loop of `rtbvarsSet`.
unfoldable pub fire_all : List Dispatcher → List Dispatcher
fire_all [] = []
fire_all (d ∷ ds) = fire d ∷ fire_all ds

-- `rtbvarsSet`
unfoldable pub variable_set : Bridge → List ℕ → List ℕ → Bridge
variable_set b name value = record {
  rtbvars = elim value [
    | [] ↦ erase b.rtbvars name
    | v ∷ vs ↦ insert_or_assign b.rtbvars name (v ∷ vs)
  ];
  on_change = fire_all b.on_change;
}

-- `pxprpc_rtbridge.variable_get`: what it is resolved with.
unfoldable pub variable_get : Bridge → List ℕ → List ℕ
variable_get b name = elim (find b.rtbvars name) [ none ↦ [] | some v ↦ v ]

same_name_trans : (xs ys zs : List ℕ) → same_name xs ys ≡ true → same_name xs zs ≡ same_name ys zs
unfolding same_name
same_name_trans [] [] zs e = refl
same_name_trans [] (y ∷ ys) zs e = absurd (ground arith)
same_name_trans (x ∷ xs) [] zs e = absurd (ground arith)
same_name_trans (x ∷ xs) (y ∷ ys) [] e = refl
same_name_trans (x ∷ xs) (y ∷ ys) (z ∷ zs) e = ground (arith, same_name_trans xs ys zs)

apart :
    (here name other : List ℕ)
    → same_name here name ≡ false
    → same_name here other ≡ true
    → same_name name other ≡ false
apart here name other diff hit =
    same_name_sym name other ∙ (sym (same_name_trans here other name hit) ∙ diff)

find-erase :
    (m : Variables) (name other : List ℕ)
    → find (erase m name) other ≡ (if same_name name other then none else find m other)
unfolding find erase
find-erase [] name other = ground arith
find-erase (e ∷ m) name other = elim (Bool-cases (same_name e.0 name)) [
  | inl same ↦
      (let t = same_name_trans e.0 name other same in
        rw (same, find-erase m name other, t) (ground arith))
  | inr diff ↦ (elim (Bool-cases (same_name e.0 other)) [
    | inl hit ↦ rw (diff, hit, apart e.0 name other diff hit) refl
    | inr miss ↦ rw (diff, miss, find-erase m name other) refl
  ])
]

find-insert_or_assign :
    (m : Variables) (name value other : List ℕ)
    → find (insert_or_assign m name value) other
      ≡ (if same_name name other then some value else find m other)
unfolding find insert_or_assign
find-insert_or_assign [] name value other = refl
find-insert_or_assign (e ∷ m) name value other = elim (Bool-cases (same_name e.0 name)) [
  | inl same ↦ (let t = same_name_trans e.0 name other same in rw (same, t) (ground arith))
  | inr diff ↦ (elim (Bool-cases (same_name e.0 other)) [
    | inl hit ↦ rw (diff, hit, apart e.0 name other diff hit) refl
    | inr miss ↦ rw (diff, miss, find-insert_or_assign m name value other) refl
  ])
]

-- After a variable is set, that name gives its value, and every other name what it gave before; a
-- variable that is set to nothing gives nothing, as does one that was never set. Every dispatcher has
-- had its event.
pub variable_get-variable_set :
    (b : Bridge) (name value other : List ℕ)
    → (variable_get (variable_set b name value) other
        ≡ (if same_name name other then value else variable_get b other))
      × ((variable_set b name value).on_change ≡ fire_all b.on_change)
unfolding variable_get variable_set
variable_get-variable_set b name [] other =
    (rw (variable_get, find-erase b.rtbvars name other) (ground arith), refl)
variable_get-variable_set b name (v ∷ vs) other =
    (rw (variable_get, find-insert_or_assign b.rtbvars name (v ∷ vs) other) (ground arith), refl)
