-- ===== src/Navigate/Params.antt =====
-- The parameters and the result of a function by their types (libdwarfparser/function.cpp), and the
-- instances of variables and types.
use libdwarfparser.Prelude.{
  ℕ, ◌≡◌, refl, Bool-cases, inl, inr, String, true, false, none, some, List, [], ◌∷◌, ◌==◌,
  string_eq, nat_eq, if◌then◌else◌,
}
use libdwarfparser.Outcome.{ok, undefined, or_fail}
use libdwarfparser.Map.{find}
use libdwarfparser.Symbols.{
  Symbol, Pointer, FunctionData, TypeKind, base_type, as_function, as_base_type, as_variable,
}
use libdwarfparser.Manager.{SymbolManager, Method, pure, raise, ◌>>=◌, deref, continue, lift, ◌>>◌}
use libdwarfparser.Navigate.{with_base}
use libdwarfparser.Navigate.Instances.{Instance, assert, non_zero}
use libdwarfparser.Parser.Objects.{modify, with_location}
use libdwarfparser.Manager.Lookup.{find_class_by_id, find_base_type_by_id, find_symbol_by_id}

-- The fields of the function that a pointer leads to.
unfoldable pub function_of : Pointer → Method FunctionData
unfolding deref as_function
function_of q =
    deref q >>= λ s. elim (as_function s.kind) [ none ↦ raise undefined | some f ↦ pure f ]

-- The loops of `getFullParamList` and `getParamByName`; the null pointer is 0.
unfoldable pub full_params : List (String × ℕ) → Method (List (String × Pointer))
unfolding find_base_type_by_id
full_params [] = pure []
full_params ((name, id) ∷ params) =
    find_base_type_by_id id >>= λ t. full_params params >>= λ rest. pure ((name, t) ∷ rest)

unfoldable pub param_named : String → List (String × ℕ) → Method Pointer
unfolding find_base_type_by_id
param_named name [] = pure 0
param_named name ((n, id) ∷ params) = elim (n == name) [
  | true ↦ find_base_type_by_id id
  | false ↦ param_named name params
]

unfoldable pub get_full_param_list : Pointer → Method (List (String × Pointer))
unfolding function_of full_params
get_full_param_list q = do f ← function_of q; full_params f.param_list

unfoldable pub get_param_by_name : Pointer → String → Method Pointer
unfolding function_of param_named
get_param_by_name q name = do f ← function_of q; param_named name f.param_list

unfoldable pub get_ret_type : Pointer → Method Pointer
unfolding function_of find_base_type_by_id
get_ret_type q = do f ← function_of q; find_base_type_by_id f.rettype

-- `ReferencingType::getBaseType` of a variable, and the instance at its location
-- (libdwarfparser/variable.cpp).
unfoldable pub variable_base_type : Pointer → Method Pointer
unfolding deref as_variable find_base_type_by_id modify
variable_base_type q = deref q >>= λ s. elim (as_variable s.kind) [
  | none ↦ raise undefined
  | some (r, location) ↦ lift (or_fail r.type undefined) >>= λ type.
      find_base_type_by_id type >>= λ b. modify q (with_base b) >> pure b
]

unfoldable pub variable_instance : Pointer → Method Instance
unfolding deref as_variable variable_base_type
variable_instance q = deref q >>= λ s. elim (as_variable s.kind) [
  | none ↦ raise undefined
  | some (r, location) ↦ assert (non_zero location) >>= λ _.
      variable_base_type q >>= λ b. pure (record { type = b; address = location })
]

-- `Variable::setLocation`
unfoldable pub set_location : Pointer → ℕ → Method (Unit {0})
unfolding modify with_location
set_location q location = modify q (with_location location)

-- `BaseType::getInstance` (libdwarfparser/basetype.cpp).
abbrev pub type_instance : Pointer → ℕ → Instance
type_instance q va = record { type = q; address = va }

-- The type of the first parameter of a name in a list of parameters with their types.
unfoldable pub first_named : String → List (String × Pointer) → Pointer
first_named name [] = 0
first_named name ((n, t) ∷ params) = if n == name then t else first_named name params

-- The identifier is that of a base type.
abbrev pub IsType : SymbolManager → ℕ → Type 0
IsType m id =
    (t : Pointer) × (s : Symbol) × (e : ℕ) × (k : TypeKind) × (find m.symbol_id_map id ≡ some t)
    × (find m.heap.cells t ≡ some s)
    × (s.kind ≡ base_type e k)

abbrev pub AreTypes : SymbolManager → List (String × ℕ) → Type 0
AreTypes m [] = Unit
AreTypes m ((name, id) ∷ params) = IsType m id × AreTypes m params

found_type :
    (m : SymbolManager) (id t : ℕ) (s : Symbol) (e : ℕ) (k : TypeKind)
    → find m.symbol_id_map id ≡ some t
    → find m.heap.cells t ≡ some s
    → s.kind ≡ base_type e k
    → find_base_type_by_id id m ≡ (ok t, m)
unfolding find_base_type_by_id find_class_by_id find_symbol_by_id as_base_type deref
found_type m id t s e k known at is_type =
    let found : find_symbol_by_id id m ≡ (ok t, m) = rw (known, find_symbol_by_id) refl in
    rw (found, at, is_type) refl

params_lem :
    (m : SymbolManager) (params : List (String × ℕ))
    → AreTypes m params
    → (full : List (String × Pointer)) × (full_params params m ≡ (ok full, m))
      × ((name : String) → param_named name params m ≡ (ok (first_named name full), m))
unfolding full_params param_named first_named
params_lem m [] types = ([], refl, λ name. refl)
params_lem m ((n, id) ∷ params) ((t, s, e, k, known, at, is_type), types) =
    let (full, all, each) = params_lem m params types in
    let first = found_type m id t s e k known at is_type in
    (
      (n, t) ∷ full,
      rw (first, continue, all) refl,
      λ name. elim (Bool-cases (n == name)) [
        | inl same ↦ rw (same, param_named, first) refl
        | inr other ↦ rw (other, param_named) (each name)
      ],
    )

-- Where the identifiers of the parameters of a function are those of base types, `getFullParamList`
-- returns a list, and `getParamByName` gives, for every name, the type of the first parameter of the
-- name in that list, or a null pointer if there is none; neither changes the manager.
pub get_param_by_name-full :
    (m : SymbolManager) (q : Pointer) (s : Symbol) (f : FunctionData)
    → find m.heap.cells q ≡ some s
    → as_function s.kind ≡ some f
    → AreTypes m f.param_list
    → (full : List (String × Pointer)) × (get_full_param_list q m ≡ (ok full, m))
      × ((name : String) → get_param_by_name q name m ≡ (ok (first_named name full), m))
unfolding get_full_param_list get_param_by_name deref
get_param_by_name-full m q s f at is_function types =
    let (full, all, each) = params_lem m f.param_list types in
    (full, rw (at, is_function, continue) all, λ name. rw (at, is_function, continue) (each name))
