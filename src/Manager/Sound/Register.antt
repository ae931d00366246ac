-- ===== src/Manager/Sound/Register.antt =====
-- The methods of `SymbolManager` that enter or look up a symbol (libdwarfparser/symbolmanager.cpp)
-- keep its containers sound.
use libdwarfparser.Prelude.{
  refl, ◌++◌, if◌then◌else◌, String, Bool, none, some, List, [], ◌∷◌, ◌==◌, nat_eq, string_eq,
  Bool-cases, Option-cases, inl, inr,
}
use libdwarfparser.Map.{Map, find, assign, All-assign}
use libdwarfparser.Symbols.{Kind, Pointer}
use libdwarfparser.Manager.{SymbolManager, get, put, raise, ◌>>=◌}
use libdwarfparser.Manager.Register.{
  add_base_type, add_ref_base_type, add_function, add_array, add_variable,
}
use libdwarfparser.Manager.Names.{
  first_of_class, find_class_by_name, find_ref_base_type_by_name, find_variable_by_name,
  equal_range,
}
use libdwarfparser.Manager.Sound.{IsSound, IsLive, AllLive, All-snoc}
use libdwarfparser.Manager.Sound.Extends.{Extends-refl, Extends-same}
use libdwarfparser.Outcome.{deadlock}
use libdwarfparser.Manager.Sound.Keeps.{
  Keeps, Kept, still-Keeps, pure-Keeps, bind-Keeps, deref-Keeps, deref_bind-Keeps,
}

pub add_base_type-Keeps : (q : Pointer) → Keeps (add_base_type q)
unfolding add_base_type
add_base_type-Keeps q = deref_bind-Keeps q _ (λ m s there (h, i, u, n, b, f, r, v, t, fs, ars, es).
    elim (Bool-cases (s.name == "")) [
      | inl nameless ↦ rw nameless ((h, i, u, n, b, f, r, v, t, fs, ars, es), Extends-refl m)
      | inr named ↦ rw named (
        (
          h,
          i,
          u,
          n,
          All-snoc _ m.base_type_name_map (s.name, q) b (s, there),
          f,
          r,
          v,
          t,
          fs,
          ars,
          es,
        ),
        Extends-same m (record m { base_type_name_map = m.base_type_name_map ++ (s.name, q) ∷ [] })
            refl refl refl refl,
      )
    ])

pub add_ref_base_type-Keeps : (q : Pointer) → Keeps (add_ref_base_type q)
unfolding add_ref_base_type
add_ref_base_type-Keeps q =
    deref_bind-Keeps q _ (λ m s there (h, i, u, n, b, f, r, v, t, fs, ars, es).
      elim (Bool-cases (s.name == "")) [
        | inl nameless ↦ rw nameless ((h, i, u, n, b, f, r, v, t, fs, ars, es), Extends-refl m)
        | inr named ↦ rw named (
          (
            h,
            i,
            u,
            n,
            b,
            f,
            All-assign (λ e. IsLive m.heap e.1) m.ref_base_type_name_map s.name q r (s, there),
            v,
            t,
            fs,
            ars,
            es,
          ),
          Extends-same m
              (record m { ref_base_type_name_map = assign m.ref_base_type_name_map s.name q }) refl
              refl refl refl,
        )
      ])

pub add_variable-Keeps : (q : Pointer) → Keeps (add_variable q)
unfolding add_variable
add_variable-Keeps q = deref_bind-Keeps q _ (λ m s there (h, i, u, n, b, f, r, v, t, fs, ars, es).
    elim (Bool-cases (s.name == "")) [
      | inl nameless ↦ rw nameless ((h, i, u, n, b, f, r, v, t, fs, ars, es), Extends-refl m)
      | inr named ↦ rw named (
        (
          h,
          i,
          u,
          n,
          b,
          f,
          r,
          All-assign (λ e. IsLive m.heap e.1) m.variable_name_map s.name q v (s, there),
          t,
          fs,
          ars,
          es,
        ),
        Extends-same m (record m { variable_name_map = assign m.variable_name_map s.name q }) refl
            refl refl refl,
      )
    ])

-- An array is entered without being read.
pub add_array-Kept :
    (m : SymbolManager) (q : Pointer) → IsLive m.heap q → IsSound m → Kept m (add_array q m).1
unfolding add_array
add_array-Kept m q live (h, i, u, n, b, f, r, v, t, fs, ars, es) =
    elim (Bool-cases m.array_vector_locked) [
      | inl locked ↦
          rw locked ((h, i, u, n, b, f, r, v, t, fs, ars, es), Extends-same _ _ refl refl refl refl)
      | inr open_ ↦ rw open_ (
        (h, i, u, n, b, f, r, v, t, fs, All-snoc _ m.array_vector q ars live, es),
        Extends-same _ _ refl refl refl refl,
      )
    ]

-- The list that a function joins, once its name is entered.
join_list-Kept :
    (m : SymbolManager) (q : Pointer) (names : Map String Pointer)
    → IsLive m.heap q
    → AllLive m.heap names
    → IsSound m
    → Kept m
        ((get >>= λ m'.
            if m'.func_list_locked
            then raise {A = Unit {0}} deadlock
            else put (record m' { func_list = m'.func_list ++ q ∷ [] }))
          (record m { function_name_map = names })).1
join_list-Kept m q names live named (h, i, u, n, b, f, r, v, t, fs, ars, es) =
    elim (Bool-cases m.func_list_locked) [
      | inl locked ↦
          rw locked
            ((h, i, u, n, b, named, r, v, t, fs, ars, es), Extends-same _ _ refl refl refl refl)
      | inr open_ ↦ rw open_ (
        (h, i, u, n, b, named, r, v, t, All-snoc _ m.func_list q fs live, ars, es),
        Extends-same _ _ refl refl refl refl,
      )
    ]

first_keeps_name :
    (m : SymbolManager) (q : Pointer) (name : String)
    → IsLive m.heap q
    → AllLive m.heap m.function_name_map
    → AllLive m.heap (
        if name == "" then m.function_name_map else elim (find m.function_name_map name) [
          | none ↦ assign m.function_name_map name q
          | some _ ↦ m.function_name_map
        ])
first_keeps_name m q name live f = elim (Bool-cases (name == "")) [
  | inl nameless ↦ rw nameless f
  | inr named ↦ elim (Option-cases (find m.function_name_map name)) [
    | inl new ↦
        rw (named, new) (All-assign (λ e. IsLive m.heap e.1) m.function_name_map name q f live)
    | inr (p, known) ↦ rw (named, known) f
  ]
]

pub add_function-Keeps : (q : Pointer) → Keeps (add_function q)
unfolding add_function
add_function-Keeps q = deref_bind-Keeps q _ (λ m s there (h, i, u, n, b, f, r, v, t, fs, ars, es).
    join_list-Kept m q _ (s, there) (first_keeps_name m q s.name (s, there) f)
      (h, i, u, n, b, f, r, v, t, fs, ars, es))

pub first_of_class-Keeps : (cast : Kind → Bool) (ps : List Pointer) → Keeps (first_of_class cast ps)
unfolding first_of_class
first_of_class-Keeps cast [] = pure-Keeps none
first_of_class-Keeps cast (p ∷ ps) = bind-Keeps (deref-Keeps p) (λ s.
    elim (Bool-cases (cast s.kind)) [
      | inl is ↦ rw is (pure-Keeps (some p))
      | inr other ↦ rw other (first_of_class-Keeps cast ps)
    ])

pub find_class_by_name-Keeps :
    (cast : Kind → Bool) (name : String) → Keeps (find_class_by_name cast name)
unfolding find_class_by_name
find_class_by_name-Keeps cast name = record {
  leaves =
      λ m v. Keeps.leaves (first_of_class-Keeps cast (equal_range m.base_type_name_map name)) m v;
}

pub find_ref_base_type_by_name-Keeps : (name : String) → Keeps (find_ref_base_type_by_name name)
unfolding find_ref_base_type_by_name
find_ref_base_type_by_name-Keeps name = still-Keeps (find_ref_base_type_by_name name) (λ m. refl)

pub find_variable_by_name-Keeps : (name : String) → Keeps (find_variable_by_name name)
unfolding find_variable_by_name
find_variable_by_name-Keeps name = still-Keeps (find_variable_by_name name) (λ m. refl)
