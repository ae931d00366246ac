-- ===== src/Parser/Sound.antt =====
-- What the constructors, the updates and the walk (libdwarfparser/dwarfparser.cpp and the classes of
-- the symbols) leave of the containers of `SymbolManager`.
pub mod Updates
pub mod Entries
pub mod Lifetime
use libdwarfparser.Prelude.{
  ℕ, zero, suc, ◌≡◌, refl, String, Bool, true, false, not, ◌&&◌, Option, none, some, List, ◌+◌, ◌%◌,
  ◌==◌, if◌then◌else◌, nat_eq, string_eq, Bool-cases, Option-cases, inl, inr,
}
use libdwarfparser.Outcome.{Outcome, ok, fail, dwarf_exception, require, undefined}
use libdwarfparser.Map.{Map, find, assign, find-assign_own}
use libdwarfparser.Symbols.{
  Symbol, Kind, TypeKind, RefKind, Pointer, MemberData, base_type, variable, member, ref_base_type,
  array, as_function, as_structured,
}
use libdwarfparser.Manager.{
  SymbolManager, Method, pure, raise, lift, continue, ◌>>=◌, ◌>>◌, deref, store,
}
use libdwarfparser.Manager.Register.{add_array, add_base_type, add_ref_base_type}
use libdwarfparser.Manager.Sound.{IsSound, IsLive, replace-IsSound}
use libdwarfparser.Manager.Sound.Extends.{Extends-trans, Extends-same}
use libdwarfparser.Manager.Sound.Keeps.{
  Keeps, Left, Left-trans, Kept-Left, continue-Left, constructing-Keeps, pure-Keeps, raise-Keeps,
  lift-Keeps, bind-Keeps, deref-Keeps, deref_bind-Keeps, update-Keeps, enter-Keeps, get_id-Keeps,
  add_alias-Keeps,
}
use libdwarfparser.Manager.Sound.Register.{
  add_base_type-Keeps, add_ref_base_type-Keeps, add_variable-Keeps, add_function-Keeps,
  add_array-Kept,
}
use libdwarfparser.Parser.{
  Parser, Die, die_has_attr, get_die_attribute_number, get_die_byte_size, get_die_offset,
  get_die_name,
}
use libdwarfparser.Parser.Objects.{
  number, u32, at_type, at_encoding, at_location, at_upper_bound, at_low_pc, at_const_value,
  at_bit_size, at_bit_offset, at_data_member_location, with_encoding, with_type, with_array,
  with_function, with_location, with_member, with_members, with_values, when, modify, type_of,
  new_symbol, new_base_type, new_ref_base_type, new_pointer, new_array, new_function, new_variable,
  new_member, update_array, update_function, update_variable, add_param, add_member, add_enum,
  add_alternative_dwarf_id, function_at, init_reference, read_location, read_field,
}

pub when-Keeps : (b : Bool) (r : Method (Unit {0})) → Keeps r → Keeps (when b r)
when-Keeps true r h = h
when-Keeps false r h = pure-Keeps tt

pub modify-Keeps : (q : Pointer) (f : Kind → Kind) → Keeps (modify q f)
unfolding modify
modify-Keeps q f = update-Keeps q (λ s. record s { kind = f s.kind }) (λ s. refl)

-- Something is read from the entry and, if it can be, stored.
pub store_number-Keeps :
    {A : Type 0} (o : Outcome A) (q : Pointer) (f : A → Kind → Kind)
    → Keeps (lift o >>= λ n. modify q (f n))
store_number-Keeps o q f = bind-Keeps (lift-Keeps o) (λ n. modify-Keeps q (f n))

pub type_of-Keeps : (p : Parser) (d : Die) → Keeps (type_of p d)
unfolding type_of
type_of-Keeps p d = bind-Keeps (lift-Keeps (get_die_attribute_number p d at_type)) (λ t.
    bind-Keeps (get_id-Keeps (t, p.file_id))
      (λ id. bind-Keeps (lift-Keeps (require (not (id == 0)))) (λ _. pure-Keeps id)))

pub store_type-Keeps :
    (p : Parser) (d : Die) (q : Pointer) (f : ℕ → Kind → Kind)
    → Keeps (type_of p d >>= λ t. modify q (f t))
store_type-Keeps p d q f = bind-Keeps (type_of-Keeps p d) (λ t. modify-Keeps q (f t))

pub new_symbol-Keeps :
    (p : Parser) (d : Die) (name : String) (kind : Kind) → Keeps (new_symbol p d name kind)
unfolding new_symbol
new_symbol-Keeps p d name kind = bind-Keeps (lift-Keeps (get_die_byte_size p d)) (λ size.
    bind-Keeps (lift-Keeps (get_die_offset p d)) (λ offset.
      bind-Keeps (get_id-Keeps (offset, p.file_id))
        (λ id. enter-Keeps (record { name = name; byte_size = size % u32; id = id; kind = kind }))))

pub add_alternative_dwarf_id-Keeps :
    (q : Pointer) (i j : ℕ) → Keeps (add_alternative_dwarf_id q i j)
unfolding add_alternative_dwarf_id
add_alternative_dwarf_id-Keeps q i j = bind-Keeps (get_id-Keeps (i, j)) (λ id. add_alias-Keeps q id)

-- What the constructor of `BaseType` does after that of `Symbol`, and so on.
pub base_type_rest-Keeps :
    (p : Parser) (d : Die) (q : Pointer)
    → Keeps (
        when
          (die_has_attr d at_encoding)
          (number p d at_encoding >>= λ e. modify q (with_encoding e))
        >>= λ _. add_base_type q >>= λ _. pure q)
base_type_rest-Keeps p d q =
    bind-Keeps
      (when-Keeps (die_has_attr d at_encoding) _
        (store_number-Keeps (get_die_attribute_number p d at_encoding) q with_encoding))
      (λ _. bind-Keeps (add_base_type-Keeps q) (λ _. pure-Keeps q))

pub new_base_type-Keeps :
    (p : Parser) (d : Die) (name : String) (t : TypeKind) → Keeps (new_base_type p d name t)
unfolding new_base_type
new_base_type-Keeps p d name t =
    bind-Keeps (new_symbol-Keeps p d name (base_type 0 t))
      (λ q. constructing-Keeps q (base_type_rest-Keeps p d q))

pub ref_type_rest-Keeps :
    (p : Parser) (d : Die) (q : Pointer)
    → Keeps (
        when (die_has_attr d at_type) (type_of p d >>= λ t. modify q (with_type t)) >>= λ _.
        add_ref_base_type q >>= λ _. pure q)
ref_type_rest-Keeps p d q =
    bind-Keeps (when-Keeps (die_has_attr d at_type) _ (store_type-Keeps p d q with_type))
      (λ _. bind-Keeps (add_ref_base_type-Keeps q) (λ _. pure-Keeps q))

pub new_ref_base_type-Keeps :
    (p : Parser) (d : Die) (name : String) (k : RefKind) → Keeps (new_ref_base_type p d name k)
unfolding new_ref_base_type
new_ref_base_type-Keeps p d name k =
    bind-Keeps
      (new_base_type-Keeps p d name (ref_base_type (record { type = some 0; base = none }) k))
      (λ q. constructing-Keeps q (ref_type_rest-Keeps p d q))

pub pointer_rest-Keeps :
    (q : Pointer) → Keeps (deref q >>= λ s. store q (record s { byte_size = 8 }) >>= λ _. pure q)
unfolding store
pointer_rest-Keeps q = deref_bind-Keeps q _ (λ m s there v. (
  replace-IsSound m q s (record s { byte_size = 8 }) there refl v,
  Extends-same m
      (record m {
        heap = record m.heap { cells = assign m.heap.cells q (record s { byte_size = 8 }) };
      })
      refl refl refl refl,
))

pub new_pointer-Keeps :
    (p : Parser) (d : Die) (name : String) (k : RefKind) → Keeps (new_pointer p d name k)
unfolding new_pointer
new_pointer-Keeps p d name k = bind-Keeps (new_ref_base_type-Keeps p d name k) pointer_rest-Keeps

-- A result that is a pointer leads to an object.
abbrev EndsLive : Outcome Pointer × SymbolManager → Type 0
EndsLive (ok q, m) = IsLive m.heap q
EndsLive (fail e, m) = Unit

continue-EndsLive :
    {A : Type 0} (o : Outcome A) (f : A → Method Pointer) (m : SymbolManager)
    → ((a : A) (m' : SymbolManager) → EndsLive (f a m'))
    → EndsLive (continue o f m)
continue-EndsLive (ok a) f m h = h a m
continue-EndsLive (fail e) f m h = tt

continue_live-Left :
    {B : Type 0} (o : Outcome Pointer) (f : Pointer → Method B) (m m' : SymbolManager)
    → ((q : Pointer) → IsLive m'.heap q → IsSound m' → Left m' (f q m'))
    → EndsLive (o, m')
    → Left m (o, m')
    → Left m (continue o f m')
continue_live-Left (ok q) f m m' h live (v, e) = Left-trans (f q m') m m' e (h q live v)
continue_live-Left (fail e) f m m' h live k = tt

new_pointer-EndsLive :
    (p : Parser) (d : Die) (name : String) (k : RefKind) (m : SymbolManager)
    → EndsLive (new_pointer p d name k m)
unfolding new_pointer store deref
new_pointer-EndsLive p d name k m =
    let (o, m') = new_ref_base_type p d name k m in
    continue-EndsLive o _ m' (λ q m''. elim (Option-cases (find m''.heap.cells q)) [
      | inl gone ↦ rw gone tt
      | inr (s, there) ↦ rw there (
        record s { byte_size = 8 },
        find-assign_own m''.heap.cells q (record s { byte_size = 8 }),
      )
    ])

pub new_array-Keeps : (p : Parser) (d : Die) (name : String) → Keeps (new_array p d name)
unfolding new_array
new_array-Keeps p d name =
    let made = new_pointer p d name (array (record { length = 0; length_type = 0 })) in
    record {
      leaves = λ m v.
          continue_live-Left (made m).0 (λ q. add_array q >> pure q) m (made m).1
            (λ q live w.
              continue-Left (add_array q (made m).1).0 (λ _. pure q) (made m).1
                (add_array q (made m).1).1
                (λ _. Keeps.leaves (pure-Keeps q) (add_array q (made m).1).1)
                (Kept-Left (add_array q (made m).1) (made m).1
                  (add_array-Kept (made m).1 q live w)))
            (new_pointer-EndsLive p d name (array (record { length = 0; length_type = 0 })) m)
            (Keeps.leaves
              (new_pointer-Keeps p d name (array (record { length = 0; length_type = 0 }))) m v);
    }
