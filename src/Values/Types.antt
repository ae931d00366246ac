-- ===== src/Values/Types.antt =====
-- The types of the values that `BaseType::getValue` and `BaseType::getRawValue`
-- (libdwarfparser/basetype.h) return.
use libdwarfparser.Prelude.{
  ℕ, ◌%◌, ◌^◌, ◌<◌, ◌≡◌, ◌≢◌, refl, String, Bool, true, false, Option, none, some, ◌==◌, nat_eq,
  nat_beq_iff, arith, [], ◌∷◌, get_or, sym, ap, ◌∙◌, subst, if◌then◌else◌,
}
use libdwarfparser.Outcome.{Outcome, ok, fail, assertion, dwarf_type_exception}
use libdwarfparser.Parser.Objects.{u32}
use libdwarfparser.Vmi.{
  Libvmi, Vm, value_or_zero, read_8_from_va, read_16_from_va, read_32_from_va, read_64_from_va,
}
use libdwarfparser.Navigate.Instances.{non_zero}
use libdwarfparser.Values.{
  Encoding, ate_boolean, ate_float, ate_signed, ate_signed_char, ate_unsigned, ate_unsigned_char,
  ate_other, ValueType, bool_type, float_type, int8, uint8, int16, uint16, int32, uint32, int64,
  uint64, string_type, any_type, Value, truth, rounded, bits, text, typeid, get_value,
  get_raw_value, read_encoded,
}

-- The values of a type. The integers are given by their bits.
abbrev pub HasType : ValueType → Value → Type 0
HasType bool_type (truth b) = Unit
HasType float_type (rounded n) = n < 2 ^ 64
HasType int8 (bits n) = n < 2 ^ 8
HasType uint8 (bits n) = n < 2 ^ 8
HasType int16 (bits n) = n < 2 ^ 16
HasType uint16 (bits n) = n < 2 ^ 16
HasType int32 (bits n) = n < 2 ^ 32
HasType uint32 (bits n) = n < 2 ^ 32
HasType int64 (bits n) = n < 2 ^ 64
HasType uint64 (bits n) = n < 2 ^ 64
HasType string_type (text s) = Unit
HasType any_type (bits n) = n ≡ 0
HasType _ _ = ⊥

-- The type that an encoding is read as.
abbrev pub expected : Encoding → Option ValueType
expected ate_boolean = some bool_type
expected ate_float = some float_type
expected ate_signed = some int64
expected ate_signed_char = some int8
expected ate_unsigned = some uint64
expected ate_unsigned_char = some int8
expected ate_other = none

abbrev pub IsBelow : ℕ → Option ℕ → Type 0
IsBelow bound none = Unit
IsBelow bound (some n) = n < bound

-- What libvmi reads has as many bits as were asked for.
pub record ReadsWords (v : Libvmi) : Type 0 where
  pub below_8 : (va pid : ℕ) → IsBelow (2 ^ 8) (v.read_8_va va pid)
  pub below_16 : (va pid : ℕ) → IsBelow (2 ^ 16) (v.read_16_va va pid)
  pub below_32 : (va pid : ℕ) → IsBelow (2 ^ 32) (v.read_32_va va pid)
  pub below_64 : (va pid : ℕ) → IsBelow (2 ^ 64) (v.read_64_va va pid)

value_below : (bound : ℕ) (o : Option ℕ) → 0 < bound → IsBelow bound o → value_or_zero o < bound
value_below bound none positive below = positive
value_below bound (some n) positive below = below

pub non_zero-true : (n : ℕ) → n ≢ 0 → non_zero n ≡ true
non_zero-true n h = ground (arith, nat_beq_iff n 0)

-- A method that returns a value of a type.
abbrev pub Gives : ValueType → Outcome Value → Type 0
Gives t o = (x : Value) × (o ≡ ok x) × HasType t x

-- A method that ends in a `DwarfTypeException`.
abbrev pub Refuses : Outcome Value → Type 0
Refuses o = (message : String) × (o ≡ fail (dwarf_type_exception message))

-- What a test of the type asked for decides.
abbrev pub Settles : Bool → ValueType → Outcome Value → Type 0
Settles true t o = Gives t o
Settles false t o = Refuses o

-- What the `switch` may do for a type, where the type expected is as given.
abbrev pub Answers : Option ValueType → ValueType → Outcome Value → Type 0
Answers none t o = o ≡ fail assertion
Answers (some t') t o = Settles (typeid t == typeid t') t o

-- `typeid` tells types apart.
abbrev type_of : ℕ → ValueType
type_of n =
    get_or
      (bool_type ∷ float_type ∷ int8 ∷ uint8 ∷ int16 ∷ uint16 ∷ int32 ∷ uint32 ∷ int64 ∷ uint64
        ∷ string_type ∷ [])
      n any_type

type_of-typeid : (t : ValueType) → type_of (typeid t) ≡ t
type_of-typeid bool_type = refl
type_of-typeid float_type = refl
type_of-typeid int8 = refl
type_of-typeid uint8 = refl
type_of-typeid int16 = refl
type_of-typeid uint16 = refl
type_of-typeid int32 = refl
type_of-typeid uint32 = refl
type_of-typeid int64 = refl
type_of-typeid uint64 = refl
type_of-typeid string_type = refl
type_of-typeid any_type = refl

typeid-injective : (t t' : ValueType) → (typeid t == typeid t') ≡ true → t' ≡ t
typeid-injective t t' same =
    let ids : typeid t' ≡ typeid t = ground (arith, nat_beq_iff (typeid t) (typeid t')) in
    sym (type_of-typeid t') ∙ ap type_of ids ∙ type_of-typeid t

-- A case of the `switch`.
answer :
    (t t' : ValueType) (x : Value) (message : String)
    → HasType t' x
    → Answers
        (some t')
        t
        (if typeid t == typeid t' then ok x else fail (dwarf_type_exception message))
answer t t' x message typed =
    settle (typeid t == typeid t')
      (λ same. subst (λ t''. HasType t'' x) (typeid-injective t t' same) typed)
  where
    settle :
        (b : Bool)
        → (b ≡ true → HasType t x)
        → Settles b t (if b then ok x else fail (dwarf_type_exception message))
    settle true has = (x, refl, has refl)
    settle false has = (message, refl)

module _ (v : Libvmi) (vm : Vm) (words : ReadsWords v) where
  word_8 : (va pid : ℕ) → read_8_from_va v va pid < 2 ^ 8
  word_8 va pid = value_below (2 ^ 8) (v.read_8_va va pid) (omega arith) (words.below_8 va pid)

  word_16 : (va pid : ℕ) → read_16_from_va v va pid < 2 ^ 16
  word_16 va pid = value_below (2 ^ 16) (v.read_16_va va pid) (omega arith) (words.below_16 va pid)

  word_32 : (va pid : ℕ) → read_32_from_va v va pid < 2 ^ 32
  word_32 va pid = value_below (2 ^ 32) (v.read_32_va va pid) (omega arith) (words.below_32 va pid)

  word_64 : (va pid : ℕ) → read_64_from_va v va pid < 2 ^ 64
  word_64 va pid = value_below (2 ^ 64) (v.read_64_va va pid) (omega arith) (words.below_64 va pid)

  read_encoded-Answers :
      (t : ValueType) (e : Encoding) (va pid : ℕ)
      → vm.has_instance ≡ true
      → Answers (expected e) t (read_encoded v vm t e va pid)
  unfolding read_encoded
  read_encoded-Answers t ate_boolean va pid ready =
      rw ready (answer t bool_type (truth (non_zero (read_64_from_va v va pid))) "Type not bool" tt)
  read_encoded-Answers t ate_float va pid ready =
      rw ready
        (answer t float_type (rounded (read_64_from_va v va pid)) "Type not float" (word_64 va pid))
  read_encoded-Answers t ate_signed va pid ready =
      rw ready
        (answer t int64 (bits (read_64_from_va v va pid)) "Type not int64_t" (word_64 va pid))
  read_encoded-Answers t ate_signed_char va pid ready =
      rw ready (answer t int8 (bits (read_8_from_va v va pid)) "Type not int8_t" (word_8 va pid))
  read_encoded-Answers t ate_unsigned va pid ready =
      rw ready
        (answer t uint64 (bits (read_64_from_va v va pid)) "Type not uint64_t" (word_64 va pid))
  read_encoded-Answers t ate_unsigned_char va pid ready =
      rw ready (answer t int8 (bits (read_8_from_va v va pid)) "Type not int8_t" (word_8 va pid))
  read_encoded-Answers t ate_other va pid ready = refl

-- With libvmi set up and reading words of the width asked for, `getValue` of a type of an
-- encoding other than 0, at an address other than 0, for a type other than a string: where the
-- encoding is one of the six that are supported, it returns a value of the type asked for if that
-- is the type that goes with the encoding, and throws a `DwarfTypeException` if not; for any
-- other encoding its assertion fails.
pub get_value-Answers :
    (v : Libvmi) (vm : Vm) (encoding_of : ℕ → Encoding) (t : ValueType) (encoding va pid : ℕ)
    → ReadsWords v
    → vm.has_instance ≡ true
    → va ≢ 0
    → encoding ≢ 0
    → (typeid t == typeid string_type) ≡ false
    → Answers (expected (encoding_of encoding)) t (get_value v vm encoding_of t encoding va pid)
unfolding get_value
get_value-Answers v vm encoding_of bool_type encoding va pid words ready real known other =
    rw (non_zero-true va real, non_zero-true encoding known)
      (read_encoded-Answers v vm words bool_type (encoding_of encoding) va (pid % u32) ready)
get_value-Answers v vm encoding_of float_type encoding va pid words ready real known other =
    rw (non_zero-true va real, non_zero-true encoding known)
      (read_encoded-Answers v vm words float_type (encoding_of encoding) va (pid % u32) ready)
get_value-Answers v vm encoding_of int8 encoding va pid words ready real known other =
    rw (non_zero-true va real, non_zero-true encoding known)
      (read_encoded-Answers v vm words int8 (encoding_of encoding) va (pid % u32) ready)
get_value-Answers v vm encoding_of uint8 encoding va pid words ready real known other =
    rw (non_zero-true va real, non_zero-true encoding known)
      (read_encoded-Answers v vm words uint8 (encoding_of encoding) va (pid % u32) ready)
get_value-Answers v vm encoding_of int16 encoding va pid words ready real known other =
    rw (non_zero-true va real, non_zero-true encoding known)
      (read_encoded-Answers v vm words int16 (encoding_of encoding) va (pid % u32) ready)
get_value-Answers v vm encoding_of uint16 encoding va pid words ready real known other =
    rw (non_zero-true va real, non_zero-true encoding known)
      (read_encoded-Answers v vm words uint16 (encoding_of encoding) va (pid % u32) ready)
get_value-Answers v vm encoding_of int32 encoding va pid words ready real known other =
    rw (non_zero-true va real, non_zero-true encoding known)
      (read_encoded-Answers v vm words int32 (encoding_of encoding) va (pid % u32) ready)
get_value-Answers v vm encoding_of uint32 encoding va pid words ready real known other =
    rw (non_zero-true va real, non_zero-true encoding known)
      (read_encoded-Answers v vm words uint32 (encoding_of encoding) va (pid % u32) ready)
get_value-Answers v vm encoding_of int64 encoding va pid words ready real known other =
    rw (non_zero-true va real, non_zero-true encoding known)
      (read_encoded-Answers v vm words int64 (encoding_of encoding) va (pid % u32) ready)
get_value-Answers v vm encoding_of uint64 encoding va pid words ready real known other =
    rw (non_zero-true va real, non_zero-true encoding known)
      (read_encoded-Answers v vm words uint64 (encoding_of encoding) va (pid % u32) ready)
get_value-Answers v vm encoding_of string_type encoding va pid words ready real known other =
    ground arith
get_value-Answers v vm encoding_of any_type encoding va pid words ready real known other =
    rw (non_zero-true va real, non_zero-true encoding known)
      (read_encoded-Answers v vm words any_type (encoding_of encoding) va (pid % u32) ready)

-- With libvmi set up and reading words of the width asked for, `getRawValue` at an address other
-- than 0 returns, for a type other than a string, a value of that type.
pub get_raw_value-Gives :
    (v : Libvmi) (vm : Vm) (t : ValueType) (va pid : ℕ)
    → ReadsWords v
    → vm.has_instance ≡ true
    → va ≢ 0
    → (typeid t == typeid string_type) ≡ false
    → Gives t (get_raw_value v vm t va pid)
unfolding get_raw_value
get_raw_value-Gives v vm bool_type va pid words ready real other =
    rw (non_zero-true va real) (truth false, refl, tt)
get_raw_value-Gives v vm float_type va pid words ready real other =
    rw (non_zero-true va real) (rounded 0, refl, omega arith)
get_raw_value-Gives v vm int8 va pid words ready real other =
    rw (non_zero-true va real, ready)
      (bits (read_8_from_va v va (pid % u32)), refl, word_8 v vm words va (pid % u32))
get_raw_value-Gives v vm uint8 va pid words ready real other =
    rw (non_zero-true va real, ready)
      (bits (read_8_from_va v va (pid % u32)), refl, word_8 v vm words va (pid % u32))
get_raw_value-Gives v vm int16 va pid words ready real other =
    rw (non_zero-true va real, ready)
      (bits (read_16_from_va v va (pid % u32)), refl, word_16 v vm words va (pid % u32))
get_raw_value-Gives v vm uint16 va pid words ready real other =
    rw (non_zero-true va real, ready)
      (bits (read_16_from_va v va (pid % u32)), refl, word_16 v vm words va (pid % u32))
get_raw_value-Gives v vm int32 va pid words ready real other =
    rw (non_zero-true va real, ready)
      (bits (read_32_from_va v va (pid % u32)), refl, word_32 v vm words va (pid % u32))
get_raw_value-Gives v vm uint32 va pid words ready real other =
    rw (non_zero-true va real, ready)
      (bits (read_32_from_va v va (pid % u32)), refl, word_32 v vm words va (pid % u32))
get_raw_value-Gives v vm int64 va pid words ready real other =
    rw (non_zero-true va real, ready)
      (bits (read_64_from_va v va (pid % u32)), refl, word_64 v vm words va (pid % u32))
get_raw_value-Gives v vm uint64 va pid words ready real other =
    rw (non_zero-true va real, ready)
      (bits (read_64_from_va v va (pid % u32)), refl, word_64 v vm words va (pid % u32))
get_raw_value-Gives v vm string_type va pid words ready real other = ground arith
get_raw_value-Gives v vm any_type va pid words ready real other =
    rw (non_zero-true va real) (bits 0, refl, refl)
