-- ===== src/Values/Instances.antt =====
-- The templates `getValue` and `getRawValue` of `Instance` (libdwarfparser/instance.h).
use libdwarfparser.Prelude.{ℕ, zero, suc, Bool, true, false, not, ◌&&◌, none, some, ◌==◌, nat_eq}
use libdwarfparser.Outcome.{undefined, out_of_fuel}
use libdwarfparser.Symbols.{as_base_type, as_ref_base_type}
use libdwarfparser.Manager.{Method, raise, lift, ◌>>=◌, deref}
use libdwarfparser.Manager.Lookup.{holds}
use libdwarfparser.Parser.Init.{casts_to}
use libdwarfparser.Vmi.{Libvmi, Vm, instance_read64}
use libdwarfparser.Navigate.Instances.{Instance, get_real_type, non_zero, assert, dereference}
use libdwarfparser.Values.{
  Encoding, ValueType, string_type, Value, typeid, get_value, get_raw_value,
}

module _ (v : Libvmi) (vm : Vm) where
  -- `Instance::getValue`
  unfoldable pub instance_value : (ℕ → Encoding) → ℕ → ValueType → Instance → Method Value
  unfolding get_real_type deref get_value as_base_type
  instance_value encoding_of n t i = assert (non_zero i.address) >>= λ _. get_real_type n i >>= λ q.
      deref q >>= λ s. elim (as_base_type s.kind) [
        | none ↦ raise undefined
        | some (encoding, k) ↦ lift (get_value v vm encoding_of t encoding i.address 0)
      ]

  -- `Instance::getRawValue`, which passes the address to its recursive call as the flag.
  unfoldable pub instance_raw_value : ℕ → ValueType → Instance → Bool → Method Value
  unfolding casts_to as_ref_base_type dereference get_raw_value instance_read64
  instance_raw_value zero t i deref_it = raise out_of_fuel
  instance_raw_value (suc n) t i deref_it = assert (non_zero i.address) >>= λ _.
      assert (non_zero i.type) >>= λ _.
      casts_to (λ k. holds (as_ref_base_type k)) i.type >>= λ refers.
      elim (not (typeid t == typeid string_type) && (deref_it && refers)) [
        | true ↦ dereference (instance_read64 v vm) (suc n) i >>= λ j.
            instance_raw_value n t j (non_zero j.address)
        | false ↦ lift (get_raw_value v vm t i.address 0)
      ]
