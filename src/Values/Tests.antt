-- ===== src/Values/Tests.antt =====
-- Values of types in the memory of a small machine.
use libdwarfparser.Prelude.{
  ℕ, ◌≡◌, refl, true, false, none, some, [], ◌∷◌, ◌==◌, nat_eq, if◌then◌else◌, arith,
}
use libdwarfparser.Outcome.{ok}
use libdwarfparser.Map.{find}
use libdwarfparser.Symbols.{
  Symbol, Pointer, RefKind, base_type, plain, ref_base_type, typedef, pointer, as_ref_base_type,
}
use libdwarfparser.Manager.{SymbolManager, init}
use libdwarfparser.Vmi.{Libvmi, Vm}
use libdwarfparser.Navigate.Chains.{Chain, here, there}
use libdwarfparser.Values.{Encoding, ate_signed, ate_other, int64, bits, get_value, get_raw_value}
use libdwarfparser.Values.Instances.{instance_value, instance_raw_value}
use libdwarfparser.Values.Types.{ReadsWords, Gives, get_value-Answers}
use libdwarfparser.Values.Chains.{at_depth, instance_raw_value-Chain, instance_value-Chain}

-- At 0x1000 stands 0x2000, at 0x2000 stands 0x3000, and 42 everywhere else.
abbrev machine : Libvmi
machine = record {
  default_flags = 3;
  init = λ name flags. true;
  is_linux = true;
  pause_vm = true;
  resume_vm = true;
  pid_to_dtb = λ pid. pid;
  get_va_pages = λ dtb. [];
  user_supervisor = λ e. true;
  get_bit = λ e bit. false;
  entry_present = λ e. true;
  translate_uv2p = λ va pid. va;
  translate_kv2p = λ va. va;
  read_8_va = λ va pid. some 42;
  read_16_va = λ va pid. none;
  read_32_va = λ va pid. some 42;
  read_64_va =
      λ va pid. some (if va == 0x1000 then 0x2000 else if va == 0x2000 then 0x3000 else 42);
  read_va = λ va pid count. [];
  read_str_va = λ va pid. none;
  read_pa = λ pa count. [];
}

abbrev vm : Vm
vm = record { has_instance = true; paused = false }

abbrev signed_is_5 : ℕ → Encoding
signed_is_5 n = if n == 5 then ate_signed else ate_other

abbrev int_type : Symbol
int_type = record { name = "int"; byte_size = 4; id = 1; kind = base_type 5 plain }

abbrev reference_to : ℕ → Pointer → RefKind → Symbol
reference_to id b k = record int_type {
  id = id;
  kind = base_type 0 (ref_base_type (record { type = some 1; base = some b }) k);
}

-- `int`, a typedef of it, and a pointer to that.
abbrev manager : SymbolManager
manager = record init {
  heap = record {
    cells = (1, int_type) ∷ (2, reference_to 2 1 typedef) ∷ (3, reference_to 3 2 pointer) ∷ [];
    next = 4;
  };
}

machine-ReadsWords : ReadsWords machine
machine-ReadsWords = record {
  below_8 = λ va pid. omega arith;
  below_16 = λ va pid. tt;
  below_32 = λ va pid. omega arith;
  below_64 = λ va pid. ground arith;
}

pointer-Chain : Chain manager 2 3 1
unfolding find as_ref_base_type
pointer-Chain =
    there 1 3 2 1 (reference_to 3 2 pointer) (record { type = some 1; base = some 2 }) pointer
      (omega arith) refl refl refl
      (there 0 2 1 1 (reference_to 2 1 typedef) (record { type = some 1; base = some 1 }) typedef
        (omega arith) refl refl refl (here 1 int_type (omega arith) refl refl))

instance_raw_value-Chain_example :
    instance_raw_value machine vm 3 int64 (record { type = 3; address = 0x1000 }) true manager
    ≡ (get_raw_value machine vm int64 0x3000 0, manager)
unfolding at_depth
instance_raw_value-Chain_example =
    instance_raw_value-Chain machine vm refl manager int64 2 3 1 0x1000 pointer-Chain (omega arith)
      (omega arith) refl

instance_value-Chain_example :
    instance_value machine vm signed_is_5 3 int64 (record { type = 3; address = 0x1000 }) manager
    ≡ (get_value machine vm signed_is_5 int64 5 0x1000 0, manager)
unfolding find
instance_value-Chain_example =
    instance_value-Chain machine vm refl manager signed_is_5 int64 2 3 1 0x1000 int_type 5 plain
      pointer-Chain (omega arith) (omega arith) refl refl

get_value-Answers_example : Gives int64 (get_value machine vm signed_is_5 int64 5 0x2000 0)
get_value-Answers_example =
    get_value-Answers machine vm signed_is_5 int64 5 0x2000 0 machine-ReadsWords refl (omega arith)
      (omega arith) refl

-- The pointer and the typedef are both read through.
reads_through_typedef :
    (instance_raw_value machine vm 3 int64 (record { type = 3; address = 0x1000 }) true manager).0
    ≡ ok (bits 42)
unfolding instance_raw_value find as_ref_base_type
reads_through_typedef = refl
