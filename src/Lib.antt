-- ===== src/Lib.antt =====
-- Models of libdwarfparser, a C++ library that reads the DWARF debugging entries of programs and
-- keeps their types, variables and functions as symbols.
--
-- The parser (libdwarfparser/dwarfparser.cpp) walks the entries and makes one object for each
-- symbol; each constructor registers the object at the `SymbolManager`
-- (libdwarfparser/symbolmanager.cpp), which issues identifiers, keeps the symbols by identifier and
-- by name, and answers every look-up of the other parts. The files:
--
-- - Ids: `getID` and `getRevID` over `idMap`, `idRevMap` and `currentID`. `run` takes a list of calls,
--   one after the other. Calls of `getID` from several threads are such a list, since each holds a
--   lock; `getRevID` takes none and may enter a pair, so that a call of it at the same time as
--   another call is outside the model. Ids.Numbered: the number of pairs with an identifier.
-- - Addresses: `addSymbolAddress`, `addFunctionAddress`, `addSysmapSymbol`, `updateRevMaps`,
--   `getContainingSymbol` and the look-ups of addresses and names.
-- - Symbols: the objects, the class of each as a constructor and a `dynamic_cast` as a function into
--   Option (libdwarfparser/symbol.h and the headers of its subclasses).
-- - Manager: the other containers, and the objects as a heap of cells. A method is a function of the
--   manager to an outcome and the manager it leaves; a pointer that was deleted or is null is
--   undefined to follow. Manager.Register has `addSymbol` and its like, Manager.Lookup
--   `findSymbolByID`, `removeSymbol` and their like, Manager.Names the look-ups by name and type and
--   `getSymbolAddress`, Manager.Destroy the destructor.
-- - Clean: `cleanArrays` and `cleanFunctions` with the operators of `Array` and `Function` and their
--   `updateTypes` (libdwarfparser/array.cpp, libdwarfparser/function.cpp).
-- - Block: `parseBlock` (libdwarfparser/dwarfparser.cpp).
-- - Parser: what libdwarf answers on an entry, as a record, and `getDieAttributeNumber` and the other
--   readers. Parser.Objects: the constructors of the symbols, with `Array::update`,
--   `Function::addParam`, `Structured::addMember`, `Enum::addEnum` and their like, each in the file of
--   its class under libdwarfparser. Parser.Init: `getTypeInstance`, `getRefTypeInstance` and
--   `initSymbolFromDie`, which find a symbol again or make it. Parser.Print: the readers of strings,
--   addresses and flags, and `print_die_data` for the ways it may end. Parser.Walk: `read_cu_list` and
--   `get_die_and_siblings` over a record of what libdwarf answers; Parser.Files: `parseDwarfFromFD`
--   and the constructor, which numbers the files; Parser.Walk.Preorder has the forest
--   of entries that they traverse. Parser.Descriptors: the descriptors that the parsers open and
--   close. Manager.Sound and Parser.Sound: what the containers of a manager promise to each other,
--   through every operation that the walk uses and that returns, up to the destructor. An exception
--   that leaves the body of a constructor frees the object, which `addSymbol` has entered by then, and
--   its entries stay: Parser.Dangling. Manager.Sound.Extends and
--   Manager.Sound.Establishes: what is never lost once it was registered, and what holds after an
--   operation that returns; Parser.Resolved and Parser.Returns apply them to the entries of a file.
--   Parser.Members: `addMember` and the constructor of a member, with the structure and the members as
--   the walk enters them and `memberByName` finds them; Parser.Enums: the same of an enumeration and
--   its enumerators.
-- - Navigate: `getBaseType` and `getByteSize` along references, the members of a structure and the
--   values of an enumeration; Navigate.Instances: the class `Instance` (libdwarfparser/instance.cpp).
--   The read of 64 bits of memory is a parameter.
--   Navigate.Params: the parameters of a function and the instance of a variable.
-- - Output: the methods `print` of the symbols and of `Instance` as lists of lines, each of texts and
--   numbers.
-- - Vmi: `VMIInstance` (libvmiwrapper/vmiinstance.cpp), the pages and the memory of a virtual machine.
--   What libvmi does is a record of functions. Vmi.Memory: which of the pages that libvmi allocates are
--   freed; Vmi.KernelPages: `printKernelPages`.
-- - Values: `getValue` and `getRawValue` of `BaseType` (libdwarfparser/basetype.h); Values.Instances:
--   those of `Instance` (libdwarfparser/instance.h). The type argument of the templates is a value, and
--   what the numbers of the encodings mean is a parameter.
-- - Prelude, Outcome, Map, OrderedMap and Bits: shared types and lemmas. Outcome has the ways a call
--   ends, a failed assertion and undefined behaviour among them.
--
-- Numbers are natural numbers; `getID` and `parseBlock` write out the wrap-around of their 64 bits.
-- The names of a map that is renamed into grow by an underscore at a time, and the loops that do so
-- run on as much fuel as the map has entries and one more; that this is enough is part of
-- what is shown of them. Unordered maps are association lists: the order of their iteration is the
-- order of the list, which no statement fixes.
--
-- The loops along references and the recursion of `getByteSize` take their rounds as an argument,
-- since a cycle of references would keep them running for ever.
--
-- A mutex that an operation locks and releases is not part of the state. `arrayVectorMutex` and
-- `funcListMutex` are, since an operation may return without releasing them.
--
-- The walk takes the rounds of its two loops as arguments: more than there are units, and as many as
-- a unit has entries. The loop of `readVectorFromVA` runs on one round more than the bytes asked
-- for, since a round reads a byte, passes over a page or ends the loop.
--
-- Not modelled: what `print_die_data` and the error paths print; the widths of printed numbers, and
-- what is printed before a failure; the texts of the exceptions; the Python bindings and the tests.
pub mod Prelude
pub mod Outcome
pub mod Map
pub mod OrderedMap
pub mod Bits
pub mod Ids
pub mod Addresses
pub mod Symbols
pub mod Manager
pub mod Clean
pub mod Block
pub mod Parser
pub mod Navigate
pub mod Vmi
pub mod Values
pub mod Output
