-- ===== src/Lib.antt =====
-- A verification library for ext-php-rs, which lets Rust code be a PHP extension. It models the parts of
-- the library that decide something themselves, and proves what they promise.
--
-- The parts, and how they meet. PHP hands a call its arguments as zvals. The generated handler declares
-- the parameters (`Arg`), and `ArgParser` checks their number and gives each parameter its zval. A zval
-- has a type word and a union; the accessors read it behind one reference or indirection, and the
-- coercions convert it. Texts are `ZendStr`s, whose validity as UTF-8 is cached in a flag. An array is
-- a hash table of Zend, indexed by an
-- `ArrayKey`, in which a numeric text is an integer; collections are converted to it and back by loops
-- over its iterator. Parameters and return values are
-- described to Zend by a `ZendType`, made from a `DataType`. Where Zend leaves a call by a long jump, the
-- handler runs the cleanups that `BailoutGuard`s have registered. The macros name PHP items after Rust
-- items, and refuse the names that PHP keeps for itself. The builders collect what an extension declares.
-- When the extension starts, they tell PHP of it; the same builders make a description, which is printed
-- as PHP stubs with the Rust documentation as comments. While PHP runs, it tells the observers of errors,
-- exceptions and calls, hands over iterators, asks for the properties of objects, and runs PHP code embedded in the extension.
--
--   Prelude, with Tests, Lists, Int and Bits: the shared tests, lists, integers and bits.
--   Text, with Utf8, Ascii, Str, Decimal and Decimal.RoundTrip: Rust's `str::from_utf8` as a test, `trim`, `find`
--   and `split`, and the `i64` parser and printer, which the source calls; they follow the documentation of Rust.
--   DataType, with Tag and Tags: src/flags.rs, `enum DataType` (`as_u32`, `From<u32>` is `of_u32`) with
--   the tags of docsrs_bindings.rs.
--   ZvalTypeFlags, with Conversion: src/flags.rs, `TryFrom<ZvalTypeFlags>`.
--   Error: src/error.rs.
--   ZendType, with Mask: src/zend/_type.rs.
--   ZendStr, with Utf8: src/types/string/mod.rs and the flag in src/wrapper.c.
--   ArrayKey, with Numeric: src/types/array/array_key.rs.
--   Zval.Value, with View: the accessors of src/types/zval.rs. Zval.Numeric, with Long, Double and
--   Double.Reads: `parse_long_from_str` and `parse_double_from_str`. Zval.Float and Zval.FloatText, with
--   Mantissa: `f64` and `php_float_to_string`. Zval.Coerce, with Laws: `coerce_to_string`,
--   `coerce_to_long` and `coerce_to_double`. Zval.Write, with
--   Counts, Balance and Clone: the setters, `shallow_clone` and `drop`.
--   Args, with Parse and Info: src/args.rs.
--   Array, with Zend and Cursor (Zend's hash table and its positions, as parameters), Entries (the
--   abstract view, an ordered list of keys and values), Table with Map and Fresh: src/types/array/mod.rs.
--   Array.Entry, with Laws: src/types/array/entry.rs. Array.Iter, with Forward, Slots and Ends:
--   src/types/array/iterators.rs. Array.Loop, with Laws and Keys: `for` loops over a table, and the two
--   tests of keys in mod.rs. Array.Convert, with Lists, RoundTrip and Pairs: src/types/array/conversions.
--   BailoutGuard, with Counts, Once and Hazards: src/zend/bailout_guard.rs.
--   Stub, with Docs (Sections, Lines), Types (Agree, Names), Phpdoc, Members, Sorting and Module (Order, Buckets):
--   src/describe/stub.rs, and the structs of src/describe/mod.rs that it prints.
--   FunctionBuilder, with Entry: src/builders/function.rs, and the description of a function in
--   src/describe/mod.rs.
--   Registration: the calls of PHP that src/builders make. ClassBuilder: src/builders/class.rs.
--   EnumBuilder, with Cases: src/builders/enum_builder.rs and the cases in src/enum_.rs. RegisteredClass
--   and ModuleBuilder: src/builders/module.rs, with `register_constant` of src/constant.rs. Plan, Planned
--   and Startup: how a registration and a start end. Order and Ordered: which class has to come first. Describe, with Names and Described:
--   src/describe/mod.rs.
--   Stub.Value, with Literal: the literals of src/constant.rs and src/convert.rs.
--   Observer, with Backtrace, Errors (Delivery), Exceptions (Chain) and Fcalls: src/zend/error_observer.rs,
--   src/zend/exception_observer.rs and src/zend/observer.rs.
--   ZendIterator, with Drain and Exceptions: src/types/iterator.rs.
--   PropertyHandlers, with Cache and Access: src/zend/handlers.rs, with the descriptors of src/class.rs.
--   CargoPhp, with Failures: the files that crates/cli/src/lib.rs changes.
--   TryCatch: src/zend/try_catch.rs. PhpEval, with Strip and Restore: src/php_eval.rs. Both with their
--   functions of src/wrapper.c.
--   PhpName, with Keywords, Rename and Validate: crates/macros/src/parsing.rs.
--   Tests: the theorems at concrete inputs.
--
-- Conventions. A text is the list of its bytes. An `i64` is an integer with a proof of its range, and
-- `u32` and `usize` are natural numbers with the range tests of the source written out. A pointer is an
-- address. Loops are structural recursion on the text or the list that they walk. Those over the iterator
-- of a hash table have fuel for its calls of `next`: more fuel than there are entries is enough, and is a
-- condition of the theorems on them. A `for` over an iterator of PHP has fuel in the same way, more than
-- there are items, and the call of PHP's hook for exceptions needs fuel of one for the callback that calls
-- the previous hook. What mutates an object returns the object it leaves. A registration passes on the
-- list of the calls of PHP made so far, and a panic and a bailout are endings of their own.
--
-- Parameters of the model, being no code of the repository: `f64` with its parser, printers and casts
-- (Zval.Float), the call of a PHP method, the conversion of a zval to a Rust type, `contains` and
-- `from_bits` of `bitflags`, `str::to_lowercase`, and `convert_case`; PHP's compiler and executor and
-- what drops a value or static variables, the
-- functions of a PHP iterator, an observer's filter, and whether PHP gives a class entry for a name.
--
-- Zend's hash table is an interface (Array.Zend): a type of tables with Zend's functions, and the slots
-- that a table has. Its laws say what each function is documented to do to the slots; those of the
-- positions are in Array.Cursor. Tests.Tables is a table that keeps to them.
--
-- Not modelled: the value of a guard whose destructor uses the cleanup stack itself, which panics while the
-- cleanups run; zvals that share a store, the objects of classes, the builders for INI entries and the
-- SAPI, the globals, `zend_extension`, streams, the rest of the
-- cargo command, and the code that the macros generate.
-- Most of it hands data to Zend through pointers.
pub mod PhpEval
pub mod CargoPhp
pub mod PropertyHandlers
pub mod Registration
pub mod ZendIterator
pub mod Observer
pub mod Prelude
pub mod Text
pub mod DataType
pub mod Error
pub mod ZvalTypeFlags
pub mod ZendType
pub mod ZendStr
pub mod ArrayKey
pub mod TryCatch
pub mod Zval
pub mod Array
pub mod Args
pub mod BailoutGuard
pub mod PhpName
pub mod Stub
pub mod FunctionBuilder
pub mod Tests
