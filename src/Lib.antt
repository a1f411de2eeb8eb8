-- ===== src/Lib.antt =====
-- malc: an asynchronous logger in C. A thread that logs takes memory for an entry, serializes the
-- arguments into it and puts it on a queue; a consumer takes entries from the queue, deserializes
-- them, formats their text and hands it to the destinations.
--
-- Common: Boolean tests, lists as C arrays, little-endian bytes, bits, and the interfaces to the base
-- library (Common.BaseLibrary), which is a submodule of the repository: integer arithmetic and the
-- ring buffer. Their laws are the documented behaviour; Tests.Library has instances.
--
-- Serial: include/malc/impl/serialization.h and src/malc/serialization.c. Values has the types of
-- arguments, Compress `malc_get_compressed_*` with the loops on bytes and nibbles, Encode the
-- `malc_serialize*`, `malc_size*` and `malc_transform*` families and `serializer_*`, Decode the
-- `decode_*` functions and Deserialize `deserializer_*`. Wire describes the bytes of an entry
-- independently of both sides. Memory is a list of bytes, pointers and floats are bit patterns, and
-- the build options are a record. The target is little endian.
--
-- TlsBuffer: src/malc/tls_buffer.c. Memory is a function from addresses to words, since only the
-- first word of a slot is read. Exclusive and Reachable follow a buffer through any sequence of
-- allocations and deallocations.
--
-- Memory: src/malc/bounded_buffer.c and src/malc/memory.c. Bounded is over an interface for the
-- queue of the base library, TssList is the list of thread buffers, Sources the choice between the
-- three sources of memory, Origin the source of a block and where it is given back, Setup what is made
-- before and undone after.
--
-- Destinations: src/malc/destinations.c. The calls of a destination's functions are values in the
-- order that they are made; Flushed says which destinations a flush calls. ArrayDst: src/malc/destinations/array.c. FileDst:
-- src/malc/destinations/file.c, over an interface for the files of the C library, whose operations can
-- have any outcome; a use of the ring of names after it is destroyed is a fault, `none`. StdOutErr: src/malc/destinations/stdouterr.c.
--
-- EntryParser: src/malc/entry_parser.c. A function is state passing whose errors keep what was
-- appended, and `none` where it does not return. Types has the parser's strings and what prints
-- values (printf and the base library) as parameters, FloatFormat `build_float_format_on_ep_fmt`,
-- Objects the hooks of objects, which are runs of pushes, Args `append_arg`, Text `parse_text` and
-- Entry `entry_parser_get_log_strings`. Assertions are those of a release build: none.
--
-- Logger: src/malc/malc.c. `malc_log_entry_prepare` with the node of the queue, whose size is a
-- parameter, since it contains a type of the base library. Consumer has `malc_run_consume_task` over
-- what the queue gives at each round, with the effects on the rest of the system as values in the
-- order they are made; it calls the deserializer, the entry parser, the memory and the destinations of
-- the other parts. Consumer.Released follows the memory of an entry from its preparation to its release
-- there. Lifecycle has the functions that change the logger's state and put commands on its
-- queue; the queue is a list in the order of the calls of `bl_mpsc_i_produce_notag`, and the loop of
-- `malc_terminate` runs over what each of its `malc_run_consume_task` comes to, also when one does not
-- return.
--
-- Validation: include/malcpp/impl/compile_time_validation.hpp, with `literal` of
-- metaprogramming_common.hpp and the validations of modifiers of c++11_basic_types.hpp. A list of types
-- is a list of `LoggedType`, the specializations of `logged_type`: a call with a type that has none does
-- not compile. Positions in a literal are kept beside
-- the characters that are left. Modifiers has the two validations of modifiers, Places, Characters, Codes
-- and Sound what passes, Exact the result for any format, Report and Compiles the assertions, References
-- the destructor of references, Floats and Printed the entry parser on what passed.
-- Validation's Aligned and Delivered follow a call that compiles through the serializer and the queue's node to
-- `consume_entry`: the values have the types that were validated, by their codes.
--
-- Wrapper: include/malcpp/impl/malc_base.hpp and destinations.hpp of include/malcpp, malcpp-template.hpp,
-- wrapper.cpp and destinations.cpp of src/malcpp. What the C functions and the allocator return is an
-- argument. Owners follows the objects of a program through any sequence of constructions, moves and
-- destructions, Footer has the place of the allocator's table behind a logger, Throwing the errors as
-- exceptions and the exceptions of a destination as errors. StdTypes has the hooks of
-- src/malcpp/c++_std_types.cpp with src/malcpp/custom_type.cpp, as runs of pushes on the entry parser;
-- the addresses of literals are a parameter. Objects has the bytes of objects in
-- include/malcpp/impl/c++11_std_types.hpp and their reading. Construct has the construction that throws,
-- StdTypes.Logged the flag of the type of a vector's elements, where the logarithm of the base library is
-- a parameter, StdTypes.Pointers what the tables do with pointers, and StdTypes.Called a smart pointer
-- from the call to the text.
--
-- LogCall: the macros of a log call. LogCall itself has `MALC_LOG_IF_PRIVATE` of include/malc/impl/c11.h, Cpp
-- that of include/malcpp/impl/c++11.hpp with `log` and `arg_ops`, and Strip include/malc/log_macros.h. The
-- arguments are the values that their expressions come to. They call `malc_log_entry_prepare` of Logger
-- and the serializer of Serial, and leave the entry that `malc_log_entry_commit` puts on the queue.
-- References has the destructors that a call runs, Validated the assertions of C and C++ side by side,
-- Agree the calls of both, Carried the entry that is left, Once what frees the references of a call
-- from the macro to the consumer, and Delivered a call from the macro to the destinations.
--
-- Loops are recursions on the lists that they walk. `entry_filter_idle_loop` is on fuel, the number of
-- past entries: each round drops an entry or passes it. `tls_buffer_alloc` and `tls_buffer_dealloc`
-- take a round for each slot.
-- `build_loop` has a round for each character and one more: a round that stays at a character is
-- followed by the same, so the loop then never ends. `find_name` and the
-- deadline of the idle task are on fuel, whose rounds the rest of the system decides.
--
-- Not modelled: threads inside of a call, since each call of the logger is one step; the preprocessor,
-- that is how a macro evaluates its arguments and joins its names; in C++ the templates that choose the
-- hook of a type, and the methods that only pass on to the C functions; the base library, a submodule;
-- the examples and the tests.
pub mod Common
pub mod Serial
pub mod TlsBuffer
pub mod Memory
pub mod Destinations
pub mod ArrayDst
pub mod EntryParser
pub mod FileDst
pub mod StdOutErr
pub mod Logger
pub mod Validation
pub mod Wrapper
pub mod LogCall
pub mod Tests
