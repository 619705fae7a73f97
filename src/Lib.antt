-- ===== src/Lib.antt =====
-- The pea compiler: source locations, module order, the scopes and the unification of the type
-- checker, the names of compiled functions, and the intermediate representation.
--
-- The program. `mod` finds the modules that a module imports; `types` checks them; `basic` builds an
-- intermediate representation of each function and improves it in passes; `gengo` prints it as Go,
-- where each function has a mangled name; a stack trace or a test's name is demangled for the user.
-- `loc` turns the byte offsets of the syntax tree into files, lines and columns.
--
-- The model.
-- * loc/loc.go is Loc.antt: `files_len`, `add` and `find_loc` are Files.Len, Files.Add and Files.Loc,
--   `find_file` and `line_col` the two loops of loc1. Loc/Spec.antt says independently what a
--   location is: a walk over the text from line 1, column 1. Loc/Lines.antt, Loc/Layout.antt and
--   Loc/Lookup.antt hold the proofs.
-- * mod/mod.go is Mod.antt: Mod/Topological.antt has TopologicalDeps with its closure `add`; the map
--   `seen` and the slice `sorted` are a record that each call takes and returns.
-- * gengo/escape.go is Gengo/Escape.antt and gengo/mangle.go is Gengo/Token.antt (strings and
--   numbers) and Gengo/Mangle.antt (types and functions). Utf8.antt is the decoding and encoding
--   that Go's `range`, utf8.EncodeRune and utf8.DecodeRuneInString do. An error is a value of
--   `Error`; a panic is `none`.
-- * basic/basic.go is Basic/Ir.antt: statements, values and blocks are numbers, and a heap says what
--   they hold, so that a shared object is one entry. basic/sub.go is Basic/Sub.antt: `get`, `sub1`
--   and `sub_vals` pass the heap and the value map along.
--   Basic/Blocks.antt has bblkMap and subBBlks; basic/cleanup.go is Basic/Cleanup.antt, with rmDeletes
--   and renumber, and Basic/Deletes.antt, with propagateDeletes.
--   Basic/Types.antt has what basic.go asks of types, and Basic/Bugs.antt the checks of bugs.go,
--   made of those of Basic/Checks.antt; a check passes, stops at a bug or panics of itself.
--   Basic/Build.antt has addStmt of basic/build.go, and Basic/Adds.antt the functions that add each
--   kind of statement. basic/escape.go is Basic/Escape.antt, and basic/lift.go
--   Basic/Lift.antt.
-- * types/scope.go is Types/Scope.antt and its children: a scope is the list of its levels from the
--   innermost on, and a search returns it with the imports that it marks. Types/Capture.antt has
--   markCapture. types/inst.go is Types/Unify.antt (`unify`, which passes its map `sub` along and
--   returns the errors) and Types/Ground.antt. A pointer to a type, function or variable is a number,
--   and tables, arguments of the definitions, say what it points to.
-- * Prelude.antt passes on what the others share: Boolean tests, lists as sets, integers.
--
-- Fuel. `demangle_type` and `demangle_fun` give themselves the length of what is left to read and
-- two more (`fuel_for`); each call reads three runes at least. `decimal` has one more than its
-- number. `topological_deps` needs one more than the number of modules, since each nested call marks
-- a module. `get` needs more than the rank of its value, the length of the chain in the map.
-- `propagate_deletes` needs more than the measure of the first work: what waits, and for each value
-- left one more than its users.
-- `unify` and `empty_type` need more than the rank of the type: its depth of arguments or fields.
-- `mark_all` needs more than the number of allocs that are not on the stack, as each round marks one.
-- Numbers are natural numbers: Go's int is not exceeded, as offsets are lengths of files in memory and
-- readIntOrEOF stops at 40969. Offsets given to Files.Loc are integers, since it refuses negative
-- ones.
--
-- Not modelled: reading files and directories (mod.Load, ast), the generated parser, of the type
-- checker all but scopes and unification, the printing of Go source, the passes of basic other than
-- those named above, and the commands.
mod Prelude
pub mod Loc
pub mod Utf8
pub mod Gengo
pub mod Mod
pub mod Basic
pub mod Types
