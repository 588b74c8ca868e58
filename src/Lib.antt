-- ===== src/Lib.antt =====
-- Lovax is an interpreter of a scripting language: a lexer and a parser read a program, a
-- compiler turns it into bytecode, and a virtual machine runs it on garbage-collected objects.
-- This library models parts of it; the results are listed at the end.
--
-- Base has the shared names and lemmas: Boolean tests on numbers, lists, integers, and masks.
--
-- Int64 models the language's integers, `wrapAdd` to `wrapNeg` of src/object/object.hpp and the
-- operators `//`, `%`, `<<` and `>>` of `evalInfixExpression` in src/vm/runtime.hpp. An integer
-- of the program is an integer with its range as a hypothesis (`InRange`); a cast to or from the
-- unsigned type is a remainder by 2 ^ 64. Int64.Wrap, Int64.Floor, Int64.Identity and
-- Int64.Shift have the proofs.
--
-- MapObject models the class of that name of src/object/object.hpp. MapObject.Keys has the keys
-- and their hashes, MapObject.Slots the open-addressing index and its probe, MapObject.Ops the
-- operations; `insert` is `set` of the source, and `find` is `findStr` with the same lines for
-- integers and booleans. The other files under MapObject have the proofs: MapObject.Valid says
-- when a map is valid, MapObject.Spec what the operations promise. The loops of the probe run on
-- as many turns as the index has slots, and the capacity loop of `rebuildIndex` on as many as
-- the size it needs; this is enough, since the index of a valid map is never full and the
-- capacity doubles. Sizes and positions are unbounded numbers.
--
-- Value models the NaN-boxed `Value` of src/object/object.hpp: its constructors, tags and
-- accessors on numbers below 2 ^ 64. A double is its bit pattern and a pointer its address; the
-- heap of boxed integers is a function, and the address of a new box an argument. The portable
-- 16-byte layout is not modelled.
--
-- Lexer models src/lexer/lexer.hpp and src/lexer/token.hpp. Lexer.Tokens and Lexer.Tables have
-- the token types, the keywords and the operators of the switch; Lexer.Cursor has `readChar` and
-- the loops over characters, Lexer.Numbers and Lexer.Strings the readers of literals,
-- Lexer.Layout the state, the token queue and the indentation, and Lexer.Scan the switch and
-- `nextToken`. The position in the input is the input from there on. A `return nextToken()` is a
-- further turn of `next_token`; `tokenize` calls it up to the end of the file, as the parser
-- does. Both run on fuel, at most three turns for a character of the input and four more. That
-- is enough, since each turn reads a character, or moves a level from the indentation stack to
-- the queue, or a token out of the queue. An ILLEGAL token carries its error as a value. The
-- other files under Lexer have the proofs.
--
-- Collector models a full cycle of the garbage collector: `gcMarkObject`, `markAllRoots`,
-- `markStep`, `sweepStep` and `gcCollect` of src/object/object.hpp, on the heap of
-- src/vm/gc.hpp. An object is its address, with its color and the objects that its `gcMark`
-- marks. The loops run on fuel, and more turns than twice the number of objects are enough. The
-- incremental steps of `gcStep`, the allocation and the byte counts are not modelled.
--
-- Regex models src/modules/regex.hpp. Regex.Program has `Inst` and `Prog`, Regex.Matcher the
-- backtracking `Matcher::run` with its budgets of steps and depth, Regex.Classes, Regex.Repeat
-- and Regex.Compiler the pattern compiler (the readers of bounds and classes, `applyRepeat`, and
-- the recursive descent), Regex.Cache `rxCompile`, and Regex.Functions the functions of the
-- module on a compiled pattern. The index into the pattern is the pattern from there on, and the
-- C++ recursion is recursion on fuel. The compiler gets three units of fuel for a character and
-- four more, since each piece reads a character; a run of the matcher gets as many turns as the
-- steps that are left allow in a program, since a loop passes a SPLIT and each SPLIT counts a
-- step; a loop over the text gets two turns more than the text has characters, since each turn
-- moves on. Regex.Paths says what a program means, as the ways through it; the other files have
-- the proofs. The tests of the argument types are not modelled, and characters are bytes.
--
-- Datetime models src/modules/datetime.hpp: the file Datetime.antt has `dtDaysFromCivil`,
-- `dtCivilFromDays`, `dtFromTimestamp`, `make`, `add`, `diff` and `weekday`, and Datetime.Format
-- has `format` and `parse`. A `long long` is an integer, and `fits` tests its range: where a signed
-- operation leaves it, which C++ does not define, `dtDaysFromCivil`, the end of `parse`, `add` and
-- `diff` give none, and `make` gives `overflow`. From a 64-bit timestamp no operation of
-- `dtCivilFromDays` or `dtFromTimestamp` leaves the range, so they are written without the test.
-- A timestamp stands for the datetime it belongs to, the error of `make` is `refused`, and an
-- error of `format` or `parse` is none. Months, days and the parts of an era are numbers, since
-- the callers test them first. The functions that read the clock are not modelled.
--
-- Not modelled: the parser, the bytecode compiler and its virtual machine, the JIT compiler, the
-- other library modules and the embedding interface.
pub mod Base
pub mod Collector
pub mod Int64
pub mod Lexer
pub mod MapObject
pub mod Regex
pub mod Datetime
pub mod Value
