-- ===== src/Lib.antt =====
-- Verification library of the aike compiler and its runtime.
--
-- The compiler reads a source text in passes. The tokenizer (compiler/tokenize.cpp) gives tokens
-- to the parser, which builds the tree of compiler/ast.hpp. The modules are put in the order of
-- their imports (compiler/modules.cpp), names are resolved through nested scopes
-- (compiler/resolve.cpp), types are inferred by unification (compiler/type.cpp,
-- compiler/typecheck.cpp), and names for the linker are made by mangling (compiler/mangle.cpp).
-- The runtime schedules coroutines (runtime/scheduler.cpp).
--
-- Files:
--   Types: compiler/type.cpp and compiler/type.hpp. Syntax has Ty, TyDef and Location
--     (compiler/location.hpp); Unify has typeUnify, typeEquals and TypeConstraints::tryAdd; Rewrite has
--     TypeConstraints::rewrite; Traverse has typeOccurs, typeKnown, typeInstantiate, typeMember and
--     visitType of compiler/visit.cpp. Growth, Solutions, Soundness, Equality, Cycles, Meaning,
--     Termination and Reading hold proofs, and Content the meaning of a type under a
--     valuation of its Unknown nodes.
--   Modules: compiler/modules.cpp. Graph has findCircularDependency and moduleIsReady, Sort has
--     moduleSort, and Str::operator< of compiler/string.hpp. Circular, Endless, Order, Depth, Acyclic
--     and Ending hold proofs. Paths has getModuleName and getModulePath of compiler/compiler.cpp, with
--     a proof, and Load the loop of compileModules there that reads the modules; Loading, Waiting and
--     Ready hold its proofs.
--   Tokenize: compiler/tokenize.cpp and compiler/tokenize.hpp. Defs has the data and the classes of
--     characters; Lines parseLines and getLocation; Lexer scan and parseTokens; Brackets
--     matchBrackets; Newlines continueLine, getLineToken and insertNewline; Whole tokenize. Ends,
--     Total, Nesting and Marks hold proofs.
--   Parse: compiler/parse.cpp. Stream has TokenStream, Types the parsers of types and signatures,
--     Layout those of blocks and indentation, Operators the tables of operators, Terms those of terms,
--     Statements those of declarations and statements, Whole parsePrimary, parseExprClimb and parse;
--     Front has parseModule of compiler/compiler.cpp. A parser takes the parsers it calls in
--     recursion as arguments. Steps, Eating, LoopEnds, TypeEnds, LayoutEnds, TermEnds, MemberEnds,
--     PartEnds, StatementEnds, OperatorEnds and Total hold proofs, and Tokenize/Placed what they need of
--     the tokens of a text. Priority and Grouping compare the climb with the grammar of operators,
--     Indentation says how blocks stand, and Numbers reads decimal texts.
--   Mangle: compiler/mangle.cpp in Symbols, typeName of compiler/type.cpp in Names, the text of
--     numbers and literals in Text. Clashes holds proofs.
--   Resolve: NameMap of compiler/resolve.cpp in NameMap; resolveType and the scopes of ResolveNames
--     in TypeNames, and resolveFieldRef in Fields, each with a proof; resolveBindings and findMember,
--     and isArgumentCountValid, isCandidateValid and reduceCandidates of compiler/typecheck.cpp, in
--     Members; resolveMembers in Visits. Scopes, InRange, Settled and Again hold proofs.
--   Check: compiler/typecheck.cpp. State has what a pass reads and changes, typeMustKnow and
--     typeMustEqual; Literals, Rules and Operators have what the type* function of each node does behind
--     its calls for the children, Nodes has type, and Verify typeckVerify; Instances has propagate
--     and instantiateNode at one node. Typing has the typing rules, on trees whose nodes carry types, and
--     Labels the types that the checker may find on a node. Ensures, LiteralsHold, RulesHold,
--     OperatorsHold, StatementsHold, Sound and Accepts, and Runs, LiteralsRun, RulesRun, OperatorsRun,
--     Complete and Passes hold proofs.
--   Tree: compiler/ast.hpp in Ast; visitAst and visitAstTypes of compiler/visit.cpp and
--     moduleGatherImports of compiler/modules.cpp in Visit. Within says which nodes stand in a
--     tree; Reaching and Walks hold proofs.
--   Scheduler: runtime/scheduler.cpp in Queue. Fifo reads the ready list as a list of coroutines. Turns
--     runs the turns of coroutines one behind the other, and Fairness holds proofs about them.
--   Base: the Boolean tests on numbers and texts, lists over the native numbers, and their lemmas.
--   Tests: runs at concrete inputs.
--
-- State. A pointer to an object that is only compared or looked up is a number, and a null pointer
-- is `none`. An Unknown or Generic node of Ty carries its address, by which the source tells it
-- from others; the test `lhs == rhs` on other nodes only saves the comparison of their parts, where each
-- Instance points to a definition or to a generic, as it does once resolveNames has reported nothing.
-- Where one points to neither, typeUnify of the model meets its failed assertion also when it is
-- compared with itself. The
-- map of TypeConstraints is an association list from addresses to types; a function that changes
-- it takes it and returns the new one beside its result. The map of modules is the list of its
-- values, and a set of names is the list of those inserted. A chain of Binding objects is the list
-- of its values. Bytes are numbers below 256. The state of the scheduler is a record of its static
-- variables and the memory of its coroutines; a function ends in a return, a switch of context or
-- a failed assertion. The pass of the type checker carries the constraints, which may be null, the
-- reports so far and the next free address; a null pointer that is dereferenced, a failed assertion
-- and ICE are faults. A Variable or a type that several nodes of the source share stands in each of
-- them; type and typeckVerify change neither. The loop that reads the modules carries its queue, the
-- modules with the map of their names, and the map of sources. A panic or a failed assertion is a
-- value that ends the pass.
--
-- readFile is a parameter: it gives the text of a file, or none.
--
-- The stream of the parser carries the first free address, which a new Unknown or Generic node
-- takes. strtod is a parameter: it gives the bits of a number, whether it read all of the text,
-- and errno.
--
-- Fuel. Each loop of the parser, and its depth of recursion, takes one more than the number of
-- tokens, as a round or a call consumes a token; the climb over operators takes twice that, a unit
-- for each round and each call. Each loop of the tokenizer takes one more than the length of the
-- text, as a round consumes a byte. findCircularDependency takes one more than the number of
-- modules, as the names on its path differ. The loop that reads the modules takes more than
-- the number of inputs and, for each name that can come up, one more than the imports of a module, as
-- a round takes one from its queue and a name is read once. The rounds of moduleSort and the depth of
-- rewrite are arguments: both can be without end, and the entries below say when they are not. The
-- mangling of a generic through its instance takes a unit for each such step.
--
-- Not modelled: the rest of name resolution, typeckPropagate of the type checker, whose walks share
-- variables, code generation and what calls LLVM, the linker or the system (compiler/codegen.cpp,
-- compiler/transform.cpp, compiler/target.cpp, and compiler/compiler.cpp but for parseModule, the names
-- and paths of modules, and the reading of modules), messages,
-- dumps and timing, the other parts of the runtime, and the copies of other projects in gjduckgc
-- and compiler-rt. Numbers of lines and offsets do not wrap around: a text has fewer bytes than
-- their types have values.
pub mod Base
pub mod Types
pub mod Modules
pub mod Tokenize
pub mod Mangle
pub mod Resolve
pub mod Check
pub mod Tree
pub mod Scheduler
pub mod Parse
pub mod Tests
