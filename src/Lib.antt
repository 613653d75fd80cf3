-- ===== src/Lib.antt =====
-- Verification of pugtemplate, a template engine that renders the token trees of pug documents to
-- Go templates and translates the JavaScript in them.
--
-- A document goes through these parts. A JSON token tree is built into nodes
-- (pugjs/pug_parser.go, pugjs/pug_blocks.go); each node is rendered into a buffer, with a shared
-- render state that collects the mixins (pugjs/transform_*.go, pugjs/engine.go); every piece of
-- JavaScript in a node is parsed and translated into the pipelines of the template language
-- (pugjs/transform_js_.go); the buffer, the blocks given to mixins and the mixins in their order
-- make the template. Beside this pipeline stand the functions that a template calls
-- (templatefunctions) and an analyser of source directories (puganalyse).
--
-- Files:
--   Common        texts as lists of bytes with the functions of Go's package strings, lists with
--                 native lengths, and the result type with panics and the end of fuel.
--   Js            JsExpr, interpolate, renderStatement and renderExpression: Ast holds the syntax
--                 trees of otto/ast, Pieces one function for each kind of expression over the
--                 translations of its parts, Render the recursion. The parser is the parameter
--                 `parser`. Escape holds %q and HTMLEscapeString.
--   Pug           Token and Build: the token tree, build and buildNode. Node: the nodes and Inline.
--                 State: renderState and the effect of a Render method. Pieces, Methods and
--                 Render: the Render methods, by what they do apart from other nodes, for single
--                 nodes, and over the whole tree. Compile: TokenToTemplate.
--   Functions     templatefunctions: Striptags is striptags_func.go, Urls is url_func.go and
--                 try_url_func.go, and Small holds the short ones.
--   Analyse       puganalyse/analyser.go: Defs and Atomic are the analyser of pug files, Imports and
--                 Escaping that of JavaScript imports.
--   Engine        pugjs/engine.go: State holds the engine, its options, and the steps of Render and
--                 LoadTemplates up to each access of the channel, the flag and the lock; a state
--                 of the system is the engine with all goroutines, and any of them may move next. A
--                 panic ends its goroutine after the deferred calls; that a panic in a goroutine
--                 of the startup ends the program is left out.
--                 Load is compileDir, over a directory tree and the compilation of Pug. Startup is
--                 pugjs/startup.go as a step relation, with the controller that reports it;
--                 Partials is RenderPartials.
--   Objects       pugjs/types.go: Map is the ordered map of the template language, with Assign of
--                 templatefunctions/js_object.go; Array is the array, over a store of backing
--                 arrays that slices share; Strings holds the methods of String,
--                 Members how they are found by name, and Copies the copies of maps and arrays.
--   Runtime       pugjs/runtime.go, the functions that a translated template calls: Value holds the
--                 values with their kinds, Arithmetic and Compare the operators, Attributes the
--                 functions that write the attributes of a tag, MapParams the one that gathers
--                 those of a mixin call, Builtins the others. Floating point
--                 numbers are the parameter `Floats`; an int is an integer of 64 bits that wraps.
--   Template      pugjs/tpl_exec.go, the execution of templates: Slices holds Go's slices over shared
--                 arrays, State and Variables the state of an execution with its stack of variables
--                 and its bound blocks, Syntax the trees of pugjs/parse, Reflection what reflect,
--                 fmt, the objects and the called functions give (a parameter), Calls and Eval
--                 the evaluation of pipelines, Control and Walk the walk over the nodes, and
--                 Execute the start. States and arrays have places in a store, since bound blocks
--                 point to states and copies of a state share arrays. Frame says what whole runs
--                 keep if the single changes keep it. Logic holds three functions of
--                 pugjs/tpl_funcs.go, Escaping its escaping of HTML.
--   Tests         the repository's tests of the translation, and the theorems at inputs.
--
-- A slice is a list, a map an association list, a set of names a list, a buffer the text that was
-- appended. A panic and a returned error are values. Fuel is used four times: `scan` takes twice
-- the length of the literal plus one rounds, `js_expr` takes the depth of nested interpolations,
-- for which any number above the length of the source is enough (Js.Fuel), `range_loop` takes
-- one round for each number and one for the last test (Runtime.Range), and `run_template` takes
-- one unit for each level of nested templates (Template.Fuel); where no block is bound, the limit
-- of the depth plus one is enough (Template.Ends). Bound blocks do not count towards that limit.
--
-- Not modelled: the JavaScript parser (otto, a copy of another project), the parser of the template
-- language and its table of templates (pugjs/parse and pugjs/tpl.go, a copy of Go's text/template),
-- what pugjs/tpl_exec.go does with the types of Go (validateType, printableValue), the conversion of
-- Go values by reflection, reading files and JSON, HTTP, dependency injection and logging.
pub mod Common
pub mod Js
pub mod Pug
pub mod Functions
pub mod Analyse
pub mod Engine
pub mod Objects
pub mod Runtime
pub mod Template
mod Tests
