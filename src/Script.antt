-- ===== src/Script.antt =====
-- core/loader.cc and core/vm.cc: reading a file whole, compiling it and running it. The answers of
-- `open` and `read`, and V8's compiler, are arguments.
pub mod Files
use no_js.Base.{
  ℕ, Bool, true, false, Option, none, some, List, [], ◌∷◌, ◌++◌, String, ◌==◌, if◌then◌else◌,
}
use no_js.Base.Bytes.{Bytes, c_str}

-- An answer of `read(fd, buffer, 4096)`: the bytes that it gives (none of them at the end of the
-- file), or -1.
pub data ReadAnswer : Type 0 where
  gives : Bytes → ReadAnswer
  fails : ReadAnswer

-- What the loop ends with; `blocked` if `read` gives no more answers.
pub data Reading : Type 0 where
  content : Bytes → Reading
  read_error blocked : Reading

-- The `while (1)` of `Loader::Compile`, `VM::Run` and `VM::CompileFunction`.
unfoldable pub read_all : List ReadAnswer → Bytes → Reading
read_all [] code = blocked
read_all (fails ∷ rest) code = read_error
read_all (gives [] ∷ rest) code = content code
read_all (gives (b ∷ bs) ∷ rest) code = read_all rest (code ++ b ∷ bs)

-- What a native function of these modules returns to JavaScript: a message, a value or a function
-- of V8, or nothing. `waits` is a `read` that does not answer.
pub data Returned : Type 0 where
  message : String → Returned
  value function : ℕ → Returned
  undefined null waits : Returned

-- `ScriptCompiler::CompileFunctionInContext`, on the source, the names of the parameters and the
-- number of extensions; `Script::Compile`, and `Run`, on a source; and the call of a function.
pub record Compiler : Type 0 where
  pub compile_function : Bytes → List String → ℕ → Option ℕ
  pub compile_script : Bytes → Option ℕ
  pub run_script : ℕ → ℕ
  pub call : ℕ → List ℕ → Option ℕ

unfoldable pub function_or_undefined : Option ℕ → Returned
function_or_undefined none = undefined
function_or_undefined (some f) = function f

unfoldable pub loader_result : Compiler → Reading → Returned
unfolding function_or_undefined
loader_result c (content code) =
    function_or_undefined
      (c.compile_function (c_str code) ("require" ∷ "exports" ∷ "module" ∷ []) 0)
loader_result c read_error = message "read file error"
loader_result c blocked = waits

-- `Loader::Compile`. A file that cannot be opened is found out by `read`. The source ends at its
-- first 0, since it is passed on by `c_str()`.
unfoldable pub loader_compile : Compiler → List ReadAnswer → Returned
unfolding read_all loader_result
loader_compile c answers = loader_result c (read_all answers [])

-- Where the code of `VM::Run` and `VM::CompileFunction` comes from: a file that `open` refuses
-- (`none`), or opens, with the answers of `read`; or the string itself.
pub data Source : Type 0 where
  file_mode : Option (List ReadAnswer) → Source
  code_mode : Bytes → Source

pub data Code : Type 0 where
  code : Bytes → Code
  failed : Returned → Code

unfoldable pub of_reading : Reading → Code
of_reading (content bs) = code bs
of_reading read_error = failed (message "read file error")
of_reading blocked = failed waits

unfoldable pub load_code : Source → Code
unfolding of_reading read_all
load_code (file_mode none) = failed (message "open file error")
load_code (file_mode (some answers)) = of_reading (read_all answers [])
load_code (code_mode bs) = code bs

unfoldable pub run_result : Compiler → Option ℕ → Returned
run_result c none = message "invalid code"
run_result c (some script) = value (c.run_script script)

unfoldable pub run_code : Compiler → Code → Returned
unfolding run_result
run_code c (code bs) = run_result c (c.compile_script bs)
run_code c (failed r) = r

-- `VM::Run`, which passes the code on with its length.
unfoldable pub vm_run : Compiler → Source → Returned
unfolding run_code load_code
vm_run c source = run_code c (load_code source)

-- The options of `VM::CompileFunction`, beside the mode.
pub record CompileOptions : Type 0 where
  pub param_names : List String
  pub extensions : ℕ
  pub param_values : List ℕ
  pub calls : Bool

unfoldable pub value_or_null : Option ℕ → Returned
value_or_null none = null
value_or_null (some v) = value v

unfoldable pub compiled : Compiler → CompileOptions → Option ℕ → Returned
unfolding value_or_null
compiled c o none = undefined
compiled c o (some f) = if o.calls then value_or_null (c.call f o.param_values) else function f

unfoldable pub compile_code : Compiler → CompileOptions → Code → Returned
unfolding compiled
compile_code c o (code bs) = compiled c o (c.compile_function (c_str bs) o.param_names o.extensions)
compile_code c o (failed r) = r

-- `VM::CompileFunction`, whose source ends at its first 0.
unfoldable pub vm_compile_function : Compiler → CompileOptions → Source → Returned
unfolding compile_code load_code
vm_compile_function c o source = compile_code c o (load_code source)
