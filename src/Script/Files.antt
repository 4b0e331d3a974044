-- ===== src/Script/Files.antt =====
-- What the reading loop makes of a file, and what the compiler is given.
use mathlib.Core.List.{append-nil, append_assoc}
use no_js.Base.{some, List, [], ◌∷◌, ◌++◌, map, join, All, ◌≡◌, ◌≢◌, refl}
use no_js.Base.Bytes.{Bytes, NoZero, c_str_cut}
use no_js.Script.{
  ReadAnswer, gives, fails, content, read_error, read_all, Compiler, file_mode, vm_run, run_result,
  CompileOptions, compiled, vm_compile_function, loader_compile, function_or_undefined,
}

read_all_from :
    (chunks : List Bytes) (rest : List ReadAnswer) (code : Bytes)
    → All (λ bs. bs ≢ []) chunks
    → read_all (map gives chunks ++ rest) code ≡ read_all rest (code ++ join chunks)
unfolding read_all
read_all_from [] rest code full = rw append-nil
read_all_from ([] ∷ chunks) rest code full = absurd (full.0 refl)
read_all_from ((b ∷ bs) ∷ chunks) rest code full =
    rw (read_all_from chunks rest (code ++ b ∷ bs) full.1, append_assoc)

-- However a file comes in chunks, the loop ends at its end with all of them in their order; and it
-- ends with an error at the first failure.
pub read_all-join :
    (chunks : List Bytes) (rest : List ReadAnswer)
    → All (λ bs. bs ≢ []) chunks
    → (read_all (map gives chunks ++ gives [] ∷ rest) [] ≡ content (join chunks))
      × (read_all (map gives chunks ++ fails ∷ rest) [] ≡ read_error)
read_all-join chunks rest full = (
  rw (read_all_from chunks (gives [] ∷ rest) [] full) (unfold read_all in refl),
  rw (read_all_from chunks (fails ∷ rest) [] full) (unfold read_all in refl),
)

-- A file with a 0 in it: `Loader::Compile` and `VM::CompileFunction` compile what stands before the
-- 0, and `VM::Run` the whole file.
pub compile_zero_byte :
    (c : Compiler) (o : CompileOptions) (chunks : List Bytes) (rest : List ReadAnswer)
    (xs ys : Bytes)
    → All (λ bs. bs ≢ []) chunks
    → join chunks ≡ xs ++ 0 ∷ ys
    → NoZero xs
    → let answers = map gives chunks ++ gives [] ∷ rest in
      (loader_compile c answers
        ≡ function_or_undefined (c.compile_function xs ("require" ∷ "exports" ∷ "module" ∷ []) 0))
      × (vm_compile_function c o (file_mode (some answers))
          ≡ compiled c o (c.compile_function xs o.param_names o.extensions))
      × (vm_run c (file_mode (some answers)) ≡ run_result c (c.compile_script (xs ++ 0 ∷ ys)))
unfolding loader_compile vm_compile_function vm_run
compile_zero_byte c o chunks rest xs ys full e zero_free =
    let whole = (read_all-join chunks rest full).0 in
    (
      rw (whole, e, c_str_cut xs ys zero_free) refl,
      rw (whole, e, c_str_cut xs ys zero_free) refl,
      rw (whole, e) refl,
    )
