-- ===== src/Std/Output.antt =====
-- `println!`: the output of a program, as a list of lines of a type of its own.
use mathlib.Core.List.{append-nil, append_assoc}
use rust_users.Prelude.{◌≡◌, List, [], ◌∷◌, ◌++◌, map, arith}
use rust_users.Std.Exec.{Exec, ret, pure, modify, ◌>>◌}

-- `println!`, in a program whose state begins with its output.
abbrev pub print : {Line S : Type 0} → Line → Exec (List Line × S) (Unit {0})
print line = modify λ (out, s). (out ++ line ∷ [], s)

-- `for x in xs { println!(…) }`
pub print_all : {Line S A : Type 0} → (A → Line) → List A → Exec (List Line × S) (Unit {0})
print_all line [] = pure tt
print_all line (x ∷ xs) = do print (line x); print_all line xs

pub print_all_lem :
    {Line S A : Type 0} (line : A → Line) (xs : List A) (out : List Line) (s : S)
    → print_all line xs (out, s) ≡ (ret tt, (out ++ map line xs, s))
unfolding print_all
print_all_lem line [] out s = ground (arith, append-nil out)
print_all_lem line (x ∷ xs) out s = ground (
  arith,
  print_all_lem line xs (out ++ line x ∷ []) s,
  append_assoc out (line x ∷ []) (map line xs),
)
