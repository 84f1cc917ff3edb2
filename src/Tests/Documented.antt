-- ===== src/Tests/Documented.antt =====
-- The examples of the documentation, and Android, on the small system.
use rust_users.Prelude.{ℕ, ◌≡◌, some, List, [], ◌∷◌, ◌++◌, map, codes, nat_eq}
use rust_users.Std.Exec.{ret}
use rust_users.Std.Ffi.{has_nul}
use rust_users.Std.HashMap.{HashMap}
use rust_users.Base.Types.{User}
use rust_users.Android.Linux.{on_linux, on_android, plain, android_lookups}
use rust_users.Android.Linux
use rust_users.Docs.Output.{Line}
use rust_users.Docs.Mocking.{two_users, two_users_print}
use rust_users.Tests.System.{toy, as_root, as_fred}
use rust_users.Tests.Readable.{fred, toy_directory}
use rust_users.Tests.Unique.{toy_unique}

android_lookups_example :
    on_android toy (Linux.uid 1337) as_root ≡ (ret (some (plain fred)), as_root)
unfolding on_linux nat_eq has_nul
android_lookups_example =
    android_lookups toy (Linux.uid 1337) as_root as_root (some fred)
      ((toy_directory as_root).reads_uid 1337)

-- The mock holds one user, so each order of its values is the same list.
abbrev values : HashMap ℕ User → List User
values m = map (λ (x : ℕ × User). x.1) m

two_users_print_example : two_users toy values ([], as_fred) ≡ (
  ret tt,
  (
    ([] ++ Line.current_user (some (codes "fred")) ∷ [])
        ++ Line.current_user (some (codes "fred")) ∷ [],
    as_fred,
  ),
)
unfolding nat_eq
two_users_print_example =
    two_users_print toy values [] as_fred (toy_directory as_fred) (toy_unique as_fred)
