-- ===== src/Tests/Logging.antt =====
-- base.rs with logging, on the small system.
use rust_users.Prelude.{◌+◌, ◌≡◌, Option, List, [], arith}
use rust_users.Std.Exec.{ret, ok}
use rust_users.Base.Types.{User, Group}
use rust_users.Base.Logging.{Message, group_access_list}
use rust_users.Base.Logging.Program.{
  Call, Answer, Program, ask, result, run, perform, perform_logged, logging_is_silent,
}
use rust_users.Base.Logging.Counts.{lookups, group_access_list_logs}
use rust_users.Tests.System.{toy, toy_groups, as_fred}
use rust_users.Tests.Readable.{toy_directory}

-- The user of the process, found by the ID that the first call returns.
abbrev current_user : Program (Option User)
unfolding Answer
current_user = ask Call.current_uid λ uid. ask (Call.user_by_uid uid) λ user. result user

logging_is_silent_example :
    let (r, (log', w')) = run (perform_logged toy) current_user ([], as_fred) in
    (r, w') ≡ run (perform toy) current_user as_fred
unfolding current_user
logging_is_silent_example = logging_is_silent toy current_user [] as_fred

group_access_list_logs_example :
    (groups : List Group) × (log' : List Message) × (group_access_list toy ([], as_fred)
      ≡ (ret (ok groups), (log', as_fred)))
    × (lookups log' ≡ 1024 + lookups [])
group_access_list_logs_example =
    group_access_list_logs toy as_fred (toy_directory as_fred) toy_groups [] (omega arith)
