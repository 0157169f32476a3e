-- ===== src/Watchdog/Lock.antt =====
-- pkg/watchdog.go: the lock file and the flag acceptingConnections.
pub mod Laws
use of_watchdog.Prelude.{Bool, Option, false, if◌then◌else◌, none, some, true, ℕ}
use of_watchdog.Go.Http.{Error}

-- `accepting_connections` is the package's `int32`. `lock_file` says whether the lock file exists,
-- and `readable` whether its directory can be searched.
pub record World : Type 0 where
  pub accepting_connections : ℕ
  pub lock_file : Bool
  pub readable : Bool

-- `lockFilePresent`: only the error "does not exist" makes it false.
unfoldable pub lock_file_present : World → Bool
lock_file_present w = if w.readable then w.lock_file else true

abbrev pub store : ℕ → World → World
store n w = record w { accepting_connections = n }

-- `createLockFile`, of the errors of making the directory and of writing the file.
unfoldable pub create_lock_file : Option Error → Option Error → World → World × Option Error
create_lock_file (some e) write w = (w, some e)
create_lock_file none (some e) w = (w, some e)
create_lock_file none none w = (store 1 (record w { lock_file = true }), none)

-- `markUnhealthy`, of the error of removing the file where it exists.
unfoldable pub mark_unhealthy : Option Error → World → World × Option Error
mark_unhealthy remove w =
    let w' = store 0 w in
    if w.lock_file
    then elim remove [ none ↦ (record w' { lock_file = false }, none) | some e ↦ (w', some e) ]
    else (w', some "file does not exist")
