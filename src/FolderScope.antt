-- ===== src/FolderScope.antt =====
-- The folders that a session may be given: src/assistant/folder-scope.validator.ts. The host, its
-- path rules and its file system, is a parameter.
mod Verdict
mod Tests
use Prim.Native.Char.{code}
use Prim.Native.String.{◌++◌ as ◌<>◌}
use documents_backend.Common.{
  String, Bool, true, false, not, List, [], ◌∷◌, any, nat_eq, str_eq, if◌then◌else◌, Result, ok,
  err, fault,
}

-- What the file system answers: something, `ENOENT`, or another error.
pub data Answer (A : Type 0) : Type 0 where
  there : A → Answer A
  missing : Answer A
  failing : Answer A

pub record Host : Type 0 where
  -- `process.platform === 'win32'`.
  pub windows : Bool
  pub is_absolute : String → Bool
  pub to_lower : String → String
  pub realpath : String → Answer String
  -- `fs.stat(path)`, of which only `isDirectory()` is asked.
  pub stat : String → Answer Bool

pub data Reason : Type 0 where
  not_absolute not_found not_a_directory forbidden_path : Reason

pub data Validation : Type 0 where
  accepted : String → Validation
  refused : Reason → Validation

abbrev pub posix_forbidden_roots : List String
posix_forbidden_roots =
    "/" ∷ "/etc" ∷ "/bin" ∷ "/sbin" ∷ "/usr" ∷ "/var" ∷ "/boot" ∷ "/sys" ∷ "/proc" ∷ "/dev" ∷ "/lib"
    ∷ "/lib64" ∷ []

abbrev pub windows_forbidden_roots : List String
windows_forbidden_roots =
    "C:\\" ∷ "C:\\Windows" ∷ "C:\\Program Files" ∷ "C:\\Program Files (x86)" ∷ []

-- `resolved.replace(/\//g, '\\')`.
unfoldable pub backslashed : String → String
backslashed String.[] = ""
backslashed (String.◌∷◌ c s) =
    let rest = backslashed s in if nat_eq (code c) b'/' then "\\" <> rest else String.◌∷◌ c rest

unfoldable pub is_forbidden_path : Host → String → Bool
is_forbidden_path host resolved =
    if str_eq resolved "~"
    then true
    else if host.windows
    then any (λ root. str_eq (host.to_lower (backslashed resolved)) (host.to_lower root))
        windows_forbidden_roots
    else any (λ root. str_eq root resolved) posix_forbidden_roots

abbrev pub check_folder : Host → String → Answer Bool → Result Validation
check_folder host resolved missing = ok (refused not_found)
check_folder host resolved failing = err fault
check_folder host resolved (there false) = ok (refused not_a_directory)
check_folder host resolved (there true) =
    if is_forbidden_path host resolved then ok (refused forbidden_path) else ok (accepted resolved)

abbrev pub check_real : Host → Answer String → Result Validation
check_real host missing = ok (refused not_found)
check_real host failing = err fault
check_real host (there resolved) = check_folder host resolved (host.stat resolved)

unfoldable pub validate_folder_scope : Host → String → Result Validation
validate_folder_scope host input =
    if str_eq input "~"
    then ok (refused forbidden_path)
    else if not (host.is_absolute input)
    then ok (refused not_absolute)
    else check_real host (host.realpath input)
