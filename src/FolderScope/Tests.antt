-- ===== src/FolderScope/Tests.antt =====
-- Folders by evaluation, and the theorem at one of them.
use documents_backend.Common.{
  String, true, false, ◌≡◌, ◌≢◌, ◌↔◌, ◌⊎◌, refl, str_eq, if◌then◌else◌, ok,
}
use documents_backend.FolderScope.{
  there, missing, Host, not_a_directory, forbidden_path, accepted, refused, backslashed,
  is_forbidden_path, validate_folder_scope,
}
use documents_backend.FolderScope.Verdict.{LeadsTo, IsOpen, validate_folder_scope-IsOpen}

-- A link in a home folder that leads to the folder of the system, and a file.
abbrev host : Host
host = record {
  windows = false;
  is_absolute = λ s. if str_eq s "docs" then false else true;
  to_lower = λ s. s;
  realpath = λ s.
      if str_eq s "/home/link" then there "/etc" else if str_eq s "/none" then missing else there s;
  stat = λ s. there (if str_eq s "/home/a.txt" then false else true);
}

machine : Unit {0}
unfolding backslashed is_forbidden_path validate_folder_scope
machine = tt

link-refused : validate_folder_scope host "/home/link" ≡ ok (refused forbidden_path)
unfolding machine
link-refused = refl

file-refused : validate_folder_scope host "/home/a.txt" ≡ ok (refused not_a_directory)
unfolding machine
file-refused = refl

-- Only the listed folders themselves are forbidden, not those below them.
below_forbidden : validate_folder_scope host "/etc/ssl" ≡ ok (accepted "/etc/ssl")
unfolding machine
below_forbidden = refl

abbrev link : String
link = "/home/link"

validate_folder_scope-IsOpen_example :
    ((validate_folder_scope host link ≡ ok (accepted "/etc"))
      ↔ ((link ≢ "~") × LeadsTo host link "/etc" × IsOpen host "/etc"))
    × ((validate_folder_scope host link ≡ ok (refused forbidden_path))
        ↔ ((link ≡ "~") ⊎ ((closed : String) × LeadsTo host link closed × ¬ IsOpen host closed)))
validate_folder_scope-IsOpen_example = validate_folder_scope-IsOpen host link "/etc"
