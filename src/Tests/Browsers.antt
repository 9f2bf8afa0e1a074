-- ===== src/Tests/Browsers.antt =====
-- The theorems on the file browser, at a directory of three entries.
use assignment_logger_analyz.Prelude.{◌≡◌, true, false, none, [], ◌∷◌, List, Bytes, codes}
use assignment_logger_analyz.Browser.{
  open_file, Entry, FileSystem, Browser, contains_nocase, open_browser,
}
use assignment_logger_analyz.Browser.Order.{Opened, open_browser-Ordered}
use assignment_logger_analyz.Browser.Filter.{Occurs, contains_nocase-Occurs}

abbrev listing : List Entry
listing =
    record { name = codes "b.log"; is_dir = false; size = 20 }
    ∷ record { name = codes "old"; is_dir = true; size = 0 }
    ∷ record { name = codes "a.log"; is_dir = false; size = 10 }
    ∷ []

-- Paths are texts, and every text is a directory with these entries.
abbrev files : FileSystem
files = record {
  FilePath = Bytes;
  u8path = λ s. s;
  to_utf8 = λ p. p;
  is_directory = λ p. true;
  is_regular_file = λ p. false;
  has_parent_path = λ p. false;
  parent_path = λ p. p;
  filename = λ p. p;
  join = λ p q. q;
  current_path = [];
  entries = λ p. (listing, none);
}

abbrev closed : Browser files
closed = record {
  mode = open_file;
  want_open = false;
  visible = false;
  title = [];
  dir = [];
  selected = [];
  listed = [];
  list_error = [];
  path_edit = [];
  name_edit = [];
  filter = [];
}

open_browser-Ordered_example :
    Opened files (codes "logs") (open_browser files open_file (codes "Open") (codes "logs") closed)
open_browser-Ordered_example =
    open_browser-Ordered files open_file (codes "Open") (codes "logs") closed

contains_nocase-Occurs_example :
    (contains_nocase (codes "Build.LOG") (codes "log") ≡ true
      → Occurs (codes "log") (codes "Build.LOG"))
    × (Occurs (codes "log") (codes "Build.LOG")
        → contains_nocase (codes "Build.LOG") (codes "log") ≡ true)
contains_nocase-Occurs_example = contains_nocase-Occurs (codes "Build.LOG") (codes "log")
