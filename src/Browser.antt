-- ===== src/Browser.antt =====
-- The logic of the client's file browser, 01.Sources/CLIENT/CPP/src/ui/FileBrowser.h and
-- FileBrowser.cpp, without what it draws: `open`, `go`, `refresh`, the filter and the choice of a file.
-- Texts hold no zero byte.
pub mod Filter
pub mod Order
pub mod Start
use assignment_logger_analyz.Prelude.{
  ℕ, zero, suc, ltb, leb, ◌+◌, ◌-◌, ◌==◌, if◌then◌else◌, Bool, true, false, not, ◌&&◌, ◌||◌, Option,
  none, some, List, [], ◌∷◌, ◌++◌, Bytes, codes, length, take, equal,
}

-- What fits a buffer of `size` characters, the last of which ends the text.
unfoldable pub copy_to : ℕ → Bytes → Bytes
copy_to size s = take (if ltb (length s) (size - 1) then length s else size - 1) s

-- std::tolower in the locale "C".
unfoldable pub lower : ℕ → ℕ
lower c = if leb 65 c && leb c 90 then c + 32 else c

-- The inner loop, from some place of the name on.
unfoldable pub matches : Bytes → Bytes → Bool
matches [] rest = true
matches (n ∷ needle) [] = false
matches (n ∷ needle) (c ∷ rest) = (lower c == lower n) && matches needle rest

-- The outer loop, over the places that leave room for the needle.
unfoldable pub search_from : Bytes → Bytes → Bool
unfolding matches
search_from needle [] = false
search_from needle (c ∷ rest) =
    if ltb (length (c ∷ rest)) (length needle)
    then false
    else matches needle (c ∷ rest) || search_from needle rest

unfoldable pub contains_nocase : Bytes → Bytes → Bool
unfolding search_from
contains_nocase hay [] = true
contains_nocase hay (n ∷ needle) =
    if ltb (length hay) (length (n ∷ needle)) then false else search_from (n ∷ needle) hay

pub data Mode : Type 0 where
  open_file save_file : Mode

unfoldable pub must_exist : Mode → Bool
must_exist open_file = true
must_exist save_file = false

pub record Entry : Type 0 where
  pub name : Bytes
  pub is_dir : Bool
  pub size : ℕ

-- operator< of std::string.
unfoldable pub bytes_less : Bytes → Bytes → Bool
bytes_less [] [] = false
bytes_less [] (b ∷ bs) = true
bytes_less (a ∷ as') [] = false
bytes_less (a ∷ as') (b ∷ bs) = if a == b then bytes_less as' bs else ltb a b

-- The comparison of std::sort: directories stand first.
unfoldable pub before : Entry → Entry → Bool
unfolding bytes_less
before a b =
    if a.is_dir
    then (if b.is_dir then bytes_less a.name b.name else true)
    else (if b.is_dir then false else bytes_less a.name b.name)

-- std::sort puts the entries in an order that the comparison allows, which is one where no two
-- entries of a directory have the same name.
unfoldable pub insert : Entry → List Entry → List Entry
unfolding before
insert e [] = e ∷ []
insert e (x ∷ xs) = let later = insert e xs in if before e x then e ∷ x ∷ xs else x ∷ later

unfoldable pub sorted : List Entry → List Entry
unfolding insert
sorted [] = []
sorted (e ∷ es) = insert e (sorted es)

-- The file system as an operation finds it.
pub record FileSystem : Type 1 where
  pub FilePath : Type 0
  pub u8path : Bytes → FilePath
  pub to_utf8 : FilePath → Bytes
  pub is_directory : FilePath → Bool
  pub is_regular_file : FilePath → Bool
  pub has_parent_path : FilePath → Bool
  pub parent_path : FilePath → FilePath
  pub filename : FilePath → FilePath
  pub join : FilePath → FilePath → FilePath
  pub current_path : FilePath
  -- the entries that can be listed, and the text of the error that ended the list
  pub entries : FilePath → List Entry × Option Bytes

module _ (fs : FileSystem) where
  pub record Browser : Type 0 where
    pub mode : Mode
    pub want_open : Bool
    pub visible : Bool
    pub title : Bytes
    pub dir : fs.FilePath
    pub selected : Bytes
    pub listed : List Entry
    pub list_error : Bytes
    pub path_edit : Bytes
    pub name_edit : Bytes
    pub filter : Bytes

  abbrev pub list_error_text : Option Bytes → Bytes
  list_error_text none = []
  list_error_text (some e) = codes "cannot list directory: " ++ e

  unfoldable pub refresh : Browser → Browser
  unfolding sorted copy_to
  refresh b =
      let (es, err) = fs.entries b.dir in
      record b {
        listed = sorted es;
        list_error = list_error_text err;
        path_edit = copy_to 1024 (fs.to_utf8 b.dir);
      }

  unfoldable pub go : fs.FilePath → Browser → Browser
  unfolding refresh
  go dir b = if fs.is_directory dir then refresh (record b { dir = dir }) else b

  -- The directory and the name that the browser starts with.
  unfoldable pub start_at : Bytes → fs.FilePath × Bytes
  unfolding copy_to
  start_at [] = (fs.current_path, [])
  start_at (c ∷ start) =
      let p = fs.u8path (c ∷ start) in
      if fs.is_directory p
      then (p, [])
      else if fs.has_parent_path p && fs.is_directory (fs.parent_path p)
      then (fs.parent_path p, copy_to 512 (fs.to_utf8 (fs.filename p)))
      else (fs.current_path, if fs.has_parent_path p then [] else copy_to 512 (c ∷ start))

  unfoldable pub open_browser : Mode → Bytes → Bytes → Browser → Browser
  unfolding start_at refresh
  open_browser mode title start b =
      let (dir, name) = start_at start in
      refresh (record b {
        mode = mode;
        title = title ++ codes "###filebrowser";
        want_open = true;
        visible = true;
        selected = [];
        name_edit = name;
        filter = [];
        dir = dir;
      })

  -- The entries of the table.
  unfoldable pub shown : Bytes → List Entry → List Entry
  unfolding contains_nocase
  shown filter [] = []
  shown filter (e ∷ es) =
      let later = shown filter es in if contains_nocase e.name filter then e ∷ later else later

  -- A click on a row of the table, with whether a file is chosen by it.
  unfoldable pub click : Bool → Entry → Browser → Bool × Browser
  unfolding go copy_to
  click is_double e b =
      let path = fs.join b.dir (fs.u8path e.name) in
      let named = record b { name_edit = copy_to 512 e.name } in
      if e.is_dir
      then (false, if is_double then go path b else b)
      else if is_double
      then (true, record named { selected = fs.to_utf8 path })
      else (false, named)

  abbrev confirmed : fs.FilePath → Bytes → Browser → Bool × Browser
  confirmed chosen name b =
      if must_exist b.mode && not (fs.is_regular_file chosen)
      then (false, record b { list_error = codes "file does not exist: " ++ name })
      else (true, record b { selected = fs.to_utf8 chosen; visible = false })

  -- A confirmation, with whether a file is chosen by it.
  unfoldable pub choose : Browser → Bool × Browser
  unfolding must_exist
  choose b =
      if leb 1 (length b.name_edit)
      then confirmed (fs.join b.dir (fs.u8path b.name_edit)) b.name_edit b
      else (false, b)
