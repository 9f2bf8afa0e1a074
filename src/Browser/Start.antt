-- ===== src/Browser/Start.antt =====
-- Where `FileBrowser::open` takes the browser, 01.Sources/CLIENT/CPP/src/ui/FileBrowser.cpp.
use assignment_logger_analyz.Prelude.{
  ℕ, suc, ◌≡◌, refl, sym, ap, ◌∙◌, ◌-◌, ltb, if-cases, Bool-cases, inl, inr, true, false, [], ◌∷◌,
  Bytes, length, take, take_all, arith,
}
use assignment_logger_analyz.Browser.{
  copy_to, FileSystem, Browser, Mode, refresh, start_at, open_browser,
}

-- Where a browser stands that was opened with `start`: its directory and the name it proposes.
pub data StartsIn (fs : FileSystem) (start : Bytes) (b : Browser fs) : Type 0 where
  -- nothing was given
  no_start : start ≡ [] → b.dir ≡ fs.current_path → b.name_edit ≡ [] → StartsIn fs start b
  -- a directory
  directory :
      fs.is_directory (fs.u8path start) ≡ true
      → b.dir ≡ fs.u8path start
      → b.name_edit ≡ []
      → StartsIn fs start b
  -- something else in a directory, which gives the first 511 bytes of its name
  inside :
      fs.is_directory (fs.u8path start) ≡ false
      → fs.has_parent_path (fs.u8path start) ≡ true
      → fs.is_directory (fs.parent_path (fs.u8path start)) ≡ true
      → b.dir ≡ fs.parent_path (fs.u8path start)
      → b.name_edit ≡ take 511 (fs.to_utf8 (fs.filename (fs.u8path start)))
      → StartsIn fs start b
  -- a path with a parent that is no directory
  astray :
      fs.is_directory (fs.u8path start) ≡ false
      → fs.has_parent_path (fs.u8path start) ≡ true
      → fs.is_directory (fs.parent_path (fs.u8path start)) ≡ false
      → b.dir ≡ fs.current_path
      → b.name_edit ≡ []
      → StartsIn fs start b
  -- a name without a parent
  named :
      fs.is_directory (fs.u8path start) ≡ false
      → fs.has_parent_path (fs.u8path start) ≡ false
      → b.dir ≡ fs.current_path
      → b.name_edit ≡ take 511 start
      → StartsIn fs start b

pub copy_to-take : (n : ℕ) (s : Bytes) → copy_to (suc n) s ≡ take n s
unfolding copy_to
copy_to-take n s =
    if-cases (λ m. take m s ≡ take n s) (ltb (length s) (suc n - 1))
      (λ e. take_all (length s) s (omega arith) ∙ sym (take_all n s (ground (arith, e))))
      (λ e. ap (λ m. take m s) (omega arith))

module _ (fs : FileSystem) (mode : Mode) (title : Bytes) (b : Browser fs) where
  pub open_browser-StartsIn :
      (start : Bytes) → StartsIn fs start (open_browser fs mode title start b)
  unfolding open_browser start_at refresh
  open_browser-StartsIn [] = no_start refl refl refl
  open_browser-StartsIn (c ∷ s) =
      let p = fs.u8path (c ∷ s) in
      let up = fs.parent_path p in
      elim (Bool-cases (fs.is_directory p)) [
        | inl d ↦ directory d (rw d refl) (rw d refl)
        | inr d ↦ elim (Bool-cases (fs.has_parent_path p)) [
          | inr h ↦ named d h (rw (d, h) refl) (rw (d, h) (copy_to-take 511 (c ∷ s)))
          | inl h ↦ elim (Bool-cases (fs.is_directory up)) [
            | inl u ↦
                inside d h u (rw (d, h, u) refl)
                  (rw (d, h, u) (copy_to-take 511 (fs.to_utf8 (fs.filename p))))
            | inr u ↦ astray d h u (rw (d, h, u) refl) (rw (d, h, u) refl)
          ]
        ]
      ]
