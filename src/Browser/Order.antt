-- ===== src/Browser/Order.antt =====
-- The browser lists what the directory holds, directories first and each kind by name.
use assignment_logger_analyz.Prelude.{
  ◌<◌, ◌==◌, ◌⊎◌, take, ◌≡◌, refl, Bool, true, false, if◌then◌else◌, if-cases, Bool-cases, inl, inr,
  List, [], ◌∷◌, Bytes, arith,
}
use mathlib.Core.List.{Perm}
use mathlib.Core.List.Perm
use assignment_logger_analyz.Browser.{
  Entry, bytes_less, before, insert, sorted, FileSystem, Browser, Mode, refresh, start_at,
  open_browser, list_error_text,
}
use assignment_logger_analyz.Browser.Start.{StartsIn, copy_to-take, open_browser-StartsIn}

bytes_less-asymmetric : (a b : Bytes) → bytes_less a b ≡ true → bytes_less b a ≡ false
unfolding bytes_less
bytes_less-asymmetric [] [] e = refl
bytes_less-asymmetric [] (b ∷ bs) e = refl
bytes_less-asymmetric (a ∷ xs) [] e = absurd (ground (arith, e))
bytes_less-asymmetric (a ∷ xs) (b ∷ bs) e = ground (arith, e, bytes_less-asymmetric xs bs)

-- Either test of two entries, by whether they are directories and by their names.
kinds-asymmetric :
    (a_dir b_dir a_less b_less : Bool)
    → (a_less ≡ true → b_less ≡ false)
    → (if a_dir then (if b_dir then a_less else true) else (if b_dir then false else a_less)) ≡ true
    → (if b_dir then (if a_dir then b_less else true) else (if a_dir then false else b_less))
      ≡ false
kinds-asymmetric true true l m h e = h e
kinds-asymmetric true false l m h e = refl
kinds-asymmetric false true l m h e = absurd (ground (arith, e))
kinds-asymmetric false false l m h e = h e

before-asymmetric : (a b : Entry) → before a b ≡ true → before b a ≡ false
unfolding before
before-asymmetric a b =
    kinds-asymmetric a.is_dir b.is_dir (bytes_less a.name b.name) (bytes_less b.name a.name)
      (bytes_less-asymmetric a.name b.name)

-- What comes before an entry comes before what that entry comes before.
bytes_less-transitive :
    (a b c : Bytes) → bytes_less a b ≡ true → bytes_less b c ≡ true → bytes_less a c ≡ true
unfolding bytes_less
bytes_less-transitive [] [] c e f = f
bytes_less-transitive [] (b ∷ bs) [] e f = f
bytes_less-transitive [] (b ∷ bs) (c ∷ cs) e f = refl
bytes_less-transitive (a ∷ xs) [] c e f = absurd (ground (arith, e))
bytes_less-transitive (a ∷ xs) (b ∷ bs) [] e f = f
bytes_less-transitive (a ∷ xs) (b ∷ bs) (c ∷ cs) e f =
    ground (arith, e, f, bytes_less-transitive xs bs cs)

kinds-transitive :
    (a_dir b_dir c_dir ab bc ac : Bool)
    → (ab ≡ true → bc ≡ true → ac ≡ true)
    → (if a_dir then (if b_dir then ab else true) else (if b_dir then false else ab)) ≡ true
    → (if b_dir then (if c_dir then bc else true) else (if c_dir then false else bc)) ≡ true
    → (if a_dir then (if c_dir then ac else true) else (if c_dir then false else ac)) ≡ true
kinds-transitive true true true ab bc ac h e f = h e f
kinds-transitive true b false ab bc ac h e f = refl
kinds-transitive true false true ab bc ac h e f = absurd (ground (arith, f))
kinds-transitive false true c ab bc ac h e f = absurd (ground (arith, e))
kinds-transitive false false true ab bc ac h e f = f
kinds-transitive false false false ab bc ac h e f = h e f

before-transitive : (a b c : Entry) → before a b ≡ true → before b c ≡ true → before a c ≡ true
unfolding before
before-transitive a b c =
    kinds-transitive a.is_dir b.is_dir c.is_dir (bytes_less a.name b.name)
      (bytes_less b.name c.name) (bytes_less a.name c.name)
      (bytes_less-transitive a.name b.name c.name)

before-skips : (y e x : Entry) → before e x ≡ true → before y x ≡ false → before y e ≡ false
before-skips y e x c k = elim (Bool-cases (before y e)) [
  | inl d ↦ absurd (cc (before-transitive y e x d c, k))
  | inr d ↦ d
]

-- One name is the other, or stands before it by the first byte in which they differ or by its end.
abbrev pub AtMost : Bytes → Bytes → Type 0
AtMost [] bs = Unit {0}
AtMost (a ∷ xs) [] = ⊥
AtMost (a ∷ xs) (b ∷ bs) = (a < b) ⊎ ((a ≡ b) × AtMost xs bs)

-- Directories stand in front of files, and two of a kind by their names.
abbrev pub InFront : Entry → Entry → Type 0
InFront x y =
    ((x.is_dir ≡ true) × (y.is_dir ≡ false)) ⊎ ((x.is_dir ≡ y.is_dir) × AtMost x.name y.name)

-- A relation that holds of one entry and each of the list.
abbrev pub ToEach : (Entry → Entry → Type 0) → Entry → List Entry → Type 0
ToEach R x [] = Unit {0}
ToEach R x (y ∷ es) = R x y × ToEach R x es

-- And of each entry and every one that stands behind it.
abbrev pub Ordered : (Entry → Entry → Type 0) → List Entry → Type 0
Ordered R [] = Unit {0}
Ordered R (x ∷ es) = ToEach R x es × Ordered R es

module _ (P R : Entry → Entry → Type 0) (f : (x y : Entry) → P x y → R x y) where
  ToEach-map : (x : Entry) (es : List Entry) → ToEach P x es → ToEach R x es
  ToEach-map x [] k = tt
  ToEach-map x (y ∷ es) (k, ks) = (f x y k, ToEach-map x es ks)

  Ordered-map : (es : List Entry) → Ordered P es → Ordered R es
  Ordered-map [] k = tt
  Ordered-map (x ∷ es) (k, ks) = (ToEach-map x es k, Ordered-map es ks)

-- The comparison does not put the second entry in front of the first.
abbrev NotAfter : Entry → Entry → Type 0
NotAfter x y = before y x ≡ false

bytes_less-AtMost : (a b : Bytes) → bytes_less b a ≡ false → AtMost a b
unfolding bytes_less
bytes_less-AtMost [] b e = tt
bytes_less-AtMost (a ∷ xs) [] e = absurd (ground (arith, e))
bytes_less-AtMost (a ∷ xs) (b ∷ bs) e = elim (Bool-cases (b == a)) [
  | inl q ↦ inr (ground arith, bytes_less-AtMost xs bs (ground (arith, e, q)))
  | inr q ↦ inl (ground (arith, e, q))
]

kinds-InFront :
    (x_dir y_dir less : Bool) (A : Type 0)
    → (less ≡ false → A)
    → (if y_dir then (if x_dir then less else true) else (if x_dir then false else less)) ≡ false
    → ((x_dir ≡ true) × (y_dir ≡ false)) ⊎ ((x_dir ≡ y_dir) × A)
kinds-InFront true true l A h e = inr (refl, h e)
kinds-InFront true false l A h e = inl (refl, refl)
kinds-InFront false true l A h e = absurd (ground (arith, e))
kinds-InFront false false l A h e = inr (refl, h e)

NotAfter-InFront : (x y : Entry) → NotAfter x y → InFront x y
unfolding before
NotAfter-InFront x y =
    kinds-InFront x.is_dir y.is_dir (bytes_less y.name x.name) (AtMost x.name y.name)
      (bytes_less-AtMost x.name y.name)

insert-ToEach :
    (x e : Entry) (es : List Entry)
    → before e x ≡ false
    → ToEach NotAfter x es
    → ToEach NotAfter x (insert e es)
unfolding insert
insert-ToEach x e [] c k = (c, tt)
insert-ToEach x e (y ∷ es) c (k, ks) =
    if-cases (ToEach NotAfter x) (before e y) (λ _. (c, (k, ks)))
      (λ _. (k, insert-ToEach x e es c ks))

skips-ToEach :
    (e x : Entry) (es : List Entry)
    → before e x ≡ true
    → ToEach NotAfter x es
    → ToEach NotAfter e es
skips-ToEach e x [] c k = tt
skips-ToEach e x (y ∷ es) c (k, ks) = (before-skips y e x c k, skips-ToEach e x es c ks)

insert-Ordered :
    (e : Entry) (es : List Entry) → Ordered NotAfter es → Ordered NotAfter (insert e es)
unfolding insert
insert-Ordered e [] k = (tt, tt)
insert-Ordered e (x ∷ xs) (k, ks) =
    if-cases (Ordered NotAfter) (before e x)
      (λ c. ((before-asymmetric e x c, skips-ToEach e x xs c k), (k, ks)))
      (λ c. (insert-ToEach x e xs c k, insert-Ordered e xs ks))

insert-Perm : (e : Entry) (es : List Entry) → Perm (insert e es) (e ∷ es)
unfolding insert
insert-Perm e [] = Perm.refl (e ∷ [])
insert-Perm e (x ∷ xs) =
    if-cases (λ t. Perm t (e ∷ x ∷ xs)) (before e x) (λ _. Perm.refl (e ∷ x ∷ xs))
      (λ _. Perm.trans (Perm.cons x (insert-Perm e xs)) (Perm.swap e x xs))

sorted-Ordered : (es : List Entry) → Ordered NotAfter (sorted es)
unfolding sorted
sorted-Ordered [] = tt
sorted-Ordered (e ∷ es) = insert-Ordered e (sorted es) (sorted-Ordered es)

sorted-Perm : (es : List Entry) → Perm (sorted es) es
unfolding sorted
sorted-Perm [] = Perm.refl []
sorted-Perm (e ∷ es) = Perm.trans (insert-Perm e (sorted es)) (Perm.cons e (sorted-Perm es))

-- The browser as `open` leaves it.
abbrev pub Opened : (fs : FileSystem) → Bytes → Browser fs → Type 0
Opened fs start now =
    StartsIn fs start now
    × Ordered InFront now.listed
    × Perm now.listed (fs.entries now.dir).0
    × (now.list_error ≡ list_error_text fs (fs.entries now.dir).1)
    × (now.path_edit ≡ take 1023 (fs.to_utf8 now.dir))
    × (now.selected ≡ [])
    × (now.filter ≡ [])

-- After `open`, whatever the browser held before, it stands in the start where that is a directory, in
-- the parent of the start where that is a directory, with the name behind it proposed, and else in the
-- current directory. Its list is the entries that the file system gives for that directory, each once, with
-- the directories in front of the files and each kind by name, byte by byte. The error beside the list
-- is the one that ended it, or empty; the path shown is that of the directory, as far as it fits; and no
-- file is chosen and no filter set.
pub open_browser-Ordered :
    (fs : FileSystem) (mode : Mode) (title start : Bytes) (b : Browser fs)
    → Opened fs start (open_browser fs mode title start b)
unfolding open_browser refresh
open_browser-Ordered fs mode title start b =
    let dir = (start_at fs start).0 in
    let es = (fs.entries dir).0 in
    (
      open_browser-StartsIn fs mode title b start,
      Ordered-map NotAfter InFront NotAfter-InFront (sorted es) (sorted-Ordered es),
      sorted-Perm es,
      refl,
      copy_to-take 1023 (fs.to_utf8 dir),
      refl,
      refl,
    )
