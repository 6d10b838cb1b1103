-- ===== src/Files.antt =====
-- The files of a machine by their paths, and what the program does with them.
pub mod Hash
use portfolio_cv_project.Common.{
  Bool, true, false, List, [], ◌∷◌, Option, none, some, if◌then◌else◌, Text, same_text,
  same_text→eq, same_text_refl, ◌≡◌, refl, arith, Bool-cases, inl, inr,
}

abbrev pub Files : Type 0
Files = List (Text × Text)

-- The bytes of a file, if there is one.
abbrev pub content_of : Text → Files → Option Text
content_of path [] = none
content_of path ((p, bytes) ∷ files) =
    if same_text p path then some bytes else content_of path files

abbrev pub is_there : Option Text → Bool
is_there none = false
is_there (some bytes) = true

abbrev pub exists : Text → Files → Bool
exists path files = is_there (content_of path files)

-- `unlink(missing_ok=True)`.
abbrev pub unlink : Text → Files → Files
unlink path [] = []
unlink path ((p, bytes) ∷ files) =
    let rest = unlink path files in if same_text p path then rest else (p, bytes) ∷ rest

abbrev pub write : Text → Text → Files → Files
write path bytes files = (path, bytes) ∷ unlink path files

-- A file under a new name, in place of what stood there.
abbrev pub rename : Text → Text → Files → Files
rename path target files = elim (content_of path files) [
  | none ↦ files
  | some bytes ↦ write target bytes (unlink path files)
]

pub content_of-unlink :
    (path q : Text) (files : Files)
    → content_of q (unlink path files) ≡ (if same_text path q then none else content_of q files)
content_of-unlink path q [] = ground arith
content_of-unlink path q ((p, bytes) ∷ files) = ground (
  arith,
  content_of-unlink path q files,
  same_text→eq p path,
  same_text→eq p q,
  same_text→eq path q,
  same_text_refl q,
  same_text_refl p,
)

pub content_of-write :
    (path bytes q : Text) (files : Files)
    → content_of q (write path bytes files)
      ≡ (if same_text path q then some bytes else content_of q files)
content_of-write path bytes q files = ground (arith, content_of-unlink path q files)
