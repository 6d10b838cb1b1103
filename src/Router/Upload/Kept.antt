-- ===== src/Router/Upload/Kept.antt =====
-- What `upload_video` (src/router/v1/video.py) keeps of the cold storage and the rows.
pub mod Arrival
pub mod Served
use portfolio_cv_project.Common.{
  ℕ, ◌<◌, Bool, true, false, not, ◌&&◌, List, [], ◌∷◌, ◌++◌, Option, none, some, if◌then◌else◌,
  Text, same_text, same_text→eq, same_text_refl, ◌≡◌, ◌≢◌, refl, sym, ap, ◌∙◌, ◌⊎◌, arith,
  Bool-cases, inl, inr, All, Result, ok, raise, Error,
}
use portfolio_cv_project.Files.{
  Files, content_of, exists, is_there, write, unlink, rename, content_of-unlink, content_of-write,
}
use portfolio_cv_project.Files.Hash.{Hasher}
use portfolio_cv_project.Video.{VideoFile}
use portfolio_cv_project.Router.Upload.{
  StorageSettings, Site, is_supported, tmp_path, final_path, content_hash, move,
}
use portfolio_cv_project.Router.Upload.Paths.{final_path_inj, final_path-ne-tmp_path}

-- The file of a row is there, with the row's content.
abbrev pub IsBacked : {S : Type 0} → Hasher S → StorageSettings → Files → VideoFile → Type 0
IsBacked h c files v =
    (bytes : Text) × (content_of v.storage_uri files ≡ some bytes)
    × (content_hash h c bytes ≡ v.content_hash)

-- Between two requests: no temporary file, every final path holds a content of its hash, and every
-- row has its file and an id that was given out.
pub record IsKept {S : Type 0} (h : Hasher S) (c : StorageSettings) (s : Site) : Type 0 where
  pub tidy :
      (uuid ext : Text) → is_supported ext ≡ true → content_of (tmp_path c uuid ext) s.files ≡ none
  pub addressed :
      (hash ext bytes : Text)
      → is_supported ext ≡ true
      → content_of (final_path c hash ext) s.files ≡ some bytes
      → content_hash h c bytes ≡ hash
  pub backed : All (IsBacked h c s.files) s.videos.committed
  pub below : All (λ v. v.id < s.videos.next_id) s.videos.committed
  pub fresh : s.videos.rows ≡ s.videos.committed

-- What a request does to each path: `tmp` is gone, and if the upload arrived, `final` is new.
abbrev pub Leaves : Text → Text → Text → Bool → Files → Files → Type 0
Leaves tmp final bytes arrived before after =
    (q : Text)
    → content_of q after ≡ (
        if same_text tmp q
        then none
        else (if arrived && same_text final q then some bytes else content_of q before))

pub same_text_ne : (s t : Text) → s ≢ t → same_text s t ≡ false
same_text_ne s t e = elim (Bool-cases (same_text s t)) [
  | inl same ↦ absurd (e (same_text→eq s t same))
  | inr other ↦ other
]

pub Leaves-unlink :
    (tmp final bytes : Text) (files : Files) → Leaves tmp final bytes false files (unlink tmp files)
Leaves-unlink tmp final bytes files q = content_of-unlink tmp q files

pub Leaves-unlink-write :
    (tmp final bytes body : Text) (files : Files)
    → Leaves tmp final bytes false files (unlink tmp (write tmp body files))
Leaves-unlink-write tmp final bytes body files q =
    content_of-unlink tmp q (write tmp body files)
    ∙ ground (arith, content_of-write tmp body q files)

pub Leaves-rename :
    (tmp final bytes : Text) (files : Files)
    → final ≢ tmp
    → Leaves tmp final bytes true files (rename tmp final (write tmp bytes files))
Leaves-rename tmp final bytes files apart q =
    let chosen : (if same_text tmp tmp then some bytes else content_of tmp files) ≡ some bytes =
      rw (same_text_refl tmp) in
    ap
      (λ o. content_of q (elim o [
        | none ↦ write tmp bytes files
        | some b ↦ write final b (unlink tmp (write tmp bytes files))
      ]))
      (content_of-write tmp bytes tmp files ∙ chosen)
    ∙ (content_of-write final bytes q (unlink tmp (write tmp bytes files))
        ∙ (ap (λ (o : Option Text). if same_text final q then some bytes else o)
              (Leaves-unlink-write tmp final bytes bytes files q)
            ∙ ground (
              arith,
              same_text→eq tmp q,
              same_text→eq final q,
              same_text_ne final tmp apart,
              same_text_refl tmp,
            )))

-- The three outcomes of the move.
pub move_cases :
    (fault : Option Error) (tmp final : Text) (files : Files)
    → ((exists final files ≡ true) × (move fault tmp final files ≡ (ok tt, unlink tmp files)))
      ⊎ ((exists final files ≡ false)
          × (move fault tmp final files ≡ (ok tt, rename tmp final files)))
      ⊎ ((e : Error) × (move fault tmp final files ≡ (raise e, files)))
move_cases fault tmp final files = go fault (Bool-cases (exists final files))
  where
    go :
        (f : Option Error)
        → (exists final files ≡ true) ⊎ (exists final files ≡ false)
        → ((exists final files ≡ true) × (move f tmp final files ≡ (ok tt, unlink tmp files)))
          ⊎ ((exists final files ≡ false)
              × (move f tmp final files ≡ (ok tt, rename tmp final files)))
          ⊎ ((e : Error) × (move f tmp final files ≡ (raise e, files)))
    go f (inl there) = inl (there, rw there)
    go none (inr new) = inr (inl (new, rw new))
    go (some e) (inr new) = inr (inr (e, rw new))

-- A request that leaves the paths so keeps what stood there.
module _ {S : Type 0} (h : Hasher S) (c : StorageSettings) (s : Site) (kept : IsKept h c s)
    (uuid ext : Text) (supported : is_supported ext ≡ true) (hash bytes : Text)
    (hashed : content_hash h c bytes ≡ hash) (arrived : Bool)
    (new : arrived && exists (final_path c hash ext) s.files ≡ false) (files : Files)
    (leaves : Leaves
      (tmp_path c uuid ext)
      (final_path c hash ext)
      bytes
      arrived
      s.files
      files) where
  pub Leaves-tidy :
      (uuid' ext' : Text)
      → is_supported ext' ≡ true
      → content_of (tmp_path c uuid' ext') files ≡ none
  Leaves-tidy uuid' ext' e =
      let q = tmp_path c uuid' ext' in
      leaves q
      ∙ ground (
        arith,
        kept.tidy uuid' ext' e,
        same_text_ne (final_path c hash ext) q
            (final_path-ne-tmp_path c hash ext uuid' ext' supported),
      )

  pub Leaves-addressed :
      (hash' ext' bytes' : Text)
      → is_supported ext' ≡ true
      → content_of (final_path c hash' ext') files ≡ some bytes'
      → content_hash h c bytes' ≡ hash'
  Leaves-addressed hash' ext' bytes' e found =
      let q = final_path c hash' ext' in
      let tmp : same_text (tmp_path c uuid ext) q ≡ false =
        same_text_ne (tmp_path c uuid ext) q
          (λ same. final_path-ne-tmp_path c hash' ext' uuid ext e (sym same)) in
      let read = sym (leaves q) ∙ found in
      go (arrived && same_text (final_path c hash ext) q) refl (rw tmp at read)
    where
      go :
          (b : Bool)
          → arrived && same_text (final_path c hash ext) (final_path c hash' ext') ≡ b
          → (if b then some bytes else content_of (final_path c hash' ext') s.files) ≡ some bytes'
          → content_hash h c bytes' ≡ hash'
      go true is_final found' =
          let paths : same_text (final_path c hash ext) (final_path c hash' ext') ≡ true =
            ground arith in
          let same = final_path_inj c hash hash' ext ext' supported e (same_text→eq _ _ paths) in
          let bytes-same : bytes ≡ bytes' = cc in rw (sym bytes-same, sym same) hashed
      go false other found' = kept.addressed hash' ext' bytes' e found'

  pub Leaves-IsBacked : (v : VideoFile) → IsBacked h c s.files v → IsBacked h c files v
  Leaves-IsBacked v (b, found, e) =
      let tmp : same_text (tmp_path c uuid ext) v.storage_uri ≡ false =
        same_text_ne (tmp_path c uuid ext) v.storage_uri
          (λ same. cc (kept.tidy uuid ext supported, ap (λ q. content_of q s.files) same)) in
      let final : arrived && same_text (final_path c hash ext) v.storage_uri ≡ false =
        go (Bool-cases (arrived && same_text (final_path c hash ext) v.storage_uri)) in
      (b, leaves v.storage_uri ∙ (rw (tmp, final) found), e)
    where
      go :
          (arrived && same_text (final_path c hash ext) v.storage_uri ≡ true)
            ⊎ (arrived && same_text (final_path c hash ext) v.storage_uri ≡ false)
          → arrived && same_text (final_path c hash ext) v.storage_uri ≡ false
      go (inr other) = other
      go (inl same) =
          let paths : same_text (final_path c hash ext) v.storage_uri ≡ true = ground arith in
          let is : arrived ≡ true = ground arith in
          let uri = same_text→eq (final_path c hash ext) v.storage_uri paths in
          let there : content_of (final_path c hash ext) s.files ≡ some b =
            ap (λ q. content_of q s.files) uri ∙ found in
          cc (rw (is, there) at new)

  pub Leaves-All :
      (vs : List VideoFile) → All (IsBacked h c s.files) vs → All (IsBacked h c files) vs
  Leaves-All [] all = tt
  Leaves-All (v ∷ vs) all = (Leaves-IsBacked v all.0, Leaves-All vs all.1)
