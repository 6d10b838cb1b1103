-- ===== src/Router/Upload/Paths.antt =====
-- The paths of `upload_video` (src/router/v1/video.py): a temporary path is never a final one, and a
-- final path tells its hash.
use portfolio_cv_project.Common.{ℕ, ◌/◌, ◌%◌, true, [], ◌∷◌, ◌++◌, Text, ◌≡◌, ◌≢◌, refl, sym, arith}
use portfolio_cv_project.Files.Hash.{digit, hex}
use portfolio_cv_project.Router.Upload.{StorageSettings, is_supported, tmp_path, final_path}

append-cancel : (p xs ys : Text) → p ++ xs ≡ p ++ ys → xs ≡ ys
append-cancel [] xs ys e = e
append-cancel (c ∷ p) xs ys e = append-cancel p xs ys (cc)

digit_inj : (a b : ℕ) → digit a ≡ digit b → a ≡ b
digit_inj a b e = ground arith

digit-ne_dot : (a : ℕ) → digit a ≢ b'.'
digit-ne_dot a e = ground arith

digit-ne_underscore : (a : ℕ) → digit a ≢ b'_'
digit-ne_underscore a e = ground arith

byte_inj : (a b : ℕ) → digit (a / 16) ≡ digit (b / 16) → digit (a % 16) ≡ digit (b % 16) → a ≡ b
byte_inj a b e f = omega (arith, digit_inj (a / 16) (b / 16) e, digit_inj (a % 16) (b % 16) f)

hex_inj : (g h r s : Text) → hex g ++ (b'.' ∷ r) ≡ hex h ++ (b'.' ∷ s) → g ≡ h
hex_inj [] [] r s e = refl
hex_inj [] (b ∷ h) r s e = absurd (digit-ne_dot (b / 16) (cc))
hex_inj (a ∷ g) [] r s e = absurd (digit-ne_dot (a / 16) (cc))
hex_inj (a ∷ g) (b ∷ h) r s e =
    let same : a ≡ b = byte_inj a b (cc) (cc) in let rest : g ≡ h = hex_inj g h r s (cc) in cc

hex-ne_tmp : (h r t : Text) → hex h ++ (b'.' ∷ r) ≢ b't' ∷ b'm' ∷ b'p' ∷ b'_' ∷ t
hex-ne_tmp [] r t e = ground arith
hex-ne_tmp (a ∷ []) r t e = ground arith
hex-ne_tmp (a ∷ b ∷ h) r t e = absurd (digit-ne_underscore (b % 16) (cc))

supported-dot : (ext : Text) → is_supported ext ≡ true → (r : Text) × (ext ≡ b'.' ∷ r)
supported-dot [] e = cc
supported-dot (k ∷ r) e = (r, ground arith)

module _ (c : StorageSettings) where
  pub final_path_inj :
      (g h ext ext' : Text)
      → is_supported ext ≡ true
      → is_supported ext' ≡ true
      → final_path c g ext ≡ final_path c h ext'
      → g ≡ h
  final_path_inj g h ext ext' e e' same =
      let (r, dot) = supported-dot ext e in
      let (r', dot') = supported-dot ext' e' in
      let tails : b'/' ∷ (hex g ++ ext) ≡ b'/' ∷ (hex h ++ ext') =
        append-cancel c.videos_storage _ _ same in
      hex_inj g h r r' (rw (sym dot, sym dot') (cc))

  pub final_path-ne-tmp_path :
      (h ext uuid ext' : Text) → is_supported ext ≡ true → final_path c h ext ≢ tmp_path c uuid ext'
  final_path-ne-tmp_path h ext uuid ext' e same =
      let (r, dot) = supported-dot ext e in
      let tails : b'/' ∷ (hex h ++ ext) ≡ b'/' ∷ b't' ∷ b'm' ∷ b'p' ∷ b'_' ∷ (uuid ++ ext') =
        append-cancel c.videos_storage _ _ same in
      hex-ne_tmp h r (uuid ++ ext') (rw (sym dot) (cc))
