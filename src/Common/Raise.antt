-- ===== src/Common/Raise.antt =====
-- What Python code returns, or the exception that it raises.
use mathlib.Core.Path.{◌≡◌, refl}

pub data Error : Type 0 where
  type_error key_error attribute_error value_error runtime_error integrity_error : Error
  video_process_error aruco_decode_error os_error instance_gone : Error
  http_error : Error

pub data Result {ℓ} (A : Type ℓ) : Type ℓ where
  ok : A → Result A
  raise : Error → Result A

infixl 5 ◌>>=◌
abbrev pub ◌>>=◌ {ℓ κ} : {A : Type ℓ} {B : Type κ} → Result A → (A → Result B) → Result B
(ok x) >>= k = k x
(raise error) >>= k = raise error

-- A chain returned only if its first call did, and the rest did on what that returned.
pub >>=-ok {ℓ κ} :
    {A : Type ℓ} {B : Type κ} {y : B} (first : Result A) (rest : A → Result B)
    → (first >>= rest) ≡ ok y
    → (x : A) × (first ≡ ok x) × (rest x ≡ ok y)
>>=-ok (raise error) rest e = cc
>>=-ok (ok x) rest e = (x, refl, e)
