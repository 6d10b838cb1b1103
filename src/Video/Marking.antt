-- ===== src/Video/Marking.antt =====
-- Rows of the table that are marked one after the other (`mark_failed` in the loops of
-- src/services/scheduler.py): what the table holds after it.
use portfolio_cv_project.Common.{
  ℕ, ◌==◌, ==_refl, Bool, true, false, ◌&&◌, ◌||◌, List, [], ◌∷◌, ◌++◌, map, some, if◌then◌else◌,
  find, keep, any, All, ok, ◌≡◌, refl, sym, ap, ◌∙◌, arith,
}
use mathlib.Core.List.{append_assoc}
use portfolio_cv_project.Video.{failed, stuck, VideoFile}
use portfolio_cv_project.Video.Session.{Session, has_id, save, is_storable}
use portfolio_cv_project.Video.Service.{update_status}
use portfolio_cv_project.Video.Retry.{Holds, written, update_row}
use portfolio_cv_project.Video.Scheduler.{mark_each}

-- The row that the marking leaves.
abbrev pub marked : ℕ → VideoFile → VideoFile
marked now v = record v { status = failed; error_message = some (stuck v.status); updated_at = now }

abbrev pub saves : ℕ → List VideoFile → List VideoFile → List VideoFile
saves now [] rows = rows
saves now (v ∷ vs) rows = saves now vs (save (marked now v) rows)

-- No two rows share an id.
abbrev pub IsDistinct : List VideoFile → Type 0
IsDistinct [] = Unit
IsDistinct (v ∷ vs) = (any (has_id v.id) vs ≡ false) × IsDistinct vs

abbrev pub IsStorable : VideoFile → Type 0
IsStorable v = is_storable v ≡ true

update_marked :
    (v : VideoFile) (s : Session)
    → Holds v s.rows
    → IsStorable v
    → update_status v.id failed (some (stuck v.status)) s
      ≡ (ok (marked s.now v), written (marked s.now v) s)
unfolding update_status
update_marked v s row k =
    update_row (λ v'. record v' { status = failed; error_message = some (stuck v.status) }) v s row
      k

find-save_other :
    (v : VideoFile) (i : ℕ) (rows : List VideoFile)
    → i == v.id ≡ false
    → find (has_id i) (save v rows) ≡ find (has_id i) rows
find-save_other v i [] h = refl
find-save_other v i (r ∷ rows) h = ground (arith, find-save_other v i rows h)

-- Rows that are there with their counts, under ids of their own.
abbrev pub AreThere : List VideoFile → List VideoFile → Type 0
AreThere rows = All (λ v. Holds v rows × IsStorable v)

AreThere-save :
    (v : VideoFile) (rows vs : List VideoFile)
    → any (has_id v.id) vs ≡ false
    → AreThere rows vs
    → AreThere (save v rows) vs
AreThere-save v rows [] h all = tt
AreThere-save v rows (u ∷ vs) h all = (
  (find-save_other v u.id rows (ground arith) ∙ all.0.0, all.0.1),
  AreThere-save v rows vs (ground arith) all.1,
)

pub mark_each-saves :
    (vs : List VideoFile) (s : Session)
    → AreThere s.rows vs
    → IsDistinct vs
    → mark_each vs s ≡ (ok tt, record s { rows = saves s.now vs s.rows })
unfolding mark_each
mark_each-saves [] s all h = refl
mark_each-saves (v ∷ vs) s all h = rw (update_marked v s all.0.0 all.0.1) (
    mark_each-saves vs (written (marked s.now v) s)
      (AreThere-save (marked s.now v) s.rows vs h.0 all.1) h.1)

pub saves-append :
    (now : ℕ) (vs us rows : List VideoFile)
    → saves now (vs ++ us) rows ≡ saves now us (saves now vs rows)
saves-append now [] us rows = refl
saves-append now (v ∷ vs) us rows = saves-append now vs us (save (marked now v) rows)

save_middle :
    (v u : VideoFile) (done rest : List VideoFile)
    → any (has_id v.id) done ≡ false
    → u.id ≡ v.id
    → save v (done ++ (u ∷ rest)) ≡ done ++ (v ∷ rest)
save_middle v u [] rest h e = ground arith
save_middle v u (d ∷ done) rest h e = ground (arith, save_middle v u done rest)

any-append :
    (p : VideoFile → Bool) (xs ys : List VideoFile) → any p (xs ++ ys) ≡ any p xs || any p ys
any-append p [] ys = refl
any-append p (x ∷ xs) ys = ground (arith, any-append p xs ys)

any-keep :
    (q p : VideoFile → Bool) (vs : List VideoFile) → any q vs ≡ false → any q (keep p vs) ≡ false
any-keep q p [] h = refl
any-keep q p (v ∷ vs) h = ground (arith, any-keep q p vs)

Distinct-middle :
    (v : VideoFile) (xs ys : List VideoFile)
    → any (has_id v.id) (xs ++ ys) ≡ false
    → IsDistinct (xs ++ ys)
    → IsDistinct (xs ++ (v ∷ ys))
Distinct-middle v [] ys h d = (h, d)
Distinct-middle v (x ∷ xs) ys h d = (
  any-append (has_id x.id) xs (v ∷ ys) ∙ ground (arith, any-append (has_id x.id) xs ys, d.0),
  Distinct-middle v xs ys (ground arith) d.1,
)

module _ (p q : VideoFile → Bool) (apart : (v : VideoFile) → p v && q v ≡ false) where
  none_left :
      (r : VideoFile → Bool) (vs : List VideoFile)
      → any r vs ≡ false
      → any r (keep p vs ++ keep q vs) ≡ false
  none_left r vs h =
      any-append r (keep p vs) (keep q vs) ∙ ground (arith, any-keep r p vs h, any-keep r q vs h)

  pub Distinct-two : (vs : List VideoFile) → IsDistinct vs → IsDistinct (keep p vs ++ keep q vs)
  Distinct-two [] d = tt
  Distinct-two (v ∷ vs) d = go (p v) (q v) (apart v) (Distinct-two vs d.1)
    where
      go :
          (a b : Bool)
          → a && b ≡ false
          → IsDistinct (keep p vs ++ keep q vs)
          → IsDistinct
              ((if a then v ∷ keep p vs else keep p vs) ++ (if b then v ∷ keep q vs else keep q vs))
      go true true e rest = cc
      go true false e rest = (none_left (has_id v.id) vs d.0, rest)
      go false true e rest =
          Distinct-middle v (keep p vs) (keep q vs) (none_left (has_id v.id) vs d.0) rest
      go false false e rest = rest

there_cons :
    (v : VideoFile) (vs us : List VideoFile)
    → any (has_id v.id) us ≡ false
    → AreThere vs us
    → AreThere (v ∷ vs) us
there_cons v vs [] h all = tt
there_cons v vs (u ∷ us) h all = ((ground arith, all.0.1), there_cons v vs us (ground arith) all.1)

pub AreThere-keep :
    (p : VideoFile → Bool) (vs : List VideoFile)
    → IsDistinct vs
    → All IsStorable vs
    → AreThere vs (keep p vs)
AreThere-keep p [] d all = tt
AreThere-keep p (v ∷ vs) d all =
    go (p v)
      (there_cons v vs (keep p vs) (any-keep (has_id v.id) p vs d.0) (AreThere-keep p vs d.1 all.1))
  where
    first : find (has_id v.id) (v ∷ vs) ≡ some v
    first = ground (arith, ==_refl v.id)

    go :
        (b : Bool)
        → AreThere (v ∷ vs) (keep p vs)
        → AreThere (v ∷ vs) (if b then v ∷ keep p vs else keep p vs)
    go true rest = ((first, all.0), rest)
    go false rest = rest

pub AreThere-append :
    (rows us vs : List VideoFile) → AreThere rows us → AreThere rows vs → AreThere rows (us ++ vs)
AreThere-append rows [] vs h k = k
AreThere-append rows (u ∷ us) vs h k = (h.0, AreThere-append rows us vs h.1 k)

-- One pass over rows that an earlier pass changed by `g`.
module _ (now : ℕ) (p : VideoFile → Bool) (g : VideoFile → VideoFile)
    (same : (v : VideoFile) → (g v).id ≡ v.id) where
  abbrev mark_where : VideoFile → VideoFile
  mark_where v = if p v then marked now v else g v

  abbrev IsNew : List VideoFile → List VideoFile → Type 0
  IsNew done rest = All (λ v. any (has_id v.id) done ≡ false) rest

  IsNew-last :
      (done : List VideoFile) (x v : VideoFile) (rest : List VideoFile)
      → x.id ≡ v.id
      → any (has_id v.id) rest ≡ false
      → IsNew done rest
      → IsNew (done ++ (x ∷ [])) rest
  IsNew-last done x v [] e h all = tt
  IsNew-last done x v (u ∷ rest) e h all = (
    any-append (has_id u.id) done (x ∷ []) ∙ ground (arith, all.0),
    IsNew-last done x v rest e (ground arith) all.1,
  )

  pub saves_pass :
      (done rest : List VideoFile)
      → IsNew done rest
      → IsDistinct rest
      → saves now (keep p rest) (done ++ map g rest) ≡ done ++ map mark_where rest
  saves_pass done [] new d = refl
  saves_pass done (v ∷ rest) new d =
      go (p v)
        (λ x e. saves_pass (done ++ (x ∷ [])) rest (IsNew-last done x v rest e d.0 new.1) d.1)
    where
      go :
          (b : Bool)
          → ((x : VideoFile)
              → x.id ≡ v.id
              → saves now (keep p rest) ((done ++ (x ∷ [])) ++ map g rest)
                ≡ (done ++ (x ∷ [])) ++ map mark_where rest)
          → saves now (if b then v ∷ keep p rest else keep p rest) (done ++ (g v ∷ map g rest))
            ≡ done ++ ((if b then marked now v else g v) ∷ map mark_where rest)
      go true ih =
          ap (saves now (keep p rest)) (
            save_middle (marked now v) (g v) done (map g rest) new.0 (same v)
            ∙ sym (append_assoc done (marked now v ∷ []) (map g rest)))
          ∙ (ih (marked now v) refl ∙ append_assoc done (marked now v ∷ []) (map mark_where rest))
      go false ih =
          ap (saves now (keep p rest)) (sym (append_assoc done (g v ∷ []) (map g rest)))
          ∙ (ih (g v) (same v) ∙ append_assoc done (g v ∷ []) (map mark_where rest))
