-- ===== src/Visit/Board/History.antt =====
-- The history of closed visits, `get_history` of src/services/visit_service.py.
use portfolio_cv_project.Common.{
  if◌then◌else◌, ℕ, zero, suc, ◌+◌, ◌*◌, ◌≤◌, Bool, true, false, ◌&&◌, List, [], ◌∷◌, ◌++◌, Option,
  none, some, keep, take, drop, tally, length, All, ◌≡◌, refl, ap, ◌∙◌, arith, Bool-cases, inl, inr,
  pages, pages_whole,
}
use portfolio_cv_project.Clock.{DateTime}
use portfolio_cv_project.Visit.{Visit}
use portfolio_cv_project.Visit.Board.{
  in_history, is_newer, comes_before, place, newest_first, get_history,
}

-- Each visit arrived no earlier than those after it.
abbrev pub IsNewestFirst : List Visit → Type 0
IsNewestFirst [] = Unit
IsNewestFirst (v ∷ vs) = All (λ u. is_newer v.arrived_at u.arrived_at ≡ true) vs × IsNewestFirst vs

newer_total : (a b : Option DateTime) → is_newer a b ≡ false → is_newer b a ≡ true
newer_total none b h = cc
newer_total (some a) none h = refl
newer_total (some a) (some b) h = ground arith

newer_trans :
    (a b c : Option DateTime) → is_newer a b ≡ true → is_newer b c ≡ true → is_newer a c ≡ true
newer_trans none b c h k = refl
newer_trans (some a) none c h k = cc
newer_trans (some a) (some b) none h k = k
newer_trans (some a) (some b) (some c) h k = ground arith

All-newer :
    (a b : Option DateTime) (vs : List Visit)
    → is_newer a b ≡ true
    → All (λ u. is_newer b u.arrived_at ≡ true) vs
    → All (λ u. is_newer a u.arrived_at ≡ true) vs
All-newer a b [] h all = tt
All-newer a b (v ∷ vs) h all = (newer_trans a b v.arrived_at h all.0, All-newer a b vs h all.1)

comes_before_else :
    (rank : ℕ → ℕ) (v u : Visit)
    → comes_before rank v u ≡ false
    → is_newer u.arrived_at v.arrived_at ≡ true
comes_before_else rank v u h = elim (Bool-cases (is_newer v.arrived_at u.arrived_at)) [
  | inl e ↦ ground (arith, e, h)
  | inr e ↦ newer_total v.arrived_at u.arrived_at e
]

All-place :
    (rank : ℕ → ℕ) (P : Visit → Type 0) (v : Visit) (vs : List Visit)
    → P v
    → All P vs
    → All P (place rank v vs)
All-place rank P v [] h all = (h, tt)
All-place rank P v (u ∷ us) h all = go (comes_before rank v u) (All-place rank P v us h all.1)
  where
    go :
        (b : Bool)
        → All P (place rank v us)
        → All P (if b then v ∷ (u ∷ us) else u ∷ place rank v us)
    go true rest = (h, all)
    go false rest = (all.0, rest)

All-newest_first :
    (rank : ℕ → ℕ) (P : Visit → Type 0) (vs : List Visit) → All P vs → All P (newest_first rank vs)
All-newest_first rank P [] all = tt
All-newest_first rank P (v ∷ vs) all =
    All-place rank P v (newest_first rank vs) all.0 (All-newest_first rank P vs all.1)

place-IsNewestFirst :
    (rank : ℕ → ℕ) (v : Visit) (vs : List Visit)
    → IsNewestFirst vs
    → IsNewestFirst (place rank v vs)
place-IsNewestFirst rank v [] h = (tt, tt)
place-IsNewestFirst rank v (u ∷ us) h = elim (Bool-cases (comes_before rank v u)) [
  | inl e ↦
      let newer : is_newer v.arrived_at u.arrived_at ≡ true = ground (arith, e) in
      rw e ((newer, All-newer v.arrived_at u.arrived_at us newer h.0), h)
  | inr e ↦ rw e (
    All-place rank (λ x. is_newer u.arrived_at x.arrived_at ≡ true) v us
        (comes_before_else rank v u e) h.0,
    place-IsNewestFirst rank v us h.1,
  )
]

newest_first-IsNewestFirst : (rank : ℕ → ℕ) (vs : List Visit) → IsNewestFirst (newest_first rank vs)
newest_first-IsNewestFirst rank [] = tt
newest_first-IsNewestFirst rank (v ∷ vs) =
    place-IsNewestFirst rank v (newest_first rank vs) (newest_first-IsNewestFirst rank vs)

-- The two did not arrive at one time.
abbrev pub IsUntied : Visit → Visit → Type 0
IsUntied v u = is_newer v.arrived_at u.arrived_at && is_newer u.arrived_at v.arrived_at ≡ false

abbrev pub AreUntied : List Visit → Type 0
AreUntied [] = Unit
AreUntied (v ∷ vs) = All (IsUntied v) vs × AreUntied vs

place_same :
    (rank choice : ℕ → ℕ) (v : Visit) (vs : List Visit)
    → All (IsUntied v) vs
    → place rank v vs ≡ place choice v vs
place_same rank choice v [] all = refl
place_same rank choice v (u ∷ us) all =
    let same : comes_before rank v u ≡ comes_before choice v u = ground (arith, all.0) in
    rw (same, place_same rank choice v us all.1) refl

-- Without ties the order is not the database's choice.
newest_first_same :
    (rank choice : ℕ → ℕ) (vs : List Visit)
    → AreUntied vs
    → newest_first rank vs ≡ newest_first choice vs
newest_first_same rank choice [] h = refl
newest_first_same rank choice (v ∷ vs) h =
    ap (place rank v) (newest_first_same rank choice vs h.1)
    ∙ place_same rank choice v (newest_first choice vs)
        (All-newest_first choice (IsUntied v) vs h.0)

tally-place :
    (rank : ℕ → ℕ) (p : Visit → Bool) (v : Visit) (vs : List Visit)
    → tally p (place rank v vs) ≡ tally p (v ∷ vs)
tally-place rank p v [] = refl
tally-place rank p v (u ∷ us) = ground (arith, tally-place rank p v us)

tally-newest_first :
    (rank : ℕ → ℕ) (p : Visit → Bool) (vs : List Visit)
    → tally p (newest_first rank vs) ≡ tally p vs
tally-newest_first rank p [] = refl
tally-newest_first rank p (v ∷ vs) =
    tally-place rank p v (newest_first rank vs) ∙ ground (arith, tally-newest_first rank p vs)

tally-keep :
    (p q : Visit → Bool) (vs : List Visit) → tally p (keep q vs) ≡ tally (λ v. q v && p v) vs
tally-keep p q [] = refl
tally-keep p q (v ∷ vs) = ground (arith, tally-keep p q vs)

length-place :
    (rank : ℕ → ℕ) (v : Visit) (vs : List Visit) → length (place rank v vs) ≡ suc (length vs)
length-place rank v [] = refl
length-place rank v (u ∷ us) = ground (arith, length-place rank v us)

length-newest_first : (rank : ℕ → ℕ) (vs : List Visit) → length (newest_first rank vs) ≡ length vs
length-newest_first rank [] = refl
length-newest_first rank (v ∷ vs) =
    length-place rank v (newest_first rank vs) ∙ ap suc (length-newest_first rank vs)

length-keep : (p : Visit → Bool) (vs : List Visit) → length (keep p vs) ≤ length vs
length-keep p [] = omega arith
length-keep p (v ∷ vs) = ground (arith, length-keep p vs)

-- The answers for the offsets 0, `limit`, 2 `limit`, …, one after the other; for every page the
-- database orders anew.
unfoldable pub get_pages : (ℕ → ℕ → ℕ) → Option ℕ → Option ℕ → ℕ → ℕ → ℕ → List Visit → List Visit
get_pages ranks tractor_id station_id limit page zero rows = []
get_pages ranks tractor_id station_id limit page (suc n) rows =
    get_history (ranks page) tractor_id station_id limit (page * limit) rows
    ++ get_pages ranks tractor_id station_id limit (page + 1) n rows

get_pages-pages :
    (ranks : ℕ → ℕ → ℕ) (tractor_id station_id : Option ℕ) (limit page n : ℕ) (rows : List Visit)
    → AreUntied (keep (in_history tractor_id station_id) rows)
    → get_pages ranks tractor_id station_id limit page n rows
      ≡ pages limit page n (newest_first (ranks 0) (keep (in_history tractor_id station_id) rows))
unfolding get_pages get_history
get_pages-pages ranks tractor_id station_id limit page zero rows untied = refl
get_pages-pages ranks tractor_id station_id limit page (suc n) rows untied =
    let history = keep (in_history tractor_id station_id) rows in
    ap
      (λ vs.
        take limit (drop (page * limit) vs)
        ++ get_pages ranks tractor_id station_id limit (page + 1) n rows)
      (newest_first_same (ranks page) (ranks 0) history untied)
    ∙ ap (λ vs. take limit (drop (page * limit) (newest_first (ranks 0) history)) ++ vs)
        (get_pages-pages ranks tractor_id station_id limit (page + 1) n rows untied)

-- If no two visits of the history arrived at one time: read page after page until the pages hold as
-- many rows as the table, in whatever order the database gives ties to each page, the history is in
-- the order of arrival, newest first, and has by every test as many visits as the closed ones of the
-- table that pass the filters: each of those once, and no other.
pub get_history-pages :
    (ranks : ℕ → ℕ → ℕ) (tractor_id station_id : Option ℕ) (limit n : ℕ) (rows : List Visit)
    (p : Visit → Bool)
    → AreUntied (keep (in_history tractor_id station_id) rows)
    → length rows ≤ n * limit
    → IsNewestFirst (get_pages ranks tractor_id station_id limit 0 n rows)
      × (tally p (get_pages ranks tractor_id station_id limit 0 n rows)
          ≡ tally (λ v. in_history tractor_id station_id v && p v) rows)
get_history-pages ranks tractor_id station_id limit n rows p untied enough =
    let test = in_history tractor_id station_id in
    let sorted = newest_first (ranks 0) (keep test rows) in
    let long : length sorted ≤ (0 + n) * limit =
      rw (length-newest_first (ranks 0) (keep test rows)) (grind (arith, length-keep test rows)) in
    let first : 0 * limit ≡ 0 = grind arith in
    let start : drop (0 * limit) sorted ≡ sorted = ap (λ k. drop k sorted) first in
    rw
      (
        get_pages-pages ranks tractor_id station_id limit 0 n rows untied,
        pages_whole limit 0 n sorted long,
        start,
      )
      (
        newest_first-IsNewestFirst (ranks 0) (keep test rows),
        tally-newest_first (ranks 0) p (keep test rows) ∙ tally-keep p test rows,
      )
