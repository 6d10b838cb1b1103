-- ===== src/Video/Sentinel.antt =====
-- The sentinel row of an edge station: `get_or_create_edge_sentinel` of
-- src/services/video_service.py.
use portfolio_cv_project.Common.{
  same_text_refl, ℕ, leb, min, max, true, false, List, [], ◌∷◌, none, some, if◌then◌else◌, ◌≡◌,
  refl, sym, ap, ◌∙◌, ok, find, Bool-cases, arith, ==_refl, ◌⊎◌, inl, inr,
}
use mathlib.Core.Path.{subst}
use portfolio_cv_project.Clock.{DateTime, to_naive_utc}
use portfolio_cv_project.Video.{processing, Text, VideoFile}
use portfolio_cv_project.Video.Session.{
  Session, has_id, save, is_storable, has_hash, get_by_hash, create, update,
}
use portfolio_cv_project.Video.Service.{
  Disk, new_video, answer, unprocessable, stretched, edge_sentinel_uri, edge_sentinel_hash,
  extend_or_create, get_or_create_edge_sentinel,
}
use portfolio_cv_project.Video.Dedup.{find-none, find_last, stored, with_row}

extended : ℕ → ℕ → ℕ → VideoFile → Session → VideoFile
extended station_id started ended v s = record (stretched station_id started ended v) {
  updated_at = s.now;
}

extend_old :
    (i t u : ℕ) (fresh v : VideoFile) (s : Session)
    → find (has_hash fresh.content_hash) s.rows ≡ some v
    → is_storable v ≡ true
    → extend_or_create i t u fresh s ≡ (
      ok (answer (extended i t u v s, false)),
      record s { rows = save (extended i t u v s) s.rows },
    )
unfolding extend_or_create get_by_hash update extended
extend_old i t u fresh v s h k = rw (h, k)

create_first :
    (i t u : ℕ) (fresh : VideoFile) (s : Session)
    → find (has_hash fresh.content_hash) s.rows ≡ none
    → extend_or_create i t u fresh s ≡ (ok (answer (stored fresh s, true)), with_row fresh s)
unfolding extend_or_create get_by_hash create
create_first i t u fresh s h = rw (h, find-none (has_hash fresh.content_hash) s.rows h)

find-save_hash :
    (hash : Text) (v w : VideoFile) (rows : List VideoFile)
    → w.id ≡ v.id
    → has_hash hash w ≡ true
    → find (has_hash hash) rows ≡ some v
    → find (has_id v.id) rows ≡ some v
    → (find (has_hash hash) (save w rows) ≡ some w) × (find (has_id w.id) (save w rows) ≡ some w)
find-save_hash hash v w [] same good by_hash by_id = cc
find-save_hash hash v w (r ∷ rows) same good by_hash by_id =
    let rest = find-save_hash hash v w rows same good in (ground arith, ground arith)

-- One call of `get_or_create_edge_sentinel`, and the window that the calls so far have covered.
pub record Window : Type 0 where
  pub station_id : ℕ
  pub started : DateTime
  pub ended : DateTime

abbrev pub covered : ℕ × ℕ → Window → ℕ × ℕ
covered (t, u) w =
    if leb (to_naive_utc w.ended) (to_naive_utc w.started)
    then (t, u)
    else (min t (to_naive_utc w.started), max u (to_naive_utc w.ended))

abbrev pub all_covered : ℕ × ℕ → List Window → ℕ × ℕ
all_covered tu [] = tu
all_covered tu (w ∷ ws) = all_covered (covered tu w) ws

module _ (disk : Disk) (station_code : Text) where
  abbrev pub call : Window → Session → Session
  call w s = (get_or_create_edge_sentinel disk w.station_id station_code w.started w.ended s).1

  abbrev pub calls : List Window → Session → Session
  calls [] s = s
  calls (w ∷ ws) s = calls ws (call w s)

  -- The row that the station's hash finds, which its id finds too, has an id and a window.
  abbrev pub IsSentinel : ℕ → ℕ × ℕ → Session → Type 0
  IsSentinel k tu s =
      (v : VideoFile) × (find (has_hash (edge_sentinel_hash disk station_code)) s.rows ≡ some v)
      × (find (has_id v.id) s.rows ≡ some v)
      × (is_storable v ≡ true)
      × (has_hash (edge_sentinel_hash disk station_code) v ≡ true)
      × (v.id ≡ k)
      × (v.started_at ≡ tu.0)
      × (v.ended_at ≡ tu.1)

  abbrev pub fresh_row : Window → VideoFile
  fresh_row w =
      new_video (some w.station_id) (edge_sentinel_uri station_code)
        (edge_sentinel_hash disk station_code) (to_naive_utc w.started) (to_naive_utc w.ended)
        processing

  pub call_late :
      (w : Window) (s : Session)
      → leb (to_naive_utc w.ended) (to_naive_utc w.started) ≡ true
      → get_or_create_edge_sentinel disk w.station_id station_code w.started w.ended s
        ≡ (ok unprocessable, s)
  unfolding get_or_create_edge_sentinel
  call_late w s late = rw late

  call_valid :
      (w : Window) (s : Session)
      → leb (to_naive_utc w.ended) (to_naive_utc w.started) ≡ false
      → get_or_create_edge_sentinel disk w.station_id station_code w.started w.ended s
        ≡ extend_or_create w.station_id
            (to_naive_utc w.started)
            (to_naive_utc w.ended)
            (fresh_row w)
            s
  unfolding get_or_create_edge_sentinel
  call_valid w s valid = rw valid

  pub call_extends :
      (k : ℕ) (tu : ℕ × ℕ) (w : Window) (s : Session)
      → IsSentinel k tu s
      → IsSentinel k (covered tu w) (call w s)
  unfolding extended
  call_extends k (t, u) w s (v, by_hash, by_id, storable, good, id, began, stopped) =
      go (Bool-cases (leb (to_naive_utc w.ended) (to_naive_utc w.started)))
    where
      t' : ℕ
      t' = to_naive_utc w.started

      u' : ℕ
      u' = to_naive_utc w.ended

      hash : Text
      hash = edge_sentinel_hash disk station_code

      next : VideoFile
      next = extended w.station_id t' u' v s

      go :
          (leb (to_naive_utc w.ended) (to_naive_utc w.started) ≡ true)
            ⊎ (leb (to_naive_utc w.ended) (to_naive_utc w.started) ≡ false)
          → IsSentinel k (covered (t, u) w) (call w s)
      go (inl late) =
          subst (IsSentinel k (covered (t, u) w)) (sym (ap (λ r. r.1) (call_late w s late)))
            (v, by_hash, by_id, storable, good, id, rw late began, rw late stopped)
      go (inr valid) =
          let (hashed, held) = find-save_hash hash v next s.rows refl good by_hash by_id in
          let ran =
            call_valid w s valid
            ∙ extend_old w.station_id t' u' (fresh_row w) v s by_hash storable in
          subst (IsSentinel k (covered (t, u) w)) (sym (ap (λ r. r.1) ran)) (
            next,
            hashed,
            held,
            storable,
            good,
            id,
            rw valid (ap (λ n. min n t') began),
            rw valid (ap (λ n. max n u') stopped),
          )

  -- What a call with a valid window answers: the sentinel, by its id.
  pub call_answers :
      (k : ℕ) (tu : ℕ × ℕ) (w : Window) (s : Session)
      → IsSentinel k tu s
      → leb (to_naive_utc w.ended) (to_naive_utc w.started) ≡ false
      → (v : VideoFile) × ((get_or_create_edge_sentinel disk w.station_id station_code w.started
            w.ended s).0
          ≡ ok (answer (v, false)))
        × (v.id ≡ k)
  unfolding extended
  call_answers k tu w s (v, by_hash, by_id, storable, good, id, began, stopped) valid = (
    extended w.station_id (to_naive_utc w.started) (to_naive_utc w.ended) v s,
    ap (λ r. r.0)
        (call_valid w s valid
          ∙ extend_old w.station_id (to_naive_utc w.started) (to_naive_utc w.ended) (fresh_row w) v
              s by_hash storable),
    id,
  )

  pub call_answers_first :
      (w : Window) (s : Session)
      → leb (to_naive_utc w.ended) (to_naive_utc w.started) ≡ false
      → find (has_hash (edge_sentinel_hash disk station_code)) s.rows ≡ none
      → (v : VideoFile) × ((get_or_create_edge_sentinel disk w.station_id station_code w.started
            w.ended s).0
          ≡ ok (answer (v, true)))
        × (v.id ≡ s.next_id)
  call_answers_first w s valid absent = (
    stored (fresh_row w) s,
    ap (λ r. r.0)
        (call_valid w s valid
          ∙ create_first w.station_id (to_naive_utc w.started) (to_naive_utc w.ended) (fresh_row w)
              s absent),
    refl,
  )

  calls_extend :
      (k : ℕ) (tu : ℕ × ℕ) (ws : List Window) (s : Session)
      → IsSentinel k tu s
      → IsSentinel k (all_covered tu ws) (calls ws s)
  calls_extend k tu [] s h = h
  calls_extend k tu (w ∷ ws) s h =
      calls_extend k (covered tu w) ws (call w s) (call_extends k tu w s h)

  pub call_creates :
      (w : Window) (s : Session)
      → leb (to_naive_utc w.ended) (to_naive_utc w.started) ≡ false
      → find (has_hash (edge_sentinel_hash disk station_code)) s.rows ≡ none
      → find (has_id s.next_id) s.rows ≡ none
      → IsSentinel s.next_id (to_naive_utc w.started, to_naive_utc w.ended) (call w s)
  call_creates w s valid absent fresh_id =
      let t' = to_naive_utc w.started in
      let u' = to_naive_utc w.ended in
      let hash = edge_sentinel_hash disk station_code in
      let row = stored (fresh_row w) s in
      subst (IsSentinel s.next_id (t', u'))
        (sym (
          ap (λ r. r.1)
            (call_valid w s valid ∙ create_first w.station_id t' u' (fresh_row w) s absent)))
        (
          row,
          find_last (has_hash hash) s.rows row absent (same_text_refl hash),
          find_last (has_id s.next_id) s.rows row fresh_id (==_refl s.next_id),
          refl,
          same_text_refl hash,
          refl,
          refl,
          refl,
        )

  -- From a table without the station's sentinel, whose next id is unused: after a call with a valid
  -- window, and any further calls in any order, the station's hash finds one and the same row, with
  -- the id of the first call, and its window is the hull of the valid windows: the calls with an
  -- empty or reversed window leave it alone.
  pub calls-IsSentinel :
      (w : Window) (ws : List Window) (s : Session)
      → leb (to_naive_utc w.ended) (to_naive_utc w.started) ≡ false
      → find (has_hash (edge_sentinel_hash disk station_code)) s.rows ≡ none
      → find (has_id s.next_id) s.rows ≡ none
      → IsSentinel s.next_id
          (all_covered (to_naive_utc w.started, to_naive_utc w.ended) ws)
          (calls (w ∷ ws) s)
  calls-IsSentinel w ws s valid absent fresh_id =
      calls_extend s.next_id (to_naive_utc w.started, to_naive_utc w.ended) ws (call w s)
        (call_creates w s valid absent fresh_id)
