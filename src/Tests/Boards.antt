-- ===== src/Tests/Boards.antt =====
-- What the status endpoints answer about the farm of the visits' tests.
use portfolio_cv_project.Common.{
  refl, ℕ, if◌then◌else◌, ◌-◌, map, ◌≡◌, ◌==◌, ◌&&◌, List, [], ◌∷◌, none, some, arith, find, tally,
}
use portfolio_cv_project.Clock.{naive}
use portfolio_cv_project.Visit.{Visit, closed}
use portfolio_cv_project.Visit.Board.{get_current_stations, get_history, in_history}
use portfolio_cv_project.Visit.Board.Entries.{board, get_current_stations-lookup}
use portfolio_cv_project.Visit.Board.History.{IsNewestFirst, get_pages, get_history-pages}
use portfolio_cv_project.Tests.Visits.{here}
use portfolio_cv_project.Tests.Farms.{stations, stations-IsSound, tractors}

get_current_stations-lookup_example :
    find
      (λ e. e.station_id == 1)
      (get_current_stations (naive 0) stations.rows (here ∷ []) tractors.rows)
    ≡ board (naive 0) tractors.rows (here ∷ []) (find (λ s. s.is_active && s.id == 1) stations.rows)
get_current_stations-lookup_example =
    get_current_stations-lookup (naive 0) stations (here ∷ []) tractors.rows 1 stations-IsSound

abbrev past : List Visit
past =
    record here { state = closed; departed_at = some (naive 9) }
    ∷ record here { id = 2; state = closed; arrived_at = some (naive 5000000) }
    ∷ here
    ∷ []

-- Two visits of one time on two pages: by an order for the first page and the other for the second,
-- the first visit is given twice and the second one never.
abbrev tied : List Visit
tied =
    record here { state = closed; departed_at = some (naive 9) }
    ∷ record here { id = 2; state = closed; departed_at = some (naive 9) }
    ∷ []

abbrev flipped : ℕ → ℕ → ℕ
flipped page i = if page == 0 then i else 2 - i

one_given_twice : map (λ v. v.id) (get_pages flipped none none 1 0 2 tied) ≡ 1 ∷ 1 ∷ []
unfolding get_pages get_history
one_given_twice = refl

get_history-pages_example :
    IsNewestFirst (get_pages flipped none (some 1) 2 0 2 past)
    × (tally (λ v. v.id == 2) (get_pages flipped none (some 1) 2 0 2 past)
        ≡ tally (λ v. in_history none (some 1) v && v.id == 2) past)
get_history-pages_example =
    get_history-pages flipped none (some 1) 2 2 past (λ v. v.id == 2) ((refl, tt), (tt, tt))
      (omega arith)
