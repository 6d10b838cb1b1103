-- ===== src/Router/Crud.antt =====
-- `crud_router` of src/router/factory.py, for the table of any model. Which endpoints a router has is
-- an argument, as is what a partial update makes of a row.
use portfolio_cv_project.Common.{
  ℕ, ◌<◌, Bool, true, false, List, [], ◌∷◌, Option, none, some, if◌then◌else◌, ◌≡◌, refl, arith,
  All,
}
use portfolio_cv_project.Event.Ingest.{Reply, replied, http}
use portfolio_cv_project.Farm.Table.{
  Model, Table, Flushed, stored, refused, get, get_filtered, create, update, delete,
}
use portfolio_cv_project.Farm.Sound.{
  IsSound, table_of, create-IsSound, update-IsSound, delete-IsSound, get-below,
}

pub record Includes : Type 0 where
  pub include_create : Bool
  pub include_update : Bool
  pub include_delete : Bool

-- A refused flush raises an IntegrityError, which no endpoint handles.
abbrev pub flushed : {A : Type 0} → Flushed A → Reply A × Table A
flushed (stored a t) = (replied a, t)
flushed (refused t) = (http 500, t)

module _ {A : Type 0} (m : Model A) where
  unfoldable pub list_items : ℕ → ℕ → Table A → List A
  unfolding get_filtered
  list_items limit offset t = get_filtered m [] limit offset false t

  unfoldable pub list_items_filtered : List (Option (A → Bool)) → ℕ → ℕ → Bool → Table A → List A
  unfolding get_filtered
  list_items_filtered filters limit offset reverse t = get_filtered m filters limit offset reverse t

  abbrev pub found_or_404 : Option A → Reply A
  found_or_404 none = http 404
  found_or_404 (some a) = replied a

  unfoldable pub get_item : ℕ → Table A → Reply A
  get_item item_id t = found_or_404 (get m item_id t)

  unfoldable pub create_item : A → Table A → Reply A × Table A
  create_item payload t = flushed (create m payload t)

  -- `change` is None where it puts NULL into a column that is NOT NULL.
  abbrev pub changed_item : (A → Option A) → Option A → Table A → Reply A × Table A
  changed_item change none t = (http 404, t)
  changed_item change (some a) t = elim (change a) [
    | none ↦ (http 500, t)
    | some a' ↦ flushed (update m a' t)
  ]

  unfoldable pub update_item : ℕ → (A → Option A) → Table A → Reply A × Table A
  update_item item_id change t = changed_item change (get m item_id t) t

  -- `is_referenced` tells which rows other tables refer to.
  abbrev pub deleted_item : Bool → ℕ → Option A → Table A → Reply (Unit {0}) × Table A
  deleted_item is_referenced item_id none t = (http 404, t)
  deleted_item true item_id (some a) t = (http 500, t)
  deleted_item false item_id (some a) t = (replied tt, delete m item_id t)

  unfoldable pub delete_item : (ℕ → Bool) → ℕ → Table A → Reply (Unit {0}) × Table A
  delete_item is_referenced item_id t =
      deleted_item (is_referenced item_id) item_id (get m item_id t) t

-- The requests that write.
pub data CrudRequest (A : Type 0) : Type 0 where
  posts : A → CrudRequest A
  patches : ℕ → (A → Option A) → CrudRequest A
  deletes : ℕ → (ℕ → Bool) → CrudRequest A

module _ {A : Type 0} (m : Model A) (includes : Includes) where
  -- A router without the endpoint leaves the table.
  abbrev pub crud_router : CrudRequest A → Table A → Table A
  crud_router (posts a) t = if includes.include_create then (create_item m a t).1 else t
  crud_router (patches i change) t =
      if includes.include_update then (update_item m i change t).1 else t
  crud_router (deletes i is_referenced) t =
      if includes.include_delete then (delete_item m is_referenced i t).1 else t

  unfoldable pub serve_crud : List (CrudRequest A) → Table A → Table A
  serve_crud [] t = t
  serve_crud (r ∷ rs) t = serve_crud rs (crud_router r t)

-- A partial update leaves the key.
abbrev pub KeepsKey : {A : Type 0} → Model A → CrudRequest A → Type 0
KeepsKey m (posts a) = Unit
KeepsKey {A} m (patches i change) = (a a' : A) → change a ≡ some a' → m.key a' ≡ m.key a
KeepsKey m (deletes i is_referenced) = Unit

flushed-table : {A : Type 0} (f : Flushed A) → (flushed f).1 ≡ table_of f
flushed-table (stored a t) = refl
flushed-table (refused t) = refl

module _ {A : Type 0} (m : Model A) (clash_sym : (a b : A) → m.clashes a b ≡ m.clashes b a)
    (keyed : (n : ℕ) (a : A) → m.key (m.with_key n a) ≡ n) where
  create_item-IsSound : (a : A) (t : Table A) → IsSound m t → IsSound m (create_item m a t).1
  unfolding create_item
  create_item-IsSound a t h =
      rw (flushed-table (create m a t)) (create-IsSound m clash_sym a t (keyed t.next_id a) h)

  update_item-IsSound :
      (i : ℕ) (change : A → Option A) (t : Table A)
      → ((a a' : A) → change a ≡ some a' → m.key a' ≡ m.key a)
      → IsSound m t
      → IsSound m (update_item m i change t).1
  unfolding update_item
  update_item-IsSound i change t same h = go (get m i t) refl
    where
      write :
          (a : A) (o : Option A)
          → get m i t ≡ some a
          → change a ≡ o
          → IsSound m
              (elim o as (λ _. Reply A × Table A) [
                | none ↦ (http 500, t)
                | some a' ↦ flushed (update m a' t)
              ]).1
      write a none found e = h
      write a (some a') found e =
          let bound : m.key a' < t.next_id =
            ground (arith, same a a' e, get-below m i t a found h.below) in
          rw (flushed-table (update m a' t)) (update-IsSound m clash_sym a' t bound h)

      go : (o : Option A) → get m i t ≡ o → IsSound m (changed_item m change o t).1
      go none found = h
      go (some a) found = write a (change a) found refl

  delete_item-IsSound :
      (i : ℕ) (is_referenced : ℕ → Bool) (t : Table A)
      → IsSound m t
      → IsSound m (delete_item m is_referenced i t).1
  unfolding delete_item
  delete_item-IsSound i is_referenced t h = go (is_referenced i) (get m i t)
    where
      go : (b : Bool) (o : Option A) → IsSound m (deleted_item m b i o t).1
      go b none = h
      go true (some a) = h
      go false (some a) = delete-IsSound m clash_sym i t h

  chosen : (b : Bool) (t u : Table A) → IsSound m t → IsSound m u → IsSound m (if b then u else t)
  chosen true t u h k = k
  chosen false t u h k = h

  -- A router over any model whose clashes are symmetric keeps its table sound, with any of its
  -- endpoints left out and whatever is requested: no two rows share a key or a unique column, if
  -- partial updates leave the key.
  pub serve_crud-IsSound :
      (includes : Includes) (rs : List (CrudRequest A)) (t : Table A)
      → All (KeepsKey m) rs
      → IsSound m t
      → IsSound m (serve_crud m includes rs t)
  unfolding serve_crud
  serve_crud-IsSound includes [] t keeps h = h
  serve_crud-IsSound includes (posts a ∷ rs) t keeps h =
      serve_crud-IsSound includes rs (crud_router m includes (posts a) t) keeps.1
        (chosen includes.include_create t (create_item m a t).1 h (create_item-IsSound a t h))
  serve_crud-IsSound includes (patches i change ∷ rs) t keeps h =
      serve_crud-IsSound includes rs (crud_router m includes (patches i change) t) keeps.1 (
        chosen includes.include_update t (update_item m i change t).1 h
          (update_item-IsSound i change t keeps.0 h))
  serve_crud-IsSound includes (deletes i is_referenced ∷ rs) t keeps h =
      serve_crud-IsSound includes rs (crud_router m includes (deletes i is_referenced) t) keeps.1 (
        chosen includes.include_delete t (delete_item m is_referenced i t).1 h
          (delete_item-IsSound i is_referenced t h))
