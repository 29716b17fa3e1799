-- ===== src/EventEngine/EventDb.antt =====
-- `EventDB` of event_engine/event_db.py. The table `events` is a dictionary by its primary key, in the
-- order of insertion, in which SQLite scans it. Dates are compared as their texts. The JSON codec of
-- the tags, `isoformat` and the UUID are parameters.
pub mod Tags
pub mod Writes
use ligp_v.Prelude.{
  string_less, ℕ, Bool, true, false, not, ◌&&◌, Option, none, some, List, [], ◌∷◌, arith,
  if◌then◌else◌, String, contains, or_default, or_else, truthy, string_eq, ◌==◌,
}
use ligp_v.Dict.{Dict, get, put, member, values}

-- `EVENT_TYPES`
abbrev pub event_types : List String
event_types = "trending" ∷ "seasonal" ∷ "breaking" ∷ "planned" ∷ []

-- A datetime, or anything else as its text.
pub data Stamp (D : Type 0) : Type 0 where
  moment : D → Stamp D
  other : String → Stamp D

-- The dictionary that a caller passes, with the keys that may be missing.
pub record Event (D W : Type 0) : Type 0 where
  pub event_id : Option String
  pub name : Option String
  pub start_date : Option (Stamp D)
  pub end_date : Option (Stamp D)
  pub type : Option String
  pub tags : Option (List String)
  pub boost_multiplier : Option W
  pub created_at : Option String

-- A row of the table, with the tags of type `T`: JSON text `J`, or a list once it is read.
pub record Row (T W : Type 0) : Type 0 where
  pub event_id : String
  pub name : String
  pub start_date : String
  pub end_date : String
  pub type : String
  pub tags : T
  pub boost_multiplier : W
  pub created_at : String

abbrev pub Table : Type 0 → Type 0 → Type 0
Table J W = Dict String (Row J W)

-- `isoformat`, `json.dumps` and `json.loads` on lists of texts, and the float 1.0.
pub record Codec (D J W : Type 0) : Type 0 where
  pub isoformat : D → String
  pub dumps : List String → J
  pub loads : J → List String
  pub unit : W

pub data Result {ℓ} (A : Type ℓ) : Type ℓ where
  returned : A → Result A
  value_error key_error integrity_error : Result A

-- `sorted`
unfoldable pub insert_tag : String → List String → List String
insert_tag x [] = x ∷ []
insert_tag x (y ∷ ys) =
    let rest = insert_tag x ys in if string_less y x then y ∷ rest else x ∷ y ∷ ys

unfoldable pub sorted : List String → List String
sorted [] = []
sorted (x ∷ xs) = insert_tag x (sorted xs)

module _ {J W : Type 0} where
  -- `ON CONFLICT(event_id) DO UPDATE SET ...`: all but the time of creation.
  unfoldable pub merged : Option (Row J W) → Row J W → Row J W
  merged none row = row
  merged (some old) row = record row { created_at = old.created_at }

  -- `start_date <= ? AND end_date >= ?`
  unfoldable pub active : String → Row J W → Bool
  active at row = not (string_less at row.start_date) && not (string_less row.end_date at)

module _ {D J W : Type 0} (c : Codec D J W) where
  -- `_iso`
  unfoldable pub iso : Stamp D → String
  iso (moment d) = c.isoformat d
  iso (other s) = s

  -- `_to_row`. `uuid` and `now` are what `uuid4` and `utcnow_iso` give.
  unfoldable pub to_row : String → String → Event D W → Result (Row J W)
  to_row uuid now event =
      let etype = or_default event.type "trending" in
      if not (contains event_types etype) then value_error else elim event.name [
        | none ↦ key_error
        | some name ↦ elim event.start_date [
          | none ↦ key_error
          | some from ↦ elim event.end_date [
            | none ↦ key_error
            | some to ↦ returned (record {
              event_id = or_default (or_else event.event_id (some uuid)) uuid;
              name = name;
              start_date = iso from;
              end_date = iso to;
              type = etype;
              tags = c.dumps (sorted (or_default event.tags []));
              boost_multiplier = or_default event.boost_multiplier c.unit;
              created_at = or_default (or_else event.created_at (some now)) now;
            })
          ]
        ]
      ]

  -- `_from_row`
  unfoldable pub from_row : Row J W → Row (List String) W
  from_row row = record {
    event_id = row.event_id;
    name = row.name;
    start_date = row.start_date;
    end_date = row.end_date;
    type = row.type;
    tags = c.loads row.tags;
    boost_multiplier = row.boost_multiplier;
    created_at = row.created_at;
  }

  unfoldable pub insert : String → String → Event D W → Table J W → Result (Table J W × String)
  insert uuid now event db = elim (to_row uuid now event) [
    | returned row ↦
        if member row.event_id db
        then integrity_error
        else returned (put row.event_id row db, row.event_id)
    | value_error ↦ value_error
    | key_error ↦ key_error
    | integrity_error ↦ integrity_error
  ]

  unfoldable pub upsert : String → String → Event D W → Table J W → Result (Table J W × String)
  upsert uuid now event db = elim (to_row uuid now event) [
    | returned row ↦ returned (put row.event_id (merged (get row.event_id db) row) db, row.event_id)
    | value_error ↦ value_error
    | key_error ↦ key_error
    | integrity_error ↦ integrity_error
  ]

  unfoldable pub rows_where : (Row J W → Bool) → List (Row J W) → List (Row (List String) W)
  rows_where test [] = []
  rows_where test (row ∷ rows) =
      let rest = rows_where test rows in if test row then from_row row ∷ rest else rest

  unfoldable pub get_active_events : Stamp D → Table J W → List (Row (List String) W)
  get_active_events at db = rows_where (active (iso at)) (values db)

  unfoldable pub get_by_tag : String → Table J W → List (Row (List String) W)
  get_by_tag tag db = rows_where (λ row. contains (c.loads row.tags) tag) (values db)
